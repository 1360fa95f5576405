-- ===== src/Did/Chars.antt =====
-- The character classes of identity_did/src/did.rs and identity_did/src/did_url.rs, on code points,
-- and the methods of `str` that the crate calls.
use zk_identity.Prelude.{
  ℕ, suc, ◌≡◌, refl, arith, Bool, true, false, Option, none, some, List, [], ◌∷◌, ◌++◌, ◌&&◌, ◌||◌,
  eqb, leb, Text, if◌then◌else◌, position,
}

-- `'lo'..='hi'`
abbrev pub in_range : ℕ → ℕ → ℕ → Bool
in_range lo hi c = leb lo c && leb c hi

abbrev pub one_of : List ℕ → ℕ → Bool
one_of [] c = false
one_of (x ∷ xs) c = eqb c x || one_of xs c

unfoldable pub is_char_method_name : ℕ → Bool
is_char_method_name c = in_range b'0' b'9' c || in_range b'a' b'z' c

unfoldable pub is_char_method_id : ℕ → Bool
is_char_method_id c =
    in_range b'0' b'9' c
    || in_range b'a' b'z' c
    || in_range b'A' b'Z' c
    || one_of (b'.' ∷ b'-' ∷ b'_' ∷ b':' ∷ []) c

unfoldable pub is_char_path : ℕ → Bool
unfolding is_char_method_id
is_char_path c =
    is_char_method_id c
    || one_of
        (b'~' ∷ b'!' ∷ b'$' ∷ b'&' ∷ 39 ∷ b'(' ∷ b')' ∷ b'*' ∷ b'+' ∷ b',' ∷ b';' ∷ b'=' ∷ b'@'
          ∷ b'/' ∷ [])
        c

unfoldable pub is_char_query : ℕ → Bool
unfolding is_char_path
is_char_query c = is_char_path c || eqb c b'?'

unfoldable pub is_char_fragment : ℕ → Bool
unfolding is_char_path
is_char_fragment c = is_char_path c || eqb c b'?'

-- `chars().all`
unfoldable pub all_chars : (ℕ → Bool) → Text → Bool
all_chars p [] = true
all_chars p (c ∷ s) = p c && all_chars p s

-- `starts_with` for a character
unfoldable pub starts_with_char : ℕ → Text → Bool
starts_with_char d [] = false
starts_with_char d (c ∷ s) = eqb c d

-- `starts_with` for a text
unfoldable pub starts_with : Text → Text → Bool
starts_with [] s = true
starts_with (p ∷ ps) [] = false
starts_with (p ∷ ps) (c ∷ s) = eqb c p && starts_with ps s

-- `strip_prefix` for a character
unfoldable pub strip_prefix : ℕ → Text → Option Text
strip_prefix d [] = none
strip_prefix d (c ∷ s) = if eqb c d then some s else none

-- `strip_prefix` for a text
unfoldable pub strip_text : Text → Text → Option Text
strip_text [] s = some s
strip_text (p ∷ ps) [] = none
strip_text (p ∷ ps) (c ∷ s) = let rest = strip_text ps s in if eqb c p then rest else none

pub strip_text-append : (p s : Text) → strip_text p (p ++ s) ≡ some s
unfolding strip_text
strip_text-append [] s = refl
strip_text-append (c ∷ p) s = ground (arith, strip_text-append p s)

-- `find` and `rfind` for a character
abbrev pub find_char : ℕ → Text → Option ℕ
find_char d s = position (λ c. eqb c d) s

unfoldable pub rfind_char : ℕ → Text → Option ℕ
rfind_char d [] = none
rfind_char d (c ∷ s) = elim (rfind_char d s) [
  | some n ↦ some (suc n)
  | none ↦ if eqb c d then some 0 else none
]

-- `unwrap_or_default` on an optional text
abbrev pub or_empty : Option Text → Text
or_empty none = []
or_empty (some s) = s

abbrev pub is_empty : Text → Bool
is_empty [] = true
is_empty (c ∷ s) = false
