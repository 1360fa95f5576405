-- ===== src/Did/CoreDid/MethodId.antt =====
-- `valid_method_id` and `check_validity` of identity_did/src/did.rs against a grammar.
use zk_identity.Prelude.{
  ℕ, zero, suc, ◌≡◌, refl, sym, subst, ◌↔◌, Bool, true, false, none, [], ◌∷◌, ◌&&◌, ◌||◌, arith,
  eqb, Text, text_eqb_iff, if◌then◌else◌, take, is_some, Bool-cases, inl, inr,
}
use zk_identity.Prelude.Outcome.{ok, err}
use zk_identity.Did.Chars.{in_range, is_char_method_name, is_char_method_id, all_chars, is_empty}
use zk_identity.Did.RelativeUrl.{invalid_method_id}
use zk_identity.Did.CoreDid.{
  to_digit, from_str_radix, method_id_loop, valid_method_id, valid_method_name, BaseDidUrl,
  check_validity,
}

abbrev pub is_hex : ℕ → Bool
is_hex c = in_range b'0' b'9' c || in_range b'a' b'f' c || in_range b'A' b'F' c

-- The method-specific ids that are accepted: characters, and escapes. An escape should be `%` with
-- two hexadecimal digits; a sign in place of the first, and one digit at the end, are accepted too.
pub data IsMethodId : Text → Type 0 where
  end : IsMethodId []
  char : (c : ℕ) {s : Text} → is_char_method_id c ≡ true → IsMethodId s → IsMethodId (c ∷ s)
  escape :
      (a b : ℕ) {s : Text}
      → is_hex a ≡ true
      → is_hex b ≡ true
      → IsMethodId s
      → IsMethodId (b'%' ∷ a ∷ b ∷ s)
  signed : (b : ℕ) {s : Text} → is_hex b ≡ true → IsMethodId s → IsMethodId (b'%' ∷ b'+' ∷ b ∷ s)
  short : (a : ℕ) → is_hex a ≡ true → IsMethodId (b'%' ∷ a ∷ [])

is_some-two :
    (a b : ℕ) → is_some (from_str_radix (a ∷ b ∷ [])) ≡ ((is_hex a || eqb a b'+') && is_hex b)
unfolding from_str_radix to_digit
is_some-two a b = ground arith

is_some-one : (a : ℕ) → is_some (from_str_radix (a ∷ [])) ≡ is_hex a
unfolding from_str_radix to_digit
is_some-one a = ground arith

is_some-none : is_some (from_str_radix []) ≡ false
unfolding from_str_radix
is_some-none = refl

-- one round of the loop
loop_percent :
    (s : Text)
    → method_id_loop 0 (b'%' ∷ s)
      ≡ (if is_some (from_str_radix (take 2 s)) then method_id_loop 2 s else err invalid_method_id)
unfolding method_id_loop
loop_percent s = ground arith

loop_char :
    (c : ℕ) (s : Text)
    → eqb c b'%' ≡ false
    → method_id_loop 0 (c ∷ s)
      ≡ (if is_char_method_id c then method_id_loop 0 s else err invalid_method_id)
unfolding method_id_loop
loop_char c s h = rw h refl

loop_skip : (a b : ℕ) (s : Text) → method_id_loop 2 (a ∷ b ∷ s) ≡ method_id_loop 0 s
unfolding method_id_loop
loop_skip a b s = refl

loop_end : (k : ℕ) → method_id_loop k [] ≡ ok tt
unfolding method_id_loop
loop_end zero = refl
loop_end (suc k) = refl

loop_last : (a : ℕ) → method_id_loop 2 (a ∷ []) ≡ ok tt
unfolding method_id_loop
loop_last a = refl

no_percent : (c : ℕ) → is_char_method_id c ≡ true → eqb c b'%' ≡ false
unfolding is_char_method_id
no_percent c h = ground arith

valid-IsMethodId : {s : Text} → IsMethodId s → method_id_loop 0 s ≡ ok tt
valid-IsMethodId end = loop_end 0
valid-IsMethodId (char c {s} h i) =
    ground (arith, loop_char c s (no_percent c h), valid-IsMethodId i)
valid-IsMethodId (escape a b {s} ha hb i) =
    ground (arith, loop_percent (a ∷ b ∷ s), is_some-two a b, loop_skip a b s, valid-IsMethodId i)
valid-IsMethodId (signed b {s} hb i) =
    ground (
      arith,
      loop_percent (b'+' ∷ b ∷ s),
      is_some-two b'+' b,
      loop_skip b'+' b s,
      valid-IsMethodId i,
    )
valid-IsMethodId (short a ha) = ground (arith, loop_percent (a ∷ []), is_some-one a, loop_last a)

-- a character that is no escape
plain_sound :
    (c : ℕ) (s : Text)
    → eqb c b'%' ≡ false
    → method_id_loop 0 (c ∷ s) ≡ ok tt
    → (is_char_method_id c ≡ true) × (method_id_loop 0 s ≡ ok tt)
plain_sound c s other h = ground (arith, loop_char c s other)

-- an escape of three characters, or two at the end
escape_sound :
    (c a b : ℕ) (s : Text)
    → eqb c b'%' ≡ true
    → method_id_loop 0 (c ∷ a ∷ b ∷ s) ≡ ok tt
    → (c ≡ b'%') × ((is_hex a || eqb a b'+') && is_hex b ≡ true) × (method_id_loop 0 s ≡ ok tt)
escape_sound c a b s percent h =
    let e : c ≡ b'%' = ground arith in
    let k = subst (λ c. method_id_loop 0 (c ∷ a ∷ b ∷ s) ≡ ok tt) e h in
    (
      e,
      ground (arith, loop_percent (a ∷ b ∷ s), is_some-two a b),
      ground (arith, loop_percent (a ∷ b ∷ s), loop_skip a b s),
    )

short_sound :
    (c a : ℕ)
    → eqb c b'%' ≡ true
    → method_id_loop 0 (c ∷ a ∷ []) ≡ ok tt
    → (c ≡ b'%') × (is_hex a ≡ true)
short_sound c a percent h =
    let e : c ≡ b'%' = ground arith in
    let k = subst (λ c. method_id_loop 0 (c ∷ a ∷ []) ≡ ok tt) e h in
    (e, ground (arith, loop_percent (a ∷ []), is_some-one a))

lone_percent : (c : ℕ) → method_id_loop 0 (c ∷ []) ≡ ok tt → eqb c b'%' ≡ false
lone_percent c h = elim (Bool-cases (eqb c b'%')) [
  | inl percent ↦
      let e : c ≡ b'%' = ground arith in
      let k = subst (λ c. method_id_loop 0 (c ∷ []) ≡ ok tt) e h in
      absurd (ground (arith, loop_percent [], is_some-none))
  | inr other ↦ other
]

-- an escape, by its second character
escaped :
    (a b : ℕ) {s : Text}
    → (is_hex a || eqb a b'+') && is_hex b ≡ true
    → IsMethodId s
    → IsMethodId (b'%' ∷ a ∷ b ∷ s)
escaped a b {s} h i = elim (Bool-cases (is_hex a)) [
  | inl digit ↦ escape a b digit (ground arith) i
  | inr sign ↦
      let e : a ≡ b'+' = ground arith in
      subst (λ a. IsMethodId (b'%' ∷ a ∷ b ∷ s)) (sym e) (signed b (ground arith) i)
]

IsMethodId-valid : (s : Text) → method_id_loop 0 s ≡ ok tt → IsMethodId s
IsMethodId-valid [] h = end
IsMethodId-valid (c ∷ []) h =
    let (fits, _) = plain_sound c [] (lone_percent c h) h in char c fits end
IsMethodId-valid (c ∷ a ∷ []) h = elim (Bool-cases (eqb c b'%')) [
  | inl percent ↦
      let (e, digit) = short_sound c a percent h in
      subst (λ c. IsMethodId (c ∷ a ∷ [])) (sym e) (short a digit)
  | inr other ↦
      let (fits, k) = plain_sound c (a ∷ []) other h in char c fits (IsMethodId-valid (a ∷ []) k)
]
IsMethodId-valid (c ∷ a ∷ b ∷ s) h = elim (Bool-cases (eqb c b'%')) [
  | inl percent ↦
      let (e, digits, k) = escape_sound c a b s percent h in
      subst (λ c. IsMethodId (c ∷ a ∷ b ∷ s)) (sym e) (escaped a b digits (IsMethodId-valid s k))
  | inr other ↦
      let (fits, k) = plain_sound c (a ∷ b ∷ s) other h in
      char c fits (IsMethodId-valid (a ∷ b ∷ s) k)
]

-- `valid_method_id` accepts exactly the texts of characters that are allowed and of escapes: `%` with
-- two hexadecimal digits, with a `+` and one digit, or with one digit at the end.
pub valid_method_id_iff : (s : Text) → (valid_method_id s ≡ ok tt) ↔ IsMethodId s
unfolding valid_method_id
valid_method_id_iff s = (IsMethodId-valid s, valid-IsMethodId)

empty_iff : (s : Text) → (is_empty s ≡ true) ↔ (s ≡ [])
empty_iff [] = ground arith
empty_iff (c ∷ s) = ((λ h. absurd (cc h)), λ h. absurd (cc h))

-- `check_validity` accepts a parsed DID Url exactly if its method name and method-specific id are
-- valid, its scheme is the one asked for, and it has no path, query or fragment.
pub check_validity_iff :
    (scheme : Text) (did : BaseDidUrl)
    → (check_validity scheme did ≡ ok tt) ↔ (
        (all_chars is_char_method_name did.method ≡ true)
        × IsMethodId did.method_id
        × (did.scheme ≡ scheme)
        × (did.path ≡ [])
        × (did.query ≡ none)
        × (did.fragment ≡ none))
unfolding check_validity valid_method_name
check_validity_iff scheme did =
    ground
      (arith, valid_method_id_iff did.method_id, text_eqb_iff did.scheme scheme, empty_iff did.path)
