-- ===== src/Document/Query/Printed.antt =====
-- `DIDUrlQuery` of did_url_query.rs on the text that a DID Url prints.
use mathlib.Core.List.{append_assoc, append-nil}
use zk_identity.Prelude.{
  ℕ, suc, ◌+◌, ◌≡◌, refl, sym, ap, ◌∙◌, Bool, true, false, none, some, [], ◌∷◌, ◌++◌, Text,
  text_eqb, if◌then◌else◌, length, take, drop, All, arith, eqb, ◌||◌, ◌&&◌, position, inl, inr,
}
use zk_identity.Did.Chars.{
  starts_with, find_char, rfind_char, or_empty, is_char_path, is_char_query, is_char_fragment,
  all_chars, strip_prefix,
}
use zk_identity.Did.DidUrl
use zk_identity.Did.DidUrl.{DidUrl, CoreDid}
use zk_identity.Did.RelativeUrl
use zk_identity.Did.RelativeUrl.{RelativeUrl, fragment_of-or_empty}
use zk_identity.Did.RelativeUrl.Setters.{IsValid, IsSegment, query_body, fragment_body}
use zk_identity.Document.Query.{scheme, nearer, did_str, fragment, same_fragment, matches}

abbrev is_delimiter : ℕ → Bool
is_delimiter c = eqb c b'?' || eqb c b'/' || eqb c b'#'

-- what stands before the first delimiter
before_delimiter : Text → Text
before_delimiter [] = []
before_delimiter (c ∷ s) = let rest = before_delimiter s in if is_delimiter c then [] else c ∷ rest

end_of : Text → ℕ
end_of query =
    nearer (find_char b'#' query)
      (nearer (find_char b'/' query) (nearer (find_char b'?' query) (length query)))

end_of_step : (c : ℕ) (s : Text) → end_of (c ∷ s) ≡ (if is_delimiter c then 0 else suc (end_of s))
unfolding end_of nearer position
end_of_step c s = ground arith

take-end_of : (query : Text) → take (end_of query) query ≡ before_delimiter query
unfolding before_delimiter
take-end_of [] = unfold end_of nearer position in refl
take-end_of (c ∷ s) = rw end_of_step (ground (arith, take-end_of s))

did_str_lem :
    (query : Text) → starts_with scheme query ≡ true → did_str query ≡ some (before_delimiter query)
unfolding did_str
did_str_lem query h = rw h (ap some (unfold end_of in take-end_of query))

-- `find` finds nothing
abbrev pub Lacks : ℕ → Text → Type 0
Lacks d s = All (λ c. eqb c d ≡ false) s

rfind_char-none : (d : ℕ) (s : Text) → Lacks d s → rfind_char d s ≡ none
unfolding rfind_char
rfind_char-none d [] h = refl
rfind_char-none d (c ∷ s) h = ground (arith, rfind_char-none d s h.1)

rfind_char-append : (d : ℕ) (s t : Text) → Lacks d t → rfind_char d (s ++ d ∷ t) ≡ some (length s)
unfolding rfind_char
rfind_char-append d [] t h = ground (arith, rfind_char-none d t h)
rfind_char-append d (c ∷ s) t h = ground (arith, rfind_char-append d s t h)

drop_past : (d : ℕ) (s t : Text) → drop (length s + 1) (s ++ d ∷ t) ≡ t
drop_past d [] t = refl
drop_past d (c ∷ s) t =
    let e : suc (length s) + 1 ≡ suc (length s + 1) = omega arith in rw e (drop_past d s t)

-- a DID that the library's parser accepts: it begins with the scheme and has no delimiter
pub record IsDid (d : CoreDid) : Type 0 where
  pub has_scheme : starts_with scheme d.as_str ≡ true
  pub plain : All (λ c. is_delimiter c ≡ false) d.as_str

-- a list of segments begins with a delimiter, if it is not empty
abbrev Opens : Text → Type 0
Opens [] = Unit
Opens (c ∷ s) = is_delimiter c ≡ true

before_delimiter-append :
    (s t : Text) → All (λ c. is_delimiter c ≡ false) s → Opens t → before_delimiter (s ++ t) ≡ s
unfolding before_delimiter
before_delimiter-append [] [] h o = refl
before_delimiter-append [] (c ∷ t) h o = rw o refl
before_delimiter-append (c ∷ s) t h o = rw h.0 (ap (λ r. c ∷ r) (before_delimiter-append s t h.1 o))

starts_with-append : (p s t : Text) → starts_with p s ≡ true → starts_with p (s ++ t) ≡ true
unfolding starts_with
starts_with-append [] s t h = refl
starts_with-append (c ∷ p) [] t h = cc
starts_with-append (c ∷ p) (d ∷ s) t h = ground (arith, starts_with-append p s t)

module _ {accepts : Text → Bool} where
  Opens-segment :
      (d : ℕ) (s rest : Text)
      → is_delimiter d ≡ true
      → IsSegment d accepts s
      → Opens rest
      → Opens (s ++ rest)
  Opens-segment d s rest hd (inl e) o = rw e o
  Opens-segment d s rest hd (inr (t, e, h)) o = rw e hd

Opens-relative : (u : RelativeUrl) → IsValid u → Opens (RelativeUrl.to_string u)
unfolding RelativeUrl.to_string
Opens-relative u v = Opens-segment b'/' (or_empty u.path) _ refl v.path (
    Opens-segment b'?' (or_empty u.query) (or_empty u.fragment) refl v.query (
      rw (← append-nil (or_empty u.fragment))
        (Opens-segment b'#' (or_empty u.fragment) [] refl v.fragment tt)))

module _ (d : ℕ) where
  Lacks-append : (s t : Text) → Lacks d s → Lacks d t → Lacks d (s ++ t)
  Lacks-append [] t hs ht = ht
  Lacks-append (c ∷ s) t hs ht = (hs.0, Lacks-append s t hs.1 ht)

  all_chars-Lacks :
      (p : ℕ → Bool) (s : Text)
      → ((c : ℕ) → p c ≡ true → eqb c d ≡ false)
      → all_chars p s ≡ true
      → Lacks d s
  unfolding all_chars
  all_chars-Lacks p [] sep h = tt
  all_chars-Lacks p (c ∷ s) sep h = (sep c (ground arith), all_chars-Lacks p s sep (ground arith))

no_hash_path : (c : ℕ) → is_char_path c ≡ true → eqb c b'#' ≡ false
unfolding is_char_path
no_hash_path c h = ground arith

no_hash_query : (c : ℕ) → is_char_query c ≡ true → eqb c b'#' ≡ false
unfolding is_char_query
no_hash_query c h = ground arith

no_hash_fragment : (c : ℕ) → is_char_fragment c ≡ true → eqb c b'#' ≡ false
unfolding is_char_fragment
no_hash_fragment c h = ground arith

no_hash_did : (s : Text) → All (λ c. is_delimiter c ≡ false) s → Lacks b'#' s
no_hash_did [] h = tt
no_hash_did (c ∷ s) h = (ground arith, no_hash_did s h.1)

path-Lacks : (s : Text) → IsSegment b'/' (all_chars is_char_path) s → Lacks b'#' s
path-Lacks s (inl e) = rw e tt
path-Lacks s (inr (t, e, h)) = rw e (refl, all_chars-Lacks b'#' is_char_path t no_hash_path h)

query-Lacks : (s : Text) → IsSegment b'?' query_body s → Lacks b'#' s
query-Lacks s (inl e) = rw e tt
query-Lacks s (inr (t, e, h)) =
    rw e (refl, all_chars-Lacks b'#' is_char_query t no_hash_query (ground arith))

fragment_last :
    (query s r : Text)
    → starts_with scheme query ≡ true
    → query ≡ s ++ r
    → Lacks b'#' s
    → IsSegment b'#' fragment_body r
    → fragment query ≡ strip_prefix b'#' r
unfolding fragment strip_prefix
fragment_last query s r h e l (inl nothing) =
    let bare : query ≡ s = e ∙ ap (λ x. s ++ x) nothing ∙ append-nil s in
    rw h (rw bare (rw (rfind_char-none b'#' s l) (rw nothing refl)))
fragment_last query s r h e l (inr (t, there, body)) =
    let whole : query ≡ s ++ b'#' ∷ t = e ∙ ap (λ x. s ++ x) there in
    let lacks = all_chars-Lacks b'#' is_char_fragment t no_hash_fragment (ground arith) in
    rw h (
      rw whole (
        rw (rfind_char-append b'#' s t lacks)
          (rw whole (rw (drop_past b'#' s t) (rw there (ground arith))))))

-- what a printed DID Url has in front of its fragment
front : DidUrl → Text
front u = u.did.as_str ++ (or_empty u.url.path ++ or_empty u.url.query)

module _ (u : DidUrl) (d : IsDid u.did) (v : IsValid u.url) where
  front-Lacks : Lacks b'#' (front u)
  unfolding front
  front-Lacks =
      Lacks-append b'#' u.did.as_str _ (no_hash_did u.did.as_str d.plain)
        (Lacks-append b'#' (or_empty u.url.path) _ (path-Lacks _ v.path) (query-Lacks _ v.query))

  to_string-front : DidUrl.to_string u ≡ front u ++ or_empty u.url.fragment
  unfolding front DidUrl.to_string RelativeUrl.to_string
  to_string-front = simp append_assoc

  starts_with-to_string : starts_with scheme (DidUrl.to_string u) ≡ true
  unfolding DidUrl.to_string
  starts_with-to_string = starts_with-append scheme u.did.as_str _ d.has_scheme

  did_str-to_string : did_str (DidUrl.to_string u) ≡ some u.did.as_str
  did_str-to_string =
      did_str_lem (DidUrl.to_string u) starts_with-to_string
      ∙ ap some (
          unfold DidUrl.to_string in
          before_delimiter-append u.did.as_str _ d.plain (Opens-relative u.url v))

  fragment-to_string : fragment (DidUrl.to_string u) ≡ DidUrl.fragment u
  fragment-to_string =
      fragment_last (DidUrl.to_string u) (front u) (or_empty u.url.fragment) starts_with-to_string
        to_string-front front-Lacks v.fragment
      ∙ sym (fragment_of-or_empty u.url)

-- The query that a valid DID Url prints matches another one exactly when the two have the same DID
-- and the same fragment, and both have a fragment; paths and queries are not compared.
pub matches-to_string :
    (u w : DidUrl)
    → IsDid u.did
    → IsValid u.url
    → matches (DidUrl.to_string u) w ≡ (
        text_eqb u.did.as_str w.did.as_str && same_fragment (DidUrl.fragment u) (DidUrl.fragment w))
unfolding matches
matches-to_string u w d v = ground (arith, did_str-to_string u d v, fragment-to_string u d v)
