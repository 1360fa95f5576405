-- ===== src/Document/Query.antt =====
-- `DIDUrlQuery` of identity_document/src/utils/did_url_query.rs: a text that asks for the method or
-- service with a fragment, and with a DID if the text has one.
pub mod Printed
use Prim.Native.Nat.{min}
use zk_identity.Prelude.{
  ℕ, ◌+◌, Bool, true, false, Option, none, some, List, [], ◌∷◌, Text, text_eqb, if◌then◌else◌,
  length, take, drop,
}
use zk_identity.Did.Chars.{starts_with, find_char, rfind_char, is_empty}
use zk_identity.Did.DidUrl
use zk_identity.Did.DidUrl.{DidUrl}

-- `CoreDID::SCHEME`, which is "did"
abbrev pub scheme : Text
scheme = b'd' ∷ b'i' ∷ b'd' ∷ []

-- `end_pos.min(query.find(c).unwrap_or(end_pos))`
unfoldable pub nearer : Option ℕ → ℕ → ℕ
nearer none end_pos = min end_pos end_pos
nearer (some n) end_pos = min end_pos n

unfoldable pub did_str : Text → Option Text
unfolding nearer
did_str query =
    if starts_with scheme query
    then (let e0 = length query in
        let e1 = nearer (find_char b'?' query) e0 in
        let e2 = nearer (find_char b'/' query) e1 in
        let e3 = nearer (find_char b'#' query) e2 in some (take e3 query))
    else none

unfoldable pub non_empty : Text → Option Text
non_empty s = if is_empty s then none else some s

unfoldable pub fragment : Text → Option Text
unfolding non_empty
fragment query =
    if starts_with scheme query
    then elim (rfind_char b'#' query) [
      | none ↦ none
      | some index ↦ non_empty (drop (index + 1) query)
    ]
    else elim (rfind_char b'#' query) [
      | none ↦ non_empty query
      | some index ↦ non_empty (drop (index + 1) query)
    ]

-- `Some(a) == Some(b)` with both there
unfoldable pub same_fragment : Option Text → Option Text → Bool
same_fragment (some a) (some b) = text_eqb a b
same_fragment _ _ = false

unfoldable pub matches : Text → DidUrl → Bool
matches query did_url =
    let fragments = same_fragment (fragment query) (DidUrl.fragment did_url) in
    elim (did_str query) [
      | none ↦ fragments
      | some s ↦ if text_eqb s did_url.did.as_str then fragments else false
    ]
