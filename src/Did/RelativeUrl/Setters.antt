-- ===== src/Did/RelativeUrl/Setters.antt =====
-- The setters and getters of `RelativeDIDUrl` of identity_did/src/did_url.rs.
use zk_identity.Prelude.{
  ℕ, ◌≡◌, refl, subst, ◌⊎◌, inl, inr, Bool, true, Option, none, some, List, [], ◌∷◌, ◌&&◌, not,
  arith, Text, eqb, Bool-cases,
}
use zk_identity.Prelude.Outcome.{Outcome, ok, ◌>>=◌, >>=-eq-ok, ok-injective}
use zk_identity.Did.Chars.{
  is_char_path, is_char_query, is_char_fragment, all_chars, starts_with_char, or_empty, is_empty,
  strip_prefix, is_char_method_id,
}
use zk_identity.Did.RelativeUrl.{
  RelativeUrl, DidError, new, check_path, check_query, check_fragment, set_path, set_query,
  set_fragment, without_delimiter, checked, fragment_of,
}

-- a segment is empty, or a delimiter with a body that `accepts` accepts
abbrev pub IsSegment : ℕ → (Text → Bool) → Text → Type 0
IsSegment d accepts s = (s ≡ []) ⊎ ((t : Text) × (s ≡ d ∷ t) × (accepts t ≡ true))

abbrev pub query_body : Text → Bool
query_body t = not (is_empty t) && all_chars is_char_query t

abbrev pub fragment_body : Text → Bool
fragment_body t = not (is_empty t) && all_chars is_char_fragment t

pub record IsValid (u : RelativeUrl) : Type 0 where
  pub path : IsSegment b'/' (all_chars is_char_path) (or_empty u.path)
  pub query : IsSegment b'?' query_body (or_empty u.query)
  pub fragment : IsSegment b'#' fragment_body (or_empty u.fragment)

pub new-IsValid : IsValid new
new-IsValid = record { path = inl refl; query = inl refl; fragment = inl refl }

-- what `filter`, `map` and `transpose` return: nothing, or a checked text
checked_segment :
    (check : Text → Outcome DidError Text) (P : Text → Type 0)
    → P []
    → ((s t : Text) → check s ≡ ok t → P t)
    → (value p : Option Text) → checked check value ≡ ok p
    → P (or_empty p)
checked_segment check P base step none p h = subst (λ o. P (or_empty o)) (ok-injective h) base
checked_segment check P base step (some []) p h = subst (λ o. P (or_empty o)) (ok-injective h) base
checked_segment check P base step (some (c ∷ s)) p h =
    let (t, e, k) = >>=-eq-ok (check (c ∷ s)) (λ t. ok (some t)) h in
    subst (λ o. P (or_empty o)) (ok-injective k) (step (c ∷ s) t e)

path_segment : (s t : Text) → check_path s ≡ ok t → IsSegment b'/' (all_chars is_char_path) t
unfolding check_path starts_with_char all_chars
path_segment [] t h = cc
path_segment (c ∷ s) t h = inr (s, ground arith, ground arith)

query_segment : (s t : Text) → check_query s ≡ ok t → IsSegment b'?' query_body t
unfolding check_query
query_segment s t h = inr (without_delimiter b'?' s, ground arith, ground arith)

fragment_segment : (s t : Text) → check_fragment s ≡ ok t → IsSegment b'#' fragment_body t
unfolding check_fragment
fragment_segment s t h = inr (without_delimiter b'#' s, ground arith, ground arith)

module _ (u : RelativeUrl) (value : Option Text) (v : IsValid u) where
  set_path-IsValid : {w : RelativeUrl} → set_path u value ≡ ok w → IsValid w
  unfolding set_path
  set_path-IsValid h =
      let (p, e, k) = >>=-eq-ok (checked check_path value) (λ p. ok (record u { path = p })) h in
      subst IsValid (ok-injective k) (record {
        path = checked_segment check_path _ (inl refl) path_segment value p e;
        query = v.query;
        fragment = v.fragment;
      })

  set_query-IsValid : {w : RelativeUrl} → set_query u value ≡ ok w → IsValid w
  unfolding set_query
  set_query-IsValid h =
      let (q, e, k) = >>=-eq-ok (checked check_query value) (λ q. ok (record u { query = q })) h in
      subst IsValid (ok-injective k) (record {
        path = v.path;
        query = checked_segment check_query _ (inl refl) query_segment value q e;
        fragment = v.fragment;
      })

  set_fragment-IsValid : {w : RelativeUrl} → set_fragment u value ≡ ok w → IsValid w
  unfolding set_fragment
  set_fragment-IsValid h =
      let (f, e, k) =
        >>=-eq-ok (checked check_fragment value) (λ f. ok (record u { fragment = f })) h in
      subst IsValid (ok-injective k) (record {
        path = v.path;
        query = v.query;
        fragment = checked_segment check_fragment _ (inl refl) fragment_segment value f e;
      })

-- A sequence of setter calls.
pub data SetterCall : Type 0 where
  path query fragment : Option Text → SetterCall

unfoldable pub call : RelativeUrl → SetterCall → Outcome DidError RelativeUrl
call u (SetterCall.path value) = set_path u value
call u (SetterCall.query value) = set_query u value
call u (SetterCall.fragment value) = set_fragment u value

unfoldable pub calls : RelativeUrl → List SetterCall → Outcome DidError RelativeUrl
unfolding call
calls u [] = ok u
calls u (c ∷ cs) = do w ← call u c; calls w cs

calls-IsValid_from :
    (u : RelativeUrl) (cs : List SetterCall) {w : RelativeUrl}
    → IsValid u
    → calls u cs ≡ ok w
    → IsValid w
unfolding calls
calls-IsValid_from u [] v h = subst IsValid (ok-injective h) v
calls-IsValid_from u (c ∷ cs) v h =
    let (w, e, k) = >>=-eq-ok (call u c) (λ w. calls w cs) h in calls-IsValid_from w cs (one c e) k
  where
    one : (c : SetterCall) {w : RelativeUrl} → call u c ≡ ok w → IsValid w
    one (SetterCall.path value) e = set_path-IsValid u value v e
    one (SetterCall.query value) e = set_query-IsValid u value v e
    one (SetterCall.fragment value) e = set_fragment-IsValid u value v e

-- Every relative Url that the setters build from an empty one has, in each place, nothing or the
-- delimiter of that place followed by characters that are allowed there; a query or a fragment that
-- is there is not empty.
pub calls-IsValid : (cs : List SetterCall) {w : RelativeUrl} → calls new cs ≡ ok w → IsValid w
calls-IsValid cs h = calls-IsValid_from new cs new-IsValid h

-- no delimiter is a fragment character
no_delimiter : (t : Text) → fragment_body t ≡ true → without_delimiter b'#' t ≡ t
unfolding all_chars is_char_fragment is_char_path is_char_method_id strip_prefix
no_delimiter [] h = cc
no_delimiter (c ∷ t) h = elim (Bool-cases (eqb c b'#')) [
  | inl hash ↦ absurd (ground arith)
  | inr other ↦ ground arith
]

set_fragment-ok :
    (u : RelativeUrl) (c : ℕ) (s : Text) {w : RelativeUrl}
    → set_fragment u (some (c ∷ s)) ≡ ok w
    → (fragment_body (without_delimiter b'#' (c ∷ s)) ≡ true)
      × (◌≡◌ {A = RelativeUrl}
          (record u { fragment = some (b'#' ∷ without_delimiter b'#' (c ∷ s)) })
          w)
unfolding set_fragment check_fragment
set_fragment-ok u c s h = ground arith

-- a fragment that the getter answers can be set again
set_again :
    (u : RelativeUrl) (t : Text)
    → fragment_body t ≡ true
    → u.fragment ≡ some (b'#' ∷ t)
    → set_fragment u (some t) ≡ ok u
unfolding set_fragment check_fragment
set_again u [] h e = cc
set_again u (c ∷ t) h e = rw (no_delimiter (c ∷ t) h) (ground arith)

-- When `set_fragment` accepts a text that is not empty, the getter reads it back without the leading
-- `#` that it may have had, path and query are as before, and setting what the getter answers
-- changes nothing.
pub fragment_of-set_fragment :
    (u : RelativeUrl) (c : ℕ) (s : Text) {w : RelativeUrl}
    → set_fragment u (some (c ∷ s)) ≡ ok w
    → (fragment_of w ≡ some (without_delimiter b'#' (c ∷ s)))
      × (w.path ≡ u.path)
      × (w.query ≡ u.query)
      × (set_fragment w (fragment_of w) ≡ ok w)
unfolding fragment_of strip_prefix
fragment_of-set_fragment u c s {w} h =
    let t = without_delimiter b'#' (c ∷ s) in
    let (body, same) = set_fragment-ok u c s h in
    subst
      (λ (w : RelativeUrl).
        (fragment_of w ≡ some t)
        × (w.path ≡ u.path)
        × (w.query ≡ u.query)
        × (set_fragment w (fragment_of w) ≡ ok w))
      same (refl, refl, refl, set_again (record u { fragment = some (b'#' ∷ t) }) t body refl)
