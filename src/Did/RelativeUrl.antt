-- ===== src/Did/RelativeUrl.antt =====
-- `RelativeDIDUrl` of identity_did/src/did_url.rs.
pub mod Setters
use zk_identity.Prelude.{
  ℕ, ◌≡◌, refl, sym, ap, ◌∙◌, ◌↔◌, arith, text_eqb_iff, Bool, true, false, Option, none, some, List,
  [], ◌∷◌, ◌++◌, ◌&&◌, not, Text, if◌then◌else◌, PartialEq, text_eq, ◌==◌,
}
use zk_identity.Prelude.Outcome.{Outcome, ok, err, ◌>>=◌}
use zk_identity.Did.Chars.{
  is_char_path, is_char_query, is_char_fragment, all_chars, starts_with_char, strip_prefix,
  or_empty, is_empty,
}

-- `Error` of identity_did/src/error.rs, without payloads
pub data DidError : Type 0 where
  invalid_fragment invalid_method_id invalid_method_name invalid_path invalid_query invalid_scheme
        other :
      DidError

pub record RelativeUrl : Type 0 where
  pub path : Option Text
  pub query : Option Text
  pub fragment : Option Text

abbrev pub new : RelativeUrl
new = record { path = none; query = none; fragment = none }

unfoldable pub no_segments : RelativeUrl → Bool
no_segments u =
    is_empty (or_empty u.path) && is_empty (or_empty u.query) && is_empty (or_empty u.fragment)

unfoldable pub to_string : RelativeUrl → Text
to_string u = or_empty u.path ++ (or_empty u.query ++ or_empty u.fragment)

-- `value.filter(|s| !s.is_empty()).map(check).transpose()?`
abbrev pub checked : (Text → Outcome DidError Text) → Option Text → Outcome DidError (Option Text)
checked check none = ok none
checked check (some s) = if is_empty s then ok none else do t ← check s; ok (some t)

unfoldable pub check_path : Text → Outcome DidError Text
check_path s =
    if starts_with_char b'/' s && all_chars is_char_path s then ok s else err invalid_path

-- `s.strip_prefix(d).unwrap_or(s)`
abbrev pub without_delimiter : ℕ → Text → Text
without_delimiter d s = elim (strip_prefix d s) [ some t ↦ t | none ↦ s ]

unfoldable pub check_query : Text → Outcome DidError Text
check_query s =
    let t = without_delimiter b'?' s in
    if not (is_empty t) && all_chars is_char_query t then ok (b'?' ∷ t) else err invalid_query

unfoldable pub check_fragment : Text → Outcome DidError Text
check_fragment s =
    let t = without_delimiter b'#' s in
    if not (is_empty t) && all_chars is_char_fragment t then ok (b'#' ∷ t) else err invalid_fragment

unfoldable pub set_path : RelativeUrl → Option Text → Outcome DidError RelativeUrl
unfolding check_path
set_path u value = do p ← checked check_path value; ok (record u { path = p })

unfoldable pub set_query : RelativeUrl → Option Text → Outcome DidError RelativeUrl
unfolding check_query
set_query u value = do q ← checked check_query value; ok (record u { query = q })

unfoldable pub set_fragment : RelativeUrl → Option Text → Outcome DidError RelativeUrl
unfolding check_fragment
set_fragment u value = do f ← checked check_fragment value; ok (record u { fragment = f })

-- `and_then(|s| s.strip_prefix(d))`
abbrev pub stripped : ℕ → Option Text → Option Text
stripped d none = none
stripped d (some s) = strip_prefix d s

-- the getters `path`, `query` and `fragment`
abbrev pub path_of : RelativeUrl → Option Text
path_of u = u.path

unfoldable pub query_of : RelativeUrl → Option Text
query_of u = stripped b'?' u.query

unfoldable pub fragment_of : RelativeUrl → Option Text
fragment_of u = stripped b'#' u.fragment

-- `PartialEq`: a missing segment equals an empty one.
unfoldable pub relative_eqb : RelativeUrl → RelativeUrl → Bool
relative_eqb u v =
    or_empty u.path == or_empty v.path
    && or_empty u.query == or_empty v.query
    && or_empty u.fragment == or_empty v.fragment

-- two relative Urls are equal exactly when their segments read alike
relative_eqb_iff :
    (u v : RelativeUrl)
    → (relative_eqb u v ≡ true) ↔ (
        (or_empty u.path ≡ or_empty v.path)
        × (or_empty u.query ≡ or_empty v.query)
        × (or_empty u.fragment ≡ or_empty v.fragment))
unfolding relative_eqb
relative_eqb_iff u v = ground (
  arith,
  text_eqb_iff (or_empty u.path) (or_empty v.path),
  text_eqb_iff (or_empty u.query) (or_empty v.query),
  text_eqb_iff (or_empty u.fragment) (or_empty v.fragment),
)

pub relative_eqb_refl : (u : RelativeUrl) → relative_eqb u u ≡ true
relative_eqb_refl u = (relative_eqb_iff u u).1 (refl, refl, refl)

pub relative_eqb_sym : (u v : RelativeUrl) → relative_eqb u v ≡ true → relative_eqb v u ≡ true
relative_eqb_sym u v h =
    let (p, q, f) = (relative_eqb_iff u v).0 h in (relative_eqb_iff v u).1 (sym p, sym q, sym f)

pub relative_eqb_trans :
    (u v w : RelativeUrl)
    → relative_eqb u v ≡ true
    → relative_eqb v w ≡ true
    → relative_eqb u w ≡ true
relative_eqb_trans u v w h k =
    let (p, q, f) = (relative_eqb_iff u v).0 h in
    let (p', q', f') = (relative_eqb_iff v w).0 k in
    (relative_eqb_iff u w).1 (p ∙ p', q ∙ q', f ∙ f')

-- Equal relative Urls are printed alike, and have the same fragment.
pub to_string-cong : (u v : RelativeUrl) → relative_eqb u v ≡ true → to_string u ≡ to_string v
unfolding to_string
to_string-cong u v h = let (p, q, f) = (relative_eqb_iff u v).0 h in cc

pub fragment_of-or_empty :
    (u : RelativeUrl) → fragment_of u ≡ strip_prefix b'#' (or_empty u.fragment)
unfolding fragment_of strip_prefix
fragment_of-or_empty u = ground arith

pub fragment_of-cong : (u v : RelativeUrl) → relative_eqb u v ≡ true → fragment_of u ≡ fragment_of v
fragment_of-cong u v h =
    let (p, q, f) = (relative_eqb_iff u v).0 h in
    fragment_of-or_empty u ∙ ap (strip_prefix b'#') f ∙ sym (fragment_of-or_empty v)
