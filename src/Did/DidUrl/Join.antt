-- ===== src/Did/DidUrl/Join.antt =====
-- `DIDUrl::parse`, `join` and `from_base_did_url` of identity_did/src/did_url.rs over the answers of
-- the crate did_url_parser.
use zk_identity.Prelude.{
  ◌≡◌, ◌&&◌, not, sym, Option, none, some, [], ◌∷◌, Text, if◌then◌else◌, arith, ap,
}
use zk_identity.Prelude.Outcome.{Outcome, ok, err, ◌>>=◌, >>=-eq-ok, ok-injective}
use zk_identity.Did.Chars.{starts_with_char}
use zk_identity.Did.CoreDid.{BaseDidUrl}
use zk_identity.Did.RelativeUrl
use zk_identity.Did.RelativeUrl.{
  RelativeUrl, DidError, invalid_path, other, set_path, set_query, set_fragment,
}
use zk_identity.Did.RelativeUrl.Setters.{IsValid, SetterCall, calls, calls-IsValid}
use zk_identity.Did.DidUrl.{DidUrl, to_string}

-- The crate: `parse`, `join`, and the text of a parsed DID Url whose path, query and fragment were
-- cleared.
pub record Parser : Type 0 where
  pub parse : Text → Option BaseDidUrl
  pub join : BaseDidUrl → Text → Option BaseDidUrl
  pub cleared_text : BaseDidUrl → Text

-- an error of the crate ends the chain
abbrev pub parsed : Option BaseDidUrl → Outcome DidError BaseDidUrl
parsed none = err other
parsed (some b) = ok b

parsed-eq-ok : (o : Option BaseDidUrl) {b : BaseDidUrl} → parsed o ≡ ok b → o ≡ some b
parsed-eq-ok none h = absurd (cc h)
parsed-eq-ok (some b) h = ap some (ok-injective h)

module _ (p : Parser) where
  unfoldable pub from_base_did_url : BaseDidUrl → Outcome DidError DidUrl
  from_base_did_url b = do
    with_path ← set_path RelativeUrl.new (some b.path)
    with_query ← set_query with_path b.query
    url ← set_fragment with_query b.fragment
    ok (record { did = record { as_str = p.cleared_text b }; url = url })

  -- `DIDUrl::parse`
  unfoldable pub parse_url : Text → Outcome DidError DidUrl
  unfolding from_base_did_url
  parse_url input = do b ← parsed (p.parse input); from_base_did_url b

  -- the last two statements of `join`
  unfoldable pub join_parsed : DidUrl → Text → Outcome DidError DidUrl
  unfolding from_base_did_url
  join_parsed u segment = do
    b ← parsed (p.parse (to_string u))
    c ← parsed (p.join b segment)
    from_base_did_url c

  unfoldable pub join : DidUrl → Text → Outcome DidError DidUrl
  unfolding join_parsed
  join u segment =
      if not (starts_with_char b'/' segment)
        && (not (starts_with_char b'?' segment) && not (starts_with_char b'#' segment))
      then err invalid_path
      else join_parsed u segment

  from_base_did_url-calls :
      (b : BaseDidUrl) {u : DidUrl}
      → from_base_did_url b ≡ ok u
      → (calls RelativeUrl.new (
            SetterCall.path (some b.path)
            ∷ SetterCall.query b.query
            ∷ SetterCall.fragment b.fragment
            ∷ [])
          ≡ ok u.url)
        × (u.did.as_str ≡ p.cleared_text b)
  unfolding from_base_did_url calls
  from_base_did_url-calls b h =
      let (v, ev, h₁) = >>=-eq-ok (set_path RelativeUrl.new (some b.path)) _ h in
      let (w, ew, h₂) = >>=-eq-ok (set_query v b.query) _ h₁ in
      let (x, ex, h₃) = >>=-eq-ok (set_fragment w b.fragment) _ h₂ in
      let same = ok-injective h₃ in
      (
        rw (ev, ew, ex) (ap (λ (y : DidUrl). ok y.url) same),
        ap (λ (y : DidUrl). y.did.as_str) (sym same),
      )

  -- What parsing or joining accepts has valid segments, and the DID that the crate answers.
  pub from_base_did_url-IsValid :
      (b : BaseDidUrl) {u : DidUrl}
      → from_base_did_url b ≡ ok u
      → IsValid u.url × (u.did.as_str ≡ p.cleared_text b)
  from_base_did_url-IsValid b h = let (c, d) = from_base_did_url-calls b h in (calls-IsValid _ c, d)

  -- what the crate answers to the steps of a join that succeeds
  pub record JoinSteps (u : DidUrl) (segment : Text) (v : DidUrl) : Type 0 where
    pub base : BaseDidUrl
    pub joined : BaseDidUrl
    pub parsed_base : p.parse (to_string u) ≡ some base
    pub joined_base : p.join base segment ≡ some joined
    pub converted : from_base_did_url joined ≡ ok v

  pub join-steps :
      (u : DidUrl) (segment : Text) {v : DidUrl} → join u segment ≡ ok v → JoinSteps u segment v
  unfolding join join_parsed
  join-steps u segment {v} h =
      let chain : join_parsed u segment ≡ ok v = ground arith in
      let (b, eb, h₁) = >>=-eq-ok (parsed (p.parse (to_string u))) _ chain in
      let (c, ec, h₂) = >>=-eq-ok (parsed (p.join b segment)) _ h₁ in
      record {
        base = b;
        joined = c;
        parsed_base = parsed-eq-ok (p.parse (to_string u)) eb;
        joined_base = parsed-eq-ok (p.join b segment) ec;
        converted = h₂;
      }

  pub join-parts :
      (u : DidUrl) (segment : Text) {v : DidUrl}
      → join u segment ≡ ok v
      → (b : BaseDidUrl) × (from_base_did_url b ≡ ok v)
  join-parts u segment h = let steps = join-steps u segment h in (steps.joined, steps.converted)

  -- Whatever text is joined to a DID Url, the result has valid segments.
  pub join-IsValid :
      (u : DidUrl) (segment : Text) {v : DidUrl} → join u segment ≡ ok v → IsValid v.url
  join-IsValid u segment h =
      let (b, e) = join-parts u segment h in (from_base_did_url-IsValid b e).0
