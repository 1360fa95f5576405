-- ===== src/Document/Method/Material/Identified.antt =====
-- The method that `new_from_jwk` of method.rs makes: its identifier is the DID with a fragment.
use mathlib.Core.List.{append-nil}
use zk_identity.Prelude.{
  ◌≡◌, ◌∙◌, ap, sym, refl, true, false, Option, none, some, Text, ◌∷◌, [], if◌then◌else◌, or_else,
  is_some, arith, codes,
}
use mathlib.Core.Option.{some-injective}
use zk_identity.Prelude.Outcome.{ok, map_err, >>=-eq-ok, ok-injective}
use zk_identity.Did.Chars.{is_empty, starts_with_char, strip_prefix}
use zk_identity.Did.CoreDid.{BaseDidUrl}
use zk_identity.Did.RelativeUrl
use zk_identity.Did.RelativeUrl.{
  RelativeUrl, without_delimiter, set_path, set_query, set_fragment, check_fragment, checked,
}
use zk_identity.Did.DidUrl
use zk_identity.Did.DidUrl.{CoreDid, DidUrl}
use zk_identity.Did.DidUrl.Join
use zk_identity.Did.DidUrl.Join.{Parser, from_base_did_url, join-steps}
use zk_identity.Jose.Jwk.{Jwk, is_public}
use zk_identity.Document.Method.{VerificationMethod}
use zk_identity.Document.Method.Material.{
  Material, public_key_jwk, did_url_construction_error, required, with_hash, new_from_jwk,
}
use zk_identity.Document.Method.Material.Public.{map_err-eq-ok, required-eq-ok, jwk_method}

-- a fragment without its `#`
abbrev pub IsName : Text → Type 0
IsName f = (is_empty f ≡ false) × (starts_with_char b'#' f ≡ false)

-- What the crate does: joining a fragment replaces the fragment and keeps the rest, and a text that
-- has no path, query or fragment is printed as it was.
pub record IsResolving (p : Parser) : Type 0 where
  pub keeps :
      (b : BaseDidUrl) (f : Text) {c : BaseDidUrl}
      → IsName f
      → p.join b (b'#' ∷ f) ≡ some c
      → (c.path ≡ b.path)
        × (c.query ≡ b.query)
        × (c.fragment ≡ some f)
        × (p.cleared_text c ≡ p.cleared_text b)
  pub printed :
      (t : Text) {b : BaseDidUrl}
      → p.parse t ≡ some b
      → b.path ≡ []
      → b.query ≡ none
      → b.fragment ≡ none
      → p.cleared_text b ≡ t

-- The text of the DID is a DID, and no longer DID Url.
abbrev pub IsPlainDid : Parser → CoreDid → Type 0
IsPlainDid p did =
    (b : BaseDidUrl)
    → p.parse did.as_str ≡ some b
    → (b.path ≡ []) × (b.query ≡ none) × (b.fragment ≡ none)

-- the name that a fragment or a key id gives
abbrev pub name_of : Text → Text
name_of given = without_delimiter b'#' given

with_hash-name : (given : Text) → with_hash given ≡ b'#' ∷ name_of given
unfolding with_hash starts_with_char strip_prefix
with_hash-name [] = refl
with_hash-name (c ∷ s) = ground arith

no_delimiter : (f : Text) → starts_with_char b'#' f ≡ false → without_delimiter b'#' f ≡ f
unfolding starts_with_char strip_prefix
no_delimiter [] h = refl
no_delimiter (c ∷ s) h = ground arith

check_fragment-name : (f : Text) {t : Text} → IsName f → check_fragment f ≡ ok t → t ≡ b'#' ∷ f
unfolding check_fragment
check_fragment-name f n h = ground (arith, no_delimiter f n.1)

checked-name :
    (f : Text) {g : Option Text}
    → IsName f
    → checked check_fragment (some f) ≡ ok g
    → g ≡ some (b'#' ∷ f)
checked-name f n h =
    let (t, e, h₁) = >>=-eq-ok (check_fragment f) _ (rw n.0 at h) in
    sym (ok-injective h₁) ∙ ap some (check_fragment-name f n e)

set_fragment-name :
    (u : RelativeUrl) (f : Text) {w : RelativeUrl}
    → IsName f
    → set_fragment u (some f) ≡ ok w
    → w ≡ record u { fragment = some (b'#' ∷ f) }
unfolding set_fragment
set_fragment-name u f n h =
    let (g, e, h₁) = >>=-eq-ok (checked check_fragment (some f)) _ h in
    sym (ok-injective h₁) ∙ ap (λ (o : Option Text). record u { fragment = o }) (checked-name f n e)

abbrev pub fragment_url : Text → RelativeUrl
fragment_url f = record { path = none; query = none; fragment = some (b'#' ∷ f) }

no_path : set_path RelativeUrl.new (some []) ≡ ok RelativeUrl.new
unfolding set_path
no_path = refl

no_query : set_query RelativeUrl.new none ≡ ok RelativeUrl.new
unfolding set_query
no_query = refl

converted-name :
    (p : Parser) (c : BaseDidUrl) (f : Text) {v : DidUrl}
    → IsName f
    → c.path ≡ []
    → c.query ≡ none
    → c.fragment ≡ some f
    → from_base_did_url p c ≡ ok v
    → v ≡ record { did = record { as_str = p.cleared_text c }; url = fragment_url f }
unfolding from_base_did_url
converted-name p c f n path query fragment h =
    let (u, e, h₁) = >>=-eq-ok (set_path RelativeUrl.new (some c.path)) _ h in
    let pathless : u ≡ RelativeUrl.new =
      ok-injective (sym e ∙ ap (λ t. set_path RelativeUrl.new (some t)) path ∙ no_path) in
    let (w, e₁, h₂) = >>=-eq-ok (set_query u c.query) _ h₁ in
    let plain : w ≡ RelativeUrl.new = ok-injective (
      sym e₁
      ∙ ap (λ u. set_query u c.query) pathless
      ∙ ap (set_query RelativeUrl.new) query
      ∙ no_query) in
    let (url, e₂, h₃) = >>=-eq-ok (set_fragment w c.fragment) _ h₂ in
    let named : url ≡ fragment_url f = set_fragment-name RelativeUrl.new f n (
      sym (ap (λ w. set_fragment w c.fragment) plain ∙ ap (set_fragment RelativeUrl.new) fragment)
      ∙ e₂) in
    sym (ok-injective h₃)
    ∙ ap (λ (url : RelativeUrl). record { did = record { as_str = p.cleared_text c }; url = url })
        named

to_string-new : (did : CoreDid) → DidUrl.to_string (DidUrl.new did none) ≡ did.as_str
unfolding DidUrl.to_string RelativeUrl.to_string
to_string-new did = append-nil did.as_str

-- A name that is joined to a DID gives the DID with that fragment.
join-name :
    (p : Parser) (did : CoreDid) (f : Text) {v : DidUrl}
    → IsResolving p
    → IsPlainDid p did
    → IsName f
    → Join.join p (DidUrl.new did none) (b'#' ∷ f) ≡ ok v
    → v ≡ record { did = did; url = fragment_url f }
join-name p did f resolving plain n h =
    let steps = join-steps p (DidUrl.new did none) (b'#' ∷ f) h in
    let parsed = ap p.parse (sym (to_string-new did)) ∙ steps.parsed_base in
    let (path, query, fragment) = plain steps.base parsed in
    let (path', query', fragment', text) = resolving.keeps steps.base f n steps.joined_base in
    let same = text ∙ resolving.printed did.as_str parsed path query fragment in
    converted-name p steps.joined f n (path' ∙ path) (query' ∙ query) fragment' steps.converted
    ∙ ap (λ (t : Text). record { did = record { as_str = t }; url = fragment_url f }) same

or_else-if : (a b : Option Text) → or_else a b ≡ (if is_some a then a else b)
or_else-if none b = refl
or_else-if (some t) b = refl

module _ {X : Type 0} (x : Material X) where
  -- Let the parser replace the fragment when one is joined and print a DID as it was, let the text of
  -- the DID have no path, query or fragment, and let the name be the fragment that is given or else
  -- the id of the key, not empty and with at most one `#`, at its start. A method that `new_from_jwk`
  -- makes has the DID with that name as its fragment for identifier, the DID as its controller, the
  -- type `JsonWebKey2020`, and the key, which is public, as its data.
  pub new_from_jwk_lem :
      (p : Parser) (did : CoreDid) (key : Jwk) (fragment : Option Text) (name : Text)
      {m : VerificationMethod X}
      → IsResolving p
      → IsPlainDid p did
      → (if is_some fragment then fragment else key.kid) ≡ some name
      → IsName (name_of name)
      → new_from_jwk x p did key fragment ≡ ok m
      → (m.id ≡ record { did = did; url = fragment_url (name_of name) })
        × (m.type_ ≡ codes "JsonWebKey2020")
        × (m.controller ≡ did)
        × (x.data_of m.material ≡ public_key_jwk key)
        × (is_public key ≡ true)
  unfolding new_from_jwk
  new_from_jwk_lem p did key fragment name {m} resolving plain chosen n h =
      let (given, eg, h₁) = >>=-eq-ok (required (or_else fragment key.kid)) _ h in
      let url = Join.join p (DidUrl.new did none) (with_hash given) in
      let (id, ei, h₂) = >>=-eq-ok (map_err did_url_construction_error url) _ h₁ in
      let (same, public, material, controller, _, type_) = jwk_method x did key id h₂ in
      let e : given ≡ name = some-injective _ _ (
        sym (required-eq-ok (or_else fragment key.kid) eg)
        ∙ or_else-if fragment key.kid
        ∙ chosen) in
      let hash = ap with_hash e ∙ with_hash-name name in
      let joined =
        sym (ap (Join.join p (DidUrl.new did none)) hash)
        ∙ map_err-eq-ok did_url_construction_error url ei in
      (
        sym same ∙ join-name p did (name_of name) resolving plain n joined,
        type_,
        controller,
        material,
        public,
      )
