-- ===== src/Document/Method/Material/Public.antt =====
-- What `VerificationMethod::from_builder` and `new_from_jwk` of method.rs accept.
use mathlib.Core.Option.{some-injective}
use zk_identity.Prelude.{
  subst, ◌≡◌, ◌∙◌, ap, sym, true, false, Option, none, some, Text, codes, if◌then◌else◌, or_else,
  arith,
}
use zk_identity.Prelude.Outcome.{Outcome, ok, err, panic, map_err, >>=-eq-ok, ok-injective}
use zk_identity.Did.Chars.{is_empty, or_empty}
use zk_identity.Did.CoreDid.{BaseDidUrl}
use zk_identity.Did.RelativeUrl.Setters.{IsValid}
use zk_identity.Did.DidUrl
use zk_identity.Did.DidUrl.{CoreDid, DidUrl}
use zk_identity.Did.DidUrl.Join
use zk_identity.Did.DidUrl.Join.{Parser, from_base_did_url, join-parts, from_base_did_url-IsValid}
use zk_identity.Jose.Jwk.{Jwk, is_public}
use zk_identity.Document.Method.{VerificationMethod}
use zk_identity.Document.Method.Material.{
  Material, MethodData, public_key_jwk, MethodBuilder, did_url_construction_error, invalid_method,
  private_key_material_exposed, required, exposes, with_hash, jwk_builder, assemble, from_builder,
  new_from_jwk,
}

pub map_err-eq-ok :
    {E F A : Type 0} (f : E → F) (o : Outcome E A) {a : A} → map_err f o ≡ ok a → o ≡ ok a
map_err-eq-ok f (ok b) h = ap ok (ok-injective h)
map_err-eq-ok f (err e) h = absurd (cc h)
map_err-eq-ok f panic h = absurd (cc h)

pub required-eq-ok : {A : Type 0} (o : Option A) {a : A} → required o ≡ ok a → o ≡ some a
required-eq-ok none h = absurd (cc h)
required-eq-ok (some b) h = ap some (ok-injective h)

module _ {X : Type 0} (x : Material X) where
  -- a method from the parts of a builder, with an identifier that has a fragment
  pub record IsBuilt (b : MethodBuilder) (m : VerificationMethod X) : Type 0 where
    pub id : b.id ≡ some m.id
    pub has_fragment : is_empty (or_empty (DidUrl.fragment m.id)) ≡ false
    pub hidden : exposes b.material ≡ false
    pub controller : b.controller ≡ some m.controller
    pub type_ : b.type_ ≡ some m.type_
    pub material : (d : MethodData) × (b.material ≡ some d) × (x.data_of m.material ≡ d)

  assemble-parts :
      (b : MethodBuilder) (id : DidUrl) {m : VerificationMethod X}
      → assemble x b id ≡ ok m
      → (m.id ≡ id)
        × (b.controller ≡ some m.controller)
        × (b.type_ ≡ some m.type_)
        × ((d : MethodData) × (b.material ≡ some d) × (x.data_of m.material ≡ d))
  unfolding assemble
  assemble-parts b id {m} h =
      let (c, ec, h₁) = >>=-eq-ok (required b.controller) _ h in
      let (t, et, h₂) = >>=-eq-ok (required b.type_) _ h₁ in
      let (d, ed, h₃) = >>=-eq-ok (required b.material) _ h₂ in
      let same = ok-injective h₃ in
      (
        ap (λ (n : VerificationMethod X). n.id) (sym same),
        required-eq-ok b.controller ec ∙ ap (λ (n : VerificationMethod X). some n.controller) same,
        required-eq-ok b.type_ et ∙ ap (λ (n : VerificationMethod X). some n.type_) same,
        (
          d,
          required-eq-ok b.material ed,
          ap (λ (n : VerificationMethod X). x.data_of n.material) (sym same) ∙ x.data_of-of_data d,
        ),
      )

  pub from_builder-IsBuilt :
      (b : MethodBuilder) {m : VerificationMethod X} → from_builder x b ≡ ok m → IsBuilt b m
  unfolding from_builder
  from_builder-IsBuilt b {m} h =
      let (id, eid, h₁) = >>=-eq-ok (required b.id) _ h in
      let (fragment, hidden, chain) = guards id h₁ in
      let (same, controller, type_, material) = assemble-parts b id chain in
      record {
        id = required-eq-ok b.id eid ∙ ap some (sym same);
        has_fragment = rw same fragment;
        hidden = hidden;
        controller = controller;
        type_ = type_;
        material = material;
      }
    where
      guards :
          (id : DidUrl)
          → (if is_empty (or_empty (DidUrl.fragment id))
              then err invalid_method
              else if exposes b.material
              then err private_key_material_exposed
              else assemble x b id)
            ≡ ok m
          → (is_empty (or_empty (DidUrl.fragment id)) ≡ false)
            × (exposes b.material ≡ false)
            × (assemble x b id ≡ ok m)
      guards id h = ground arith

  pub jwk_method :
      (did : CoreDid) (key : Jwk) (id : DidUrl) {m : VerificationMethod X}
      → from_builder x (jwk_builder did key id) ≡ ok m
      → (id ≡ m.id)
        × (is_public key ≡ true)
        × (x.data_of m.material ≡ public_key_jwk key)
        × (m.controller ≡ did)
        × (is_empty (or_empty (DidUrl.fragment m.id)) ≡ false)
        × (m.type_ ≡ codes "JsonWebKey2020")
  unfolding exposes
  jwk_method did key id {m} h =
      let built = from_builder-IsBuilt (jwk_builder did key id) h in
      let (d, e, k) = built.material in
      (
        some-injective _ _ built.id,
        ground (arith, built.hidden),
        k ∙ sym (some-injective _ _ e),
        sym (some-injective _ _ built.controller),
        built.has_fragment,
        sym (some-injective _ _ built.type_),
      )

  -- What `new_from_jwk` makes, whatever the parser answers: a method of the DID with that key, which
  -- has no private component, under an identifier with valid segments and a fragment; the DID of the
  -- identifier is one that the parser answers.
  pub new_from_jwk-parts :
      (p : Parser) (did : CoreDid) (key : Jwk) (fragment : Option Text) {m : VerificationMethod X}
      → new_from_jwk x p did key fragment ≡ ok m
      → (is_public key ≡ true)
        × (x.data_of m.material ≡ public_key_jwk key)
        × (m.controller ≡ did)
        × IsValid m.id.url
        × (is_empty (or_empty (DidUrl.fragment m.id)) ≡ false)
        × ((b : BaseDidUrl) × (m.id.did.as_str ≡ p.cleared_text b))
  unfolding new_from_jwk
  new_from_jwk-parts p did key fragment {m} h =
      let (given, eg, h₁) = >>=-eq-ok (required (or_else fragment key.kid)) _ h in
      let url = Join.join p (DidUrl.new did none) (with_hash given) in
      let (id, ei, h₂) = >>=-eq-ok (map_err did_url_construction_error url) _ h₁ in
      let (b, eb) =
        join-parts p (DidUrl.new did none) (with_hash given)
          (map_err-eq-ok did_url_construction_error url ei) in
      let (valid, text) = from_base_did_url-IsValid p b eb in
      let (same, public, material, controller, fragment, _) = jwk_method did key id h₂ in
      (
        public,
        material,
        controller,
        subst (λ (u : DidUrl). IsValid u.url) same valid,
        fragment,
        (b, subst (λ (u : DidUrl). u.did.as_str ≡ p.cleared_text b) same text),
      )
