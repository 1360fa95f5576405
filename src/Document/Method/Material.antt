-- ===== src/Document/Method/Material.antt =====
-- The construction of verification methods: `MethodData`, `VerificationMethod::from_builder` and
-- `new_from_jwk` of identity_verification/src/verification_method/{material,method}.rs.
pub mod Public
pub mod Identified
use zk_identity.Prelude.{
  ◌≡◌, refl, ◌∙◌, ap, subst, Bool, true, false, not, Option, none, some, List, [], ◌∷◌, Text, codes,
  if◌then◌else◌, or_else, is_some, arith, Bool-cases, inl, inr, Option-cases,
}
use zk_identity.Prelude.Outcome.{Outcome, ok, err, ◌>>=◌, map_err, >>=-eq-ok, ok-injective}
use zk_identity.Did.Chars.{is_empty, or_empty, starts_with_char}
use zk_identity.Did.RelativeUrl.{DidError}
use zk_identity.Did.DidUrl
use zk_identity.Did.DidUrl.{CoreDid, DidUrl}
use zk_identity.Did.DidUrl.Join
use zk_identity.Did.DidUrl.Join.{Parser}
use zk_identity.Jose.Jwk.{Jwk, is_public}
use zk_identity.Document.Method.{VerificationMethod}

-- a JSON value is its text
pub data MethodData : Type 0 where
  public_key_multibase public_key_base58 : Text → MethodData
  public_key_jwk : Jwk → MethodData
  custom : Text → Text → MethodData

-- How the data of a method stand in its material; `of_data` has no further properties.
pub record Material (X : Type 0) : Type 0 where
  pub data_of : X → MethodData
  pub of_data : MethodData → X
  pub data_of-of_data : (m : MethodData) → data_of (of_data m) ≡ m

-- `identity_verification::Error`, the variants that a construction returns
pub data MethodError : Type 0 where
  invalid_method private_key_material_exposed missing_id_fragment : MethodError
  did_url_construction_error : DidError → MethodError

-- `MethodBuilder` with no properties
pub record MethodBuilder : Type 0 where
  pub id : Option DidUrl
  pub controller : Option CoreDid
  pub type_ : Option Text
  pub material : Option MethodData

abbrev pub required : {A : Type 0} → Option A → Outcome MethodError A
required none = err invalid_method
required (some a) = ok a

-- `PublicKeyJwk` data that are not public
unfoldable pub exposes : Option MethodData → Bool
exposes (some (public_key_jwk jwk)) = not (is_public jwk)
exposes (some (public_key_multibase s)) = false
exposes (some (public_key_base58 s)) = false
exposes (some (custom n v)) = false
exposes none = false

-- the fragment with its `#`, and the builder of `new_from_jwk`
unfoldable pub with_hash : Text → Text
with_hash given = if starts_with_char b'#' given then given else b'#' ∷ given

abbrev pub jwk_builder : CoreDid → Jwk → DidUrl → MethodBuilder
jwk_builder did key id = record {
  id = some id;
  controller = some did;
  type_ = some (codes "JsonWebKey2020");
  material = some (public_key_jwk key);
}

module _ {X : Type 0} (x : Material X) where
  -- the record at the end of `from_builder`
  unfoldable pub assemble : MethodBuilder → DidUrl → Outcome MethodError (VerificationMethod X)
  assemble builder id = do
    controller ← required builder.controller
    type_ ← required builder.type_
    material ← required builder.material
    ok (record { id = id; controller = controller; type_ = type_; material = x.of_data material })

  unfoldable pub from_builder : MethodBuilder → Outcome MethodError (VerificationMethod X)
  unfolding assemble exposes
  from_builder builder = do
    id ← required builder.id
    if is_empty (or_empty (DidUrl.fragment id))
        then err invalid_method
        else if exposes builder.material
        then err private_key_material_exposed
        else assemble builder id

  unfoldable pub new_from_jwk :
      Parser → CoreDid → Jwk → Option Text → Outcome MethodError (VerificationMethod X)
  unfolding from_builder with_hash
  new_from_jwk p did key fragment = do
    given_fragment ← required (or_else fragment key.kid)
    id ←
        map_err did_url_construction_error
          (Join.join p (DidUrl.new did none) (with_hash given_fragment))
    from_builder (jwk_builder did key id)
