-- ===== src/Jose/Types.antt =====
-- The enumerations of identity_jose/src/jwk/{key_type,key_use,key_operation}.rs and of
-- identity_jose/src/jws/algorithm.rs, with their names.
use zk_identity.Prelude.{
  ◌≡◌, refl, Option, none, some, List, [], ◌∷◌, Text, codes, text_eqb, if◌then◌else◌,
}

pub data JwkType : Type 0 where
  ec rsa oct okp : JwkType

-- `JwkType::name`
unfoldable pub type_name : JwkType → Text
type_name ec = codes "EC"
type_name rsa = codes "RSA"
type_name oct = codes "oct"
type_name okp = codes "OKP"

pub data JwkUse : Type 0 where
  signature encryption proof : JwkUse

pub data JwkOperation : Type 0 where
  sign verify encrypt decrypt wrap_key unwrap_key derive_key derive_bits proof_generation
        proof_verification :
      JwkOperation

-- `JwkOperation::invert`
unfoldable pub invert : JwkOperation → JwkOperation
invert sign = verify
invert verify = sign
invert encrypt = decrypt
invert decrypt = encrypt
invert wrap_key = unwrap_key
invert unwrap_key = wrap_key
invert derive_key = derive_key
invert derive_bits = derive_bits
invert proof_generation = proof_verification
invert proof_verification = proof_generation

pub invert-invert : (op : JwkOperation) → invert (invert op) ≡ op
unfolding invert
invert-invert sign = refl
invert-invert verify = refl
invert-invert encrypt = refl
invert-invert decrypt = refl
invert-invert wrap_key = refl
invert-invert unwrap_key = refl
invert-invert derive_key = refl
invert-invert derive_bits = refl
invert-invert proof_generation = refl
invert-invert proof_verification = refl

pub data JwsAlgorithm : Type 0 where
  hs256 hs384 hs512 rs256 rs384 rs512 ps256 ps384 ps512 es256 es384 es512 es256k none_alg eddsa :
      JwsAlgorithm

-- `JwsAlgorithm::name`
unfoldable pub alg_name : JwsAlgorithm → Text
alg_name hs256 = codes "HS256"
alg_name hs384 = codes "HS384"
alg_name hs512 = codes "HS512"
alg_name rs256 = codes "RS256"
alg_name rs384 = codes "RS384"
alg_name rs512 = codes "RS512"
alg_name ps256 = codes "PS256"
alg_name ps384 = codes "PS384"
alg_name ps512 = codes "PS512"
alg_name es256 = codes "ES256"
alg_name es384 = codes "ES384"
alg_name es512 = codes "ES512"
alg_name es256k = codes "ES256K"
alg_name none_alg = codes "none"
alg_name eddsa = codes "EdDSA"

-- the value beside the first text that is equal: a `match` on a `str`
unfoldable pub match_str {ℓ} : {A : Type ℓ} → List (Text × A) → Text → Option A
match_str [] s = none
match_str ((t, a) ∷ arms) s = if text_eqb s t then some a else match_str arms s

-- `JwsAlgorithm::from_str`; `none` is `Error::JwsAlgorithmParsingError`
unfoldable pub alg_from_str : Text → Option JwsAlgorithm
unfolding match_str
alg_from_str = match_str (
    (codes "HS256", hs256)
    ∷ (codes "HS384", hs384)
    ∷ (codes "HS512", hs512)
    ∷ (codes "RS256", rs256)
    ∷ (codes "RS384", rs384)
    ∷ (codes "RS512", rs512)
    ∷ (codes "PS256", ps256)
    ∷ (codes "PS384", ps384)
    ∷ (codes "PS512", ps512)
    ∷ (codes "ES256", es256)
    ∷ (codes "ES384", es384)
    ∷ (codes "ES512", es512)
    ∷ (codes "ES256K", es256k)
    ∷ (codes "none", none_alg)
    ∷ (codes "EdDSA", eddsa)
    ∷ [])

pub alg_from_str-alg_name : (alg : JwsAlgorithm) → alg_from_str (alg_name alg) ≡ some alg
unfolding alg_from_str alg_name text_eqb
alg_from_str-alg_name hs256 = refl
alg_from_str-alg_name hs384 = refl
alg_from_str-alg_name hs512 = refl
alg_from_str-alg_name rs256 = refl
alg_from_str-alg_name rs384 = refl
alg_from_str-alg_name rs512 = refl
alg_from_str-alg_name ps256 = refl
alg_from_str-alg_name ps384 = refl
alg_from_str-alg_name ps512 = refl
alg_from_str-alg_name es256 = refl
alg_from_str-alg_name es384 = refl
alg_from_str-alg_name es512 = refl
alg_from_str-alg_name es256k = refl
alg_from_str-alg_name none_alg = refl
alg_from_str-alg_name eddsa = refl
