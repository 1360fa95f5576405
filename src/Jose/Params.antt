-- ===== src/Jose/Params.antt =====
-- `JwkParams` of identity_jose/src/jwk/key_params.rs: the type-specific parameters of a key.
use zk_identity.Prelude.{
  Bool, false, Option, none, some, List, [], ◌∷◌, ◌&&◌, not, is_some, Text, codes,
}
use zk_identity.Jose.Types.{JwkType, ec, rsa, oct, okp, match_str}

pub record JwkParamsEc : Type 0 where
  pub crv : Text
  pub x : Text
  pub y : Text
  pub d : Option Text

pub record JwkParamsRsaPrime : Type 0 where
  pub r : Text
  pub d : Text
  pub t : Text

pub record JwkParamsRsa : Type 0 where
  pub n : Text
  pub e : Text
  pub d : Option Text
  pub p : Option Text
  pub q : Option Text
  pub dp : Option Text
  pub dq : Option Text
  pub qi : Option Text
  pub oth : Option (List JwkParamsRsaPrime)

pub record JwkParamsOct : Type 0 where
  pub k : Text

pub record JwkParamsOkp : Type 0 where
  pub crv : Text
  pub x : Text
  pub d : Option Text

pub data JwkParams : Type 0 where
  ec_params : JwkParamsEc → JwkParams
  rsa_params : JwkParamsRsa → JwkParams
  oct_params : JwkParamsOct → JwkParams
  okp_params : JwkParamsOkp → JwkParams

unfoldable pub new_params : JwkType → JwkParams
new_params ec = ec_params (record { crv = []; x = []; y = []; d = none })
new_params rsa = rsa_params (record {
  n = [];
  e = [];
  d = none;
  p = none;
  q = none;
  dp = none;
  dq = none;
  qi = none;
  oth = none;
})
new_params oct = oct_params (record { k = [] })
new_params okp = okp_params (record { crv = []; x = []; d = none })

unfoldable pub params_kty : JwkParams → JwkType
params_kty (ec_params inner) = ec
params_kty (rsa_params inner) = rsa
params_kty (oct_params inner) = oct
params_kty (okp_params inner) = okp

-- the `to_public` of each kind of parameters
unfoldable pub ec_to_public : JwkParamsEc → JwkParamsEc
ec_to_public p = record { crv = p.crv; x = p.x; y = p.y; d = none }

unfoldable pub rsa_to_public : JwkParamsRsa → JwkParamsRsa
rsa_to_public p = record {
  n = p.n;
  e = p.e;
  d = none;
  p = none;
  q = none;
  dp = none;
  dq = none;
  qi = none;
  oth = none;
}

unfoldable pub okp_to_public : JwkParamsOkp → JwkParamsOkp
okp_to_public p = record { crv = p.crv; x = p.x; d = none }

unfoldable pub params_to_public : JwkParams → Option JwkParams
unfolding ec_to_public rsa_to_public okp_to_public
params_to_public (okp_params inner) = some (okp_params (okp_to_public inner))
params_to_public (ec_params inner) = some (ec_params (ec_to_public inner))
params_to_public (rsa_params inner) = some (rsa_params (rsa_to_public inner))
params_to_public (oct_params inner) = none

-- `is_none`
abbrev pub is_none {ℓ} : {A : Type ℓ} → Option A → Bool
is_none o = not (is_some o)

unfoldable pub rsa_is_public : JwkParamsRsa → Bool
rsa_is_public r =
    is_none r.d
    && (is_none r.p
        && (is_none r.q && (is_none r.dp && (is_none r.dq && (is_none r.qi && is_none r.oth)))))

unfoldable pub rsa_is_private : JwkParamsRsa → Bool
rsa_is_private r =
    is_some r.d
    && (is_some r.p && (is_some r.q && (is_some r.dp && (is_some r.dq && is_some r.qi))))

unfoldable pub params_is_public : JwkParams → Bool
unfolding rsa_is_public
params_is_public (okp_params value) = is_none value.d
params_is_public (ec_params value) = is_none value.d
params_is_public (rsa_params value) = rsa_is_public value
params_is_public (oct_params value) = false

pub data EcCurve : Type 0 where
  p256 p384 p521 secp256k1 : EcCurve

pub data BlsCurve : Type 0 where
  bls12381g1 bls12381g2 bls48581g1 bls48581g2 : BlsCurve

pub data EdCurve : Type 0 where
  ed25519 ed448 : EdCurve

pub data EcxCurve : Type 0 where
  x25519 x448 : EcxCurve

-- `none` is `Error::KeyError`
unfoldable pub try_ec_curve : JwkParamsEc → Option EcCurve
unfolding match_str
try_ec_curve p =
    match_str
      ((codes "P-256", p256)
        ∷ (codes "P-384", p384)
        ∷ (codes "P-521", p521)
        ∷ (codes "secp256k1", secp256k1)
        ∷ [])
      p.crv

unfoldable pub try_bls_curve : JwkParamsEc → Option BlsCurve
unfolding match_str
try_bls_curve p =
    match_str
      ((codes "BLS12381G1", bls12381g1)
        ∷ (codes "BLS12381G2", bls12381g2)
        ∷ (codes "BLS48581G1", bls48581g1)
        ∷ (codes "BLS48581G2", bls48581g2)
        ∷ [])
      p.crv

unfoldable pub try_ed_curve : JwkParamsOkp → Option EdCurve
unfolding match_str
try_ed_curve p = match_str ((codes "Ed25519", ed25519) ∷ (codes "Ed448", ed448) ∷ []) p.crv

unfoldable pub try_ecx_curve : JwkParamsOkp → Option EcxCurve
unfolding match_str
try_ecx_curve p = match_str ((codes "X25519", x25519) ∷ (codes "X448", x448) ∷ []) p.crv
