-- ===== src/Jose/Jwk.antt =====
-- `Jwk` of identity_jose/src/jwk/key.rs, with its thumbprint's input.
pub mod Public
use zk_identity.Prelude.{
  Bool, true, false, Option, none, some, List, [], ◌∷◌, ◌++◌, map, Text, codes, text_eqb,
  if◌then◌else◌,
}
use zk_identity.Jose.Types.{JwkType, ec, rsa, oct, okp, type_name, JwkUse, JwkOperation, invert}
use zk_identity.Jose.Params.{
  JwkParams, JwkParamsEc, JwkParamsRsa, JwkParamsOct, JwkParamsOkp, ec_params, rsa_params,
  oct_params, okp_params, new_params, params_kty, params_to_public, params_is_public,
  rsa_is_private, is_none,
}
use zk_identity.Prelude.{is_some}

-- an `Url` is its text
pub record Jwk : Type 0 where
  pub kty : JwkType
  pub use_ : Option JwkUse
  pub key_ops : Option (List JwkOperation)
  pub alg : Option Text
  pub kid : Option Text
  pub x5u : Option Text
  pub x5c : Option (List Text)
  pub x5t : Option Text
  pub x5t_s256 : Option Text
  pub params : JwkParams

abbrev pub without_extras : JwkType → JwkParams → Jwk
without_extras k p = record {
  kty = k;
  use_ = none;
  key_ops = none;
  alg = none;
  kid = none;
  x5u = none;
  x5c = none;
  x5t = none;
  x5t_s256 = none;
  params = p;
}

unfoldable pub new : JwkType → Jwk
unfolding new_params
new k = without_extras k (new_params k)

unfoldable pub from_params : JwkParams → Jwk
unfolding params_kty
from_params p = without_extras (params_kty p) p

unfoldable pub set_kty : Jwk → JwkType → Jwk
unfolding new_params
set_kty j value = record j { kty = value; params = new_params value }

unfoldable pub set_params_unchecked : Jwk → JwkParams → Jwk
set_params_unchecked j value = record j { params = value }

-- the pairs of `set_params` that are accepted
abbrev pub fits : JwkType → JwkParams → Bool
fits ec (ec_params p) = true
fits rsa (rsa_params p) = true
fits oct (oct_params p) = true
fits okp (okp_params p) = true
fits _ _ = false

-- `none` is `Error::InvalidParam`
unfoldable pub set_params : Jwk → JwkParams → Option Jwk
unfolding set_params_unchecked
set_params j p = if fits j.kty p then some (set_params_unchecked j p) else none

unfoldable pub try_ec_params : Jwk → Option JwkParamsEc
try_ec_params j = elim j.params [ ec_params p ↦ some p | _ ↦ none ]

unfoldable pub try_rsa_params : Jwk → Option JwkParamsRsa
try_rsa_params j = elim j.params [ rsa_params p ↦ some p | _ ↦ none ]

unfoldable pub try_oct_params : Jwk → Option JwkParamsOct
try_oct_params j = elim j.params [ oct_params p ↦ some p | _ ↦ none ]

unfoldable pub try_okp_params : Jwk → Option JwkParamsOkp
try_okp_params j = elim j.params [ okp_params p ↦ some p | _ ↦ none ]

abbrev member : Text → Text → Text
member name value = codes "\"" ++ (name ++ (codes "\":\"" ++ (value ++ codes "\"")))

abbrev object : List Text → Text
object [] = codes "}"
object (m ∷ []) = m ++ codes "}"
object (m ∷ n ∷ ms) = m ++ (codes "," ++ object (n ∷ ms))

-- `thumbprint_hash_input`
abbrev pub hash_input : Text → JwkParams → Text
hash_input k (ec_params p) =
    codes "{"
    ++ object (
        member (codes "crv") p.crv
        ∷ member (codes "kty") k
        ∷ member (codes "x") p.x
        ∷ member (codes "y") p.y
        ∷ [])
hash_input k (rsa_params p) =
    codes "{"
    ++ object (member (codes "e") p.e ∷ member (codes "kty") k ∷ member (codes "n") p.n ∷ [])
hash_input k (oct_params p) =
    codes "{" ++ object (member (codes "k") p.k ∷ member (codes "kty") k ∷ [])
hash_input k (okp_params p) =
    codes "{"
    ++ object (member (codes "crv") p.crv ∷ member (codes "kty") k ∷ member (codes "x") p.x ∷ [])

unfoldable pub thumbprint_hash_input : Jwk → Text
unfolding type_name
thumbprint_hash_input j = hash_input (type_name j.kty) j.params

-- `false` is `Error::InvalidClaim`
unfoldable pub check_alg : Jwk → Text → Bool
check_alg j expected = elim j.alg [ some value ↦ text_eqb value expected | none ↦ true ]

unfoldable pub is_public : Jwk → Bool
unfolding params_is_public
is_public j = params_is_public j.params

-- the `match` of `is_private`
unfoldable pub params_is_private : JwkParams → Bool
unfolding rsa_is_private
params_is_private (ec_params p) = is_some p.d
params_is_private (rsa_params p) = rsa_is_private p
params_is_private (oct_params p) = true
params_is_private (okp_params p) = is_some p.d

unfoldable pub is_private : Jwk → Bool
unfolding params_is_private
is_private j = params_is_private j.params

-- the four `if let Some(value)` of `to_public`: each sets a field that was unset
abbrev with_public_extras : Jwk → Jwk → Jwk
with_public_extras j public = record public {
  use_ = j.use_;
  key_ops = elim j.key_ops [ none ↦ none | some ops ↦ some (map invert ops) ];
  alg = j.alg;
  kid = j.kid;
}

unfoldable pub to_public : Jwk → Option Jwk
unfolding params_to_public from_params invert
to_public j = elim (params_to_public j.params) [
  | none ↦ none
  | some p ↦ some (with_public_extras j (from_params p))
]
