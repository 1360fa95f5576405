-- ===== src/Jose/Jwk/Public.antt =====
-- `to_public`, `is_public`, `is_private` and the thumbprint of identity_jose/src/jwk/key.rs.
use zk_identity.Prelude.{
  ◌≡◌, refl, true, false, some, arith, subst, ◌∙◌, Text, Option-cases, inl, inr, is_some, ◌↔◌,
}
use mathlib.Core.Option.{some-injective}
use zk_identity.Jose.Types.{JwkType, type_name}
use zk_identity.Jose.Params.{
  JwkParams, ec_params, rsa_params, oct_params, okp_params, params_kty, params_to_public,
  params_is_public,
}
use zk_identity.Jose.Jwk.{
  Jwk, fits, set_params, to_public, is_public, is_private, thumbprint_hash_input, hash_input,
  params_is_private,
}

-- what the setters keep: parameters of the key's type
pub record IsTyped (j : Jwk) : Type 0 where
  pub typed : params_kty j.params ≡ j.kty

abbrev PublicPart : JwkParams → JwkParams → Type 0
PublicPart p q =
    (params_is_public q ≡ true)
    × (params_is_private q ≡ false)
    × ((k : Text) → hash_input k q ≡ hash_input k p)
    × (params_kty q ≡ params_kty p)

public_params : (p : JwkParams) {q : JwkParams} → params_to_public p ≡ some q → PublicPart p q
unfolding params_to_public params_is_public params_is_private params_kty
public_params (ec_params p) h =
    subst (PublicPart (ec_params p)) (some-injective _ _ h) (refl, refl, λ k. refl, refl)
public_params (rsa_params p) h =
    subst (PublicPart (rsa_params p)) (some-injective _ _ h) (refl, refl, λ k. refl, refl)
public_params (oct_params p) h = absurd (cc h)
public_params (okp_params p) h =
    subst (PublicPart (okp_params p)) (some-injective _ _ h) (refl, refl, λ k. refl, refl)

fits-kty : (k : JwkType) (p : JwkParams) → (fits k p ≡ true) ↔ (params_kty p ≡ k)
unfolding params_kty
fits-kty k p = ground arith

to_public-params :
    (j : Jwk) {public : Jwk}
    → to_public j ≡ some public
    → (params_to_public j.params ≡ some public.params)
      × (public.kty ≡ params_kty public.params)
      × (public.kid ≡ j.kid)
      × (public.alg ≡ j.alg)
unfolding to_public params_kty
to_public-params j h = elim (Option-cases (params_to_public j.params)) [
  | inl e ↦ absurd (ground arith)
  | inr (p, e) ↦ ground arith
]

-- The public part of a key whose parameters are of its type has no private component, has the key's
-- type, id and algorithm, and has the thumbprint input of the key.
pub to_public_lem :
    (j : Jwk) {public : Jwk}
    → IsTyped j
    → to_public j ≡ some public
    → (is_public public ≡ true)
      × (is_private public ≡ false)
      × (thumbprint_hash_input public ≡ thumbprint_hash_input j)
      × (public.kty ≡ j.kty)
      × (public.kid ≡ j.kid)
      × (public.alg ≡ j.alg)
unfolding is_public is_private thumbprint_hash_input
to_public_lem j {public} t h =
    let (e, k, same_kid, same_alg) = to_public-params j h in
    let (pub', priv, thumb, kind) = public_params j.params e in
    let same_type : public.kty ≡ j.kty = k ∙ kind ∙ t.typed in
    (pub', priv, rw same_type (thumb (type_name j.kty)), same_type, same_kid, same_alg)

-- `set_params` refuses exactly the parameters of another type.
pub set_params_lem :
    (j : Jwk) (p : JwkParams) → (is_some (set_params j p) ≡ true) ↔ (params_kty p ≡ j.kty)
unfolding set_params
set_params_lem j p = ground (arith, (fits-kty j.kty p).0, (fits-kty j.kty p).1)
