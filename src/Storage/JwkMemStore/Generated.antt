-- ===== src/Storage/JwkMemStore/Generated.antt =====
-- `generate` and then `sign` of memstore.rs.
use zk_identity.Prelude.{
  ℕ, ◌≡◌, refl, ◌∙◌, ap, sym, subst, some, List, Text, arith, text_eq, text_eqb, text_eqb_refl,
  Option-cases, inl, inr, length,
}
use mathlib.Core.Option.{some-injective}
use zk_identity.Prelude.HashMap
use zk_identity.Prelude.HashMap.{HashMap, get-new, get-insert, get-remove, get-cong}
use zk_identity.Prelude.Outcome.{ok, Outcome-Cases, >>=-eq-ok, ok_case, err_case, panic_case}
use zk_identity.Jose.Types.{JwsAlgorithm, eddsa, alg_name}
use zk_identity.Jose.Params.{params_to_public, okp_to_public, try_ed_curve}
use zk_identity.Jose.Jwk.{Jwk, from_params, try_okp_params, to_public}
use zk_identity.Storage.Digest.{Hashes}
use zk_identity.Storage.Traits.{JwkGenOutput}
use zk_identity.Storage.JwkMemStore.{
  Crypto, KeyPair, MemStore, Draw, secret_of, key_type_of, check_key_alg_compatibility, encode_jwk,
  generated_jwk, generate_with, generate_checks, generate, expand_secret_jwk, sign_checks,
  sign_with, sign,
}
use zk_identity.Storage.JwkMemStore.Stored.{compatible}

generate_checks-eddsa :
    (key_type : Text) (alg : JwsAlgorithm) → generate_checks key_type alg ≡ ok tt → alg ≡ eddsa
unfolding generate_checks
generate_checks-eddsa key_type alg h =
    let (t, e, h₁) = >>=-eq-ok (key_type_of key_type) _ h in
    let (done, e₂, h₂) = >>=-eq-ok (check_key_alg_compatibility t alg) _ h₁ in
    (compatible t alg e₂).1

-- the public part of a generated key passes the checks
sign_checks-generated :
    (h : Hashes) (c : Crypto) (pair : KeyPair) {public : Jwk}
    → to_public (generated_jwk h c pair eddsa) ≡ some public
    → sign_checks public ≡ ok tt
unfolding to_public generated_jwk encode_jwk from_params params_to_public okp_to_public alg_name
    sign_checks try_okp_params text_eqb
sign_checks-generated h c pair e = subst (λ j. sign_checks j ≡ ok tt) (some-injective _ _ e) refl

expand-generated :
    (h : Hashes) (c : Crypto) (pair : KeyPair)
    → c.decode_b64 (c.encode_b64 pair.private_key) ≡ some pair.private_key
    → length pair.private_key ≡ 32
    → expand_secret_jwk h c (generated_jwk h c pair eddsa) ≡ ok pair.private_key
unfolding expand_secret_jwk secret_of generated_jwk encode_jwk from_params try_okp_params
    try_ed_curve text_eqb
expand-generated h c pair decoded size = rw (decoded, size) refl

generate_with-stored :
    (h : Hashes) (c : Crypto) (s : MemStore) (draw : Draw) (alg : JwsAlgorithm)
    → {pair : KeyPair} {s' : MemStore} {out : JwkGenOutput} → draw.keys ≡ some pair
    → generate_with h c s draw alg ≡ (s', ok out)
    → (HashMap.get s'.jwk_store out.key_id ≡ some (generated_jwk h c pair alg))
      × (to_public (generated_jwk h c pair alg) ≡ some out.jwk)
unfolding generate_with
generate_with-stored h c s draw alg {pair} drawn e =
    elim (Option-cases (to_public (generated_jwk h c pair alg))) [
      | inl f ↦ absurd (ground arith)
      | inr (public, f) ↦
          let kept = get-insert s.jwk_store draw.key_id (generated_jwk h c pair alg) draw.key_id in
          ground (arith, kept, text_eqb_refl draw.key_id)
    ]

-- what a successful `generate` stores and answers
generate-stored :
    (h : Hashes) (c : Crypto) (s : MemStore) (key_type : Text) (alg : JwsAlgorithm)
    → {pair : KeyPair} {s' : MemStore} {out : JwkGenOutput} → (c.draws s.drawn).keys ≡ some pair
    → generate h c s key_type alg ≡ (s', ok out)
    → (HashMap.get s'.jwk_store out.key_id ≡ some (generated_jwk h c pair eddsa))
      × (to_public (generated_jwk h c pair eddsa) ≡ some out.jwk)
unfolding generate
generate-stored h c s key_type alg {pair} drawn e =
    elim (Outcome-Cases (generate_checks key_type alg)) [
      | err_case a f ↦ absurd (ground arith)
      | panic_case f ↦ absurd (ground arith)
      | ok_case tt f ↦
          let same = generate_checks-eddsa key_type alg f in
          let (kept, public) =
            generate_with-stored h c s (c.draws s.drawn) alg drawn (rw (f, generate) at e) in
          (
            kept ∙ ap (λ a. some (generated_jwk h c pair a)) same,
            ap (λ a. to_public (generated_jwk h c pair a)) (sym same) ∙ public,
          )
    ]

-- In the memory store, `sign` with the id and the public key that a successful `generate` answered
-- returns the signature by the drawn private key and leaves the store as it is, if that key has 32
-- bytes and base64 decodes what it encoded.
pub sign-generate :
    (h : Hashes) (c : Crypto) (s : MemStore) (key_type : Text) (alg : JwsAlgorithm)
    → (message : List ℕ) {pair : KeyPair} {s' : MemStore} {out : JwkGenOutput}
    → (c.draws s.drawn).keys ≡ some pair
    → c.decode_b64 (c.encode_b64 pair.private_key) ≡ some pair.private_key
    → length pair.private_key ≡ 32
    → generate h c s key_type alg ≡ (s', ok out)
    → sign h c s' out.key_id message out.jwk ≡ (s', ok (c.ed25519_sign pair.private_key message))
unfolding sign sign_with
sign-generate h c s key_type alg message {pair} drawn decoded size e =
    let (stored, public) = generate-stored h c s key_type alg drawn e in
    rw
      (
        sign_checks-generated h c pair public,
        sign_with,
        stored,
        expand-generated h c pair decoded size,
      )
      refl
