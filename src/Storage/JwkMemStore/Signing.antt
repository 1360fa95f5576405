-- ===== src/Storage/JwkMemStore/Signing.antt =====
-- `sign` of memstore.rs on the keys that `generate`, `insert` and `generate_bbs` store.
use zk_identity.Prelude.{
  codes, ◌↔◌, ◌∙◌, ℕ, ◌≡◌, refl, ap, Option, none, some, List, Text, arith, text_eq, text_eqb_iff,
  Option-cases, inl, inr,
}
use zk_identity.Prelude.HashMap
use zk_identity.Prelude.HashMap.{HashMap, get-new, get-insert, get-remove, get-cong}
use zk_identity.Prelude.Outcome.{ok, panic, >>=-eq-ok, >>=-eq-panic}
use zk_identity.Jose.Types.{eddsa}
use zk_identity.Jose.Params.{JwkParamsOkp, JwkParamsEc}
use zk_identity.Jose.Jwk.{Jwk, try_okp_params, try_ec_params}
use zk_identity.Storage.Digest.{Hashes}
use zk_identity.Storage.JwkMemStore.Bbs.{BbsCrates}
use zk_identity.Storage.JwkMemStore.{
  Crypto, MemStore, alg_of, secret_of, expand_secret_jwk, sign_checks, sign_with, sign,
}
use zk_identity.Storage.JwkMemStore.Stored.{IsOkp, IsBls, IsSound, Reachable, Reachable-IsSound}

secret-panic : (h' : Hashes) (c : Crypto) (p : JwkParamsOkp) → secret_of h' c p ≡ panic → ⊥
unfolding secret_of
secret-panic h' c p h = ground arith

expand-panic : (h' : Hashes) (c : Crypto) (j : Jwk) → IsOkp j → expand_secret_jwk h' c j ≡ panic → ⊥
unfolding expand_secret_jwk
expand-panic h' c j kind h = elim (Option-cases (try_okp_params j)) [
  | inl e ↦ absurd (ground arith)
  | inr (p, e) ↦ secret-panic h' c p (rw (e, expand_secret_jwk) at h)
]

no_okp : (j : Jwk) {p : JwkParamsEc} → try_ec_params j ≡ some p → try_okp_params j ≡ none
unfolding try_ec_params try_okp_params
no_okp j h = ground arith

-- Expanding a key of the other kind panics.
expand-IsBls : (h' : Hashes) (c : Crypto) (j : Jwk) → IsBls j → expand_secret_jwk h' c j ≡ panic
unfolding expand_secret_jwk
expand-IsBls h' c j (p, is_ec, crv) = rw (no_okp j is_ec, expand_secret_jwk) refl

-- the keys on which `sign_with` panics
abbrev pub HasBlsKey : MemStore → Text → Type 0
HasBlsKey s key_id = (j : Jwk) × (HashMap.get s.jwk_store key_id ≡ some j) × IsBls j

sign_with-panic :
    (h' : Hashes) (c : Crypto) (s : MemStore) (key_id : Text) (message : List ℕ)
    → IsSound s
    → sign_with h' c s key_id message ≡ panic
    → HasBlsKey s key_id
unfolding sign_with
sign_with-panic h' c s key_id message sound h =
    elim (Option-cases (HashMap.get s.jwk_store key_id)) [
      | inl e ↦ absurd (ground arith)
      | inr (j, e) ↦ elim (>>=-eq-panic (expand_secret_jwk h' c j) _ (rw (e, sign_with) at h)) [
        | inl stuck ↦ elim (sound.keys key_id e) [
          | inl is_okp ↦ absurd (expand-panic h' c j is_okp stuck)
          | inr bls ↦ (j, e, bls)
        ]
        | inr (secret, f, never) ↦ absurd (cc never)
      ]
    ]

sign_with-HasBlsKey :
    (h' : Hashes) (c : Crypto) (s : MemStore) (key_id : Text) (message : List ℕ)
    → HasBlsKey s key_id
    → sign_with h' c s key_id message ≡ panic
unfolding sign_with
sign_with-HasBlsKey h' c s key_id message (j, e, bls) =
    rw (e, expand-IsBls h' c j bls, sign_with) refl

alg_of-panic : (name : Option Text) → alg_of name ≡ panic → ⊥
alg_of-panic none h = cc
alg_of-panic (some name) h = ground arith

sign_checks-panic : (j : Jwk) → sign_checks j ≡ panic → ⊥
unfolding sign_checks
sign_checks-panic j h = elim (>>=-eq-panic (alg_of j.alg) _ h) [
  | inl e ↦ alg_of-panic j.alg e
  | inr (alg, e, f) ↦ absurd (ground arith)
]

-- a public key that `sign` takes: for EdDSA, and on the curve Ed25519
abbrev pub IsEdKey : Jwk → Type 0
IsEdKey j =
    (alg_of j.alg ≡ ok eddsa)
    × ((p : JwkParamsOkp) × (try_okp_params j ≡ some p) × (p.crv ≡ codes "Ed25519"))

sign_checks_sound : (j : Jwk) → sign_checks j ≡ ok tt → IsEdKey j
unfolding sign_checks
sign_checks_sound j h =
    let (alg, e, f) = >>=-eq-ok (alg_of j.alg) _ h in
    elim (Option-cases (try_okp_params j)) [
      | inl absent ↦ absurd (ground arith)
      | inr (p, there) ↦ (
        e ∙ ap ok (ground arith),
        (p, there, (text_eqb_iff p.crv (codes "Ed25519")).0 (ground arith)),
      )
    ]

sign_checks_complete : (j : Jwk) → IsEdKey j → sign_checks j ≡ ok tt
unfolding sign_checks
sign_checks_complete j (e, (p, f, crv)) =
    let same = (text_eqb_iff p.crv (codes "Ed25519")).1 crv in ground (arith, e, f, same)

-- On a store that `generate`, `insert`, `generate_bbs` and `delete` reach from the empty one, `sign`
-- panics exactly if the public key is one for EdDSA on the curve Ed25519, and the key under the id is
-- one for BBS+ signatures, on the curve BLS12381G2.
pub sign-panic_iff :
    {h : Hashes} {c : Crypto} {b : BbsCrates} (s : MemStore)
    → (key_id : Text) (message : List ℕ) (public_key : Jwk) → Reachable h c b s
    → ((sign h c s key_id message public_key).1 ≡ panic) ↔ (IsEdKey public_key × HasBlsKey s key_id)
unfolding sign
sign-panic_iff {h = h'} {c} s key_id message public_key r = (
  λ h. elim (>>=-eq-panic (sign_checks public_key) _ h) [
    | inl e ↦ absurd (sign_checks-panic public_key e)
    | inr (done, e, f) ↦ (
      sign_checks_sound public_key e,
      sign_with-panic h' c s key_id message (Reachable-IsSound s r) f,
    )
  ],
  λ (ed, bls).
      rw (sign_checks_complete public_key ed, sign_with-HasBlsKey h' c s key_id message bls) refl,
)
