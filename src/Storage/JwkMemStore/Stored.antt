-- ===== src/Storage/JwkMemStore/Stored.antt =====
-- The keys that `generate`, `insert` and `generate_bbs` of memstore.rs store.
use zk_identity.Prelude.{
  codes, ◌⊎◌, ◌∙◌, ℕ, ◌≡◌, refl, ap, subst, true, Option, some, Text, arith, is_some, text_eq,
  text_eqb, Option-cases, Bool-cases, inl, inr,
}
use mathlib.Core.Option.{some-injective}
use zk_identity.Prelude.HashMap
use zk_identity.Prelude.HashMap.{HashMap, get-new, get-insert, get-remove, get-cong}
use zk_identity.Prelude.Outcome.{
  ok, Outcome-Cases, >>=-eq-ok, ok-injective, ok_case, err_case, panic_case,
}
use zk_identity.Jose.Types.{JwkType, okp, ec, rsa, oct, JwsAlgorithm, eddsa}
use zk_identity.Jose.Params.{params_to_public, JwkParamsEc, BlsCurve, try_bls_curve}
use zk_identity.Jose.Jwk.{Jwk, from_params, try_okp_params, try_ec_params, to_public}
use zk_identity.Storage.Digest.{Hashes}
use zk_identity.Storage.JwkMemStore.Bbs.{
  BbsCrates, ProofAlgorithm, generate_bbs_keypair, bls_jwk, encode_bls_jwk, bbs_keys, generate_bbs,
}
use zk_identity.Storage.JwkMemStore.{
  Crypto, KeyPair, MemStore, Draw, new_mem_store, jwk_key_type_at, bls_key_type, alg_of,
  key_type_of_jwk, private_check, check_key_alg_compatibility, encode_jwk, MemStoreKeyType,
  ed25519_type, bls12381g2_type, generated_jwk, generate_with, generate_checks, generate,
  insert_checks, insert, delete,
}

-- a key of the Okp kind
abbrev pub IsOkp : Jwk → Type 0
IsOkp j = is_some (try_okp_params j) ≡ true

-- a key for BBS+ signatures
abbrev pub IsBls : Jwk → Type 0
IsBls j = (p : JwkParamsEc) × (try_ec_params j ≡ some p) × (p.crv ≡ codes "BLS12381G2")

abbrev pub IsKey : Jwk → Type 0
IsKey j = IsOkp j ⊎ IsBls j

pub record IsSound (s : MemStore) : Type 0 where
  pub keys : (k : Text) {j : Jwk} → HashMap.get s.jwk_store k ≡ some j → IsKey j

-- a store that the operations which change it make from an empty one
pub data Reachable (h : Hashes) (c : Crypto) (b : BbsCrates) : MemStore → Type 0 where
  started : Reachable h c b new_mem_store
  after_generate :
      (s : MemStore) (key_type : Text) (alg : JwsAlgorithm)
      → Reachable h c b s
      → Reachable h c b (generate h c s key_type alg).0
  after_insert : (s : MemStore) (j : Jwk) → Reachable h c b s → Reachable h c b (insert h c s j).0
  after_generate_bbs :
      (s : MemStore) (key_type : Text) (alg : ProofAlgorithm)
      → Reachable h c b s
      → Reachable h c b (generate_bbs h c b s key_type alg).0
  after_delete : (s : MemStore) (k : Text) → Reachable h c b s → Reachable h c b (delete s k).0

added :
    (s : MemStore) (k : Text) (j : Jwk) (n : ℕ)
    → IsSound s
    → IsKey j
    → IsSound (record { jwk_store = HashMap.insert s.jwk_store k j; drawn = n })
added s k j n sound kind = record {
  keys = λ k' {j = j'} e. elim (Bool-cases (text_eqb k k')) [
    | inl same ↦
        subst IsKey (some-injective j j' (ground (arith, get-insert s.jwk_store k j k'))) kind
    | inr apart ↦ sound.keys k' (ground (arith, get-insert s.jwk_store k j k'))
  ];
}

generated_jwk-IsOkp :
    (h : Hashes) (c : Crypto) (pair : KeyPair) (alg : JwsAlgorithm)
    → IsOkp (generated_jwk h c pair alg)
unfolding generated_jwk encode_jwk from_params try_okp_params
generated_jwk-IsOkp h c pair alg = refl

generate_with-IsSound :
    (h : Hashes) (c : Crypto) (s : MemStore) (draw : Draw) (alg : JwsAlgorithm)
    → IsSound s
    → IsSound (generate_with h c s draw alg).0
unfolding generate_with
generate_with-IsSound h c s draw alg sound = elim (Option-cases draw.keys) [
  | inl e ↦ rw (e, generate_with) (record { keys = sound.keys })
  | inr (pair, e) ↦ elim (Option-cases (to_public (generated_jwk h c pair alg))) [
    | inl f ↦ rw (e, f, generate_with) (record { keys = sound.keys })
    | inr (public, f) ↦
        rw (e, f, generate_with)
          (added s draw.key_id (generated_jwk h c pair alg) _ sound
            (inl (generated_jwk-IsOkp h c pair alg)))
  ]
]

generate-IsSound :
    (h : Hashes) (c : Crypto) (s : MemStore) (key_type : Text) (alg : JwsAlgorithm)
    → IsSound s
    → IsSound (generate h c s key_type alg).0
unfolding generate
generate-IsSound h c s key_type alg sound = elim (Outcome-Cases (generate_checks key_type alg)) [
  | ok_case done e ↦ rw (e, generate) (generate_with-IsSound h c s (c.draws s.drawn) alg sound)
  | err_case a e ↦ rw (e, generate) sound
  | panic_case e ↦ rw (e, generate) sound
]

bls_key_type-curve : (curve : Option BlsCurve) → bls_key_type curve ≡ ok ed25519_type → ⊥
bls_key_type-curve curve h = ground arith

key_type_at-IsOkp : (k : JwkType) (j : Jwk) → jwk_key_type_at k j ≡ ok ed25519_type → IsOkp j
unfolding jwk_key_type_at
key_type_at-IsOkp okp j h = elim (Option-cases (try_okp_params j)) [
  | inr (p, e) ↦ rw e refl
  | inl e ↦ absurd (ground arith)
]
key_type_at-IsOkp ec j h = elim (Option-cases (try_ec_params j)) [
  | inr (p, e) ↦ absurd (bls_key_type-curve (try_bls_curve p) (rw (e, jwk_key_type_at) at h))
  | inl e ↦ absurd (ground arith)
]
key_type_at-IsOkp rsa j h = absurd (ground arith)
key_type_at-IsOkp oct j h = absurd (ground arith)

pub compatible :
    (t : MemStoreKeyType) (alg : JwsAlgorithm)
    → check_key_alg_compatibility t alg ≡ ok tt
    → (t ≡ ed25519_type) × (alg ≡ eddsa)
unfolding check_key_alg_compatibility
compatible ed25519_type alg h = (refl, ground arith)
compatible bls12381g2_type alg h = absurd (ground arith)

-- a key that `insert` takes
insert_checks-IsOkp : (j : Jwk) → insert_checks j ≡ ok tt → IsOkp j
unfolding insert_checks key_type_of_jwk
insert_checks-IsOkp j h =
    let (t, e, h₁) = >>=-eq-ok (key_type_of_jwk j) _ h in
    let (done, e₂, h₂) = >>=-eq-ok (private_check j) _ h₁ in
    let (alg, e₃, h₃) = >>=-eq-ok (alg_of j.alg) _ h₂ in
    key_type_at-IsOkp j.kty j (e ∙ ap ok (compatible t alg h₃).0)

insert-IsSound :
    (h : Hashes) (c : Crypto) (s : MemStore) (j : Jwk) → IsSound s → IsSound (insert h c s j).0
unfolding insert
insert-IsSound h c s j sound = elim (Outcome-Cases (insert_checks j)) [
  | ok_case tt e ↦
      rw (e, insert) (added s (c.draws s.drawn).key_id j _ sound (inl (insert_checks-IsOkp j e)))
  | err_case a e ↦ rw (e, insert) sound
  | panic_case e ↦ rw (e, insert) sound
]

delete-IsSound : (s : MemStore) (k : Text) → IsSound s → IsSound (delete s k).0
unfolding delete
delete-IsSound s k sound = record {
  keys = λ k' e. elim (Bool-cases (text_eqb k k')) [
    | inl same ↦ absurd (ground (arith, get-remove s.jwk_store k k'))
    | inr apart ↦ sound.keys k' (ground (arith, get-remove s.jwk_store k k'))
  ];
}

-- a key that `generate_bbs` stores
bbs_keys-IsBls :
    (h : Hashes) (c : Crypto) (b : BbsCrates) (n : ℕ) (alg : ProofAlgorithm) {keys : Jwk × Jwk}
    → bbs_keys h c b n alg ≡ ok keys
    → IsBls keys.0
unfolding encode_bls_jwk bls_jwk from_params try_ec_params to_public params_to_public
bbs_keys-IsBls h c b n alg e =
    let (k, _, e₁) = >>=-eq-ok (generate_bbs_keypair h c b n alg) _ e in
    subst (λ (keys : Jwk × Jwk). IsBls keys.0) (ok-injective e₁) (_, refl, refl)

generate_bbs-IsSound :
    (h : Hashes) (c : Crypto) (b : BbsCrates) (s : MemStore) (key_type : Text)
    (alg : ProofAlgorithm)
    → IsSound s
    → IsSound (generate_bbs h c b s key_type alg).0
unfolding generate_bbs
generate_bbs-IsSound h c b s key_type alg sound =
    elim (Bool-cases (text_eqb key_type (codes "BLS12381G2"))) [
      | inr other ↦ rw (other, generate_bbs) sound
      | inl bls ↦ elim (Outcome-Cases (bbs_keys h c b s.drawn alg)) [
        | ok_case keys e ↦
            rw (bls, e, generate_bbs)
              (added s (c.draws s.drawn).key_id keys.0 _ sound
                (inr (bbs_keys-IsBls h c b s.drawn alg e)))
        | err_case a e ↦ rw (bls, e, generate_bbs) (record { keys = sound.keys })
        | panic_case e ↦ rw (bls, e, generate_bbs) (record { keys = sound.keys })
      ]
    ]

pub Reachable-IsSound :
    {h : Hashes} {c : Crypto} {b : BbsCrates} (s : MemStore) → Reachable h c b s → IsSound s
Reachable-IsSound s started = record { keys = λ k e. absurd (cc (get-new k, e)) }
Reachable-IsSound _ (after_generate s key_type alg r) =
    generate-IsSound _ _ s key_type alg (Reachable-IsSound s r)
Reachable-IsSound _ (after_insert s j r) = insert-IsSound _ _ s j (Reachable-IsSound s r)
Reachable-IsSound _ (after_generate_bbs s key_type alg r) =
    generate_bbs-IsSound _ _ _ s key_type alg (Reachable-IsSound s r)
Reachable-IsSound _ (after_delete s k r) = delete-IsSound s k (Reachable-IsSound s r)
