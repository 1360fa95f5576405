-- ===== src/Storage/JwkMemStore/Bbs.antt =====
-- The keys for BBS+ signatures in the store: `generate_bbs` of identity_storage/src/key_storage/memstore.rs
-- and the encoding of such keys in key_storage/bls.rs. `sign_bbs` and `update_signature` read the store only.
use zk_identity.Prelude.{
  ℕ, ◌+◌, not, Option, none, some, List, Text, codes, text_eq, text_eqb, if◌then◌else◌,
}
use zk_identity.Prelude.Outcome.{Outcome, ok, err, panic, ◌>>=◌}
use zk_identity.Prelude.HashMap
use zk_identity.Jose.Params.{ec_params}
use zk_identity.Jose.Jwk.{Jwk, from_params, to_public}
use zk_identity.Storage.Digest.{Hashes, thumbprint_sha256}
use zk_identity.Storage.Traits.{
  KeyStorageError, unsupported_key_type, unsupported_proof_algorithm, unspecified, JwkGenOutput,
}
use zk_identity.Storage.JwkMemStore.{Crypto, MemStore}

-- The algorithms of the crate jsonprooftoken, as the source tells them apart.
pub data ProofAlgorithm : Type 0 where
  bls12381_sha256 bls12381_shake256 : ProofAlgorithm
  another : Text → ProofAlgorithm

-- a key pair as bytes, the public key in its coordinates
pub record BbsKeyPair : Type 0 where
  pub private_key : List ℕ
  pub x : List ℕ
  pub y : List ℕ

-- The crates: the text of an algorithm, and the key pair of a use of the random generator.
pub record BbsCrates : Type 0 where
  pub alg_text : ProofAlgorithm → Text
  pub random_keypair : ℕ → ProofAlgorithm → Option BbsKeyPair

module _ (h : Hashes) (c : Crypto) (b : BbsCrates) where
  -- the `match` of `generate_bbs_keypair`
  abbrev pub random_bbs_keypair : ℕ → ProofAlgorithm → Outcome KeyStorageError BbsKeyPair
  random_bbs_keypair n alg = elim (b.random_keypair n alg) [
    | none ↦ err unspecified
    | some k ↦ ok k
  ]

  unfoldable pub generate_bbs_keypair : ℕ → ProofAlgorithm → Outcome KeyStorageError BbsKeyPair
  generate_bbs_keypair n bls12381_sha256 = random_bbs_keypair n bls12381_sha256
  generate_bbs_keypair n bls12381_shake256 = random_bbs_keypair n bls12381_shake256
  generate_bbs_keypair n (another name) = err unsupported_proof_algorithm

  abbrev pub bls_params : BbsKeyPair → Jwk
  bls_params k = from_params (
      ec_params (record {
        crv = codes "BLS12381G2";
        x = c.encode_b64 k.x;
        y = c.encode_b64 k.y;
        d = some (c.encode_b64 k.private_key);
      }))

  -- the private key of `encode_bls_jwk`
  unfoldable pub bls_jwk : BbsKeyPair → ProofAlgorithm → Jwk
  unfolding from_params thumbprint_sha256
  bls_jwk k alg = record (bls_params k) {
    alg = some (b.alg_text alg);
    kid = some (
        c.encode_b64 (thumbprint_sha256 h (record (bls_params k) { alg = some (b.alg_text alg) })));
  }

  unfoldable pub encode_bls_jwk : BbsKeyPair → ProofAlgorithm → Outcome KeyStorageError (Jwk × Jwk)
  unfolding bls_jwk to_public
  encode_bls_jwk k alg = elim (to_public (bls_jwk k alg)) [
    | none ↦ panic
    | some public_jwk ↦ ok (bls_jwk k alg, public_jwk)
  ]

  -- the key that is stored, and its public part
  abbrev pub bbs_keys : ℕ → ProofAlgorithm → Outcome KeyStorageError (Jwk × Jwk)
  bbs_keys n alg = generate_bbs_keypair n alg >>= λ k. encode_bls_jwk k alg

  -- A use of the generator is numbered where the algorithm is refused, too.
  unfoldable pub generate_bbs :
      MemStore → Text → ProofAlgorithm → MemStore × Outcome KeyStorageError JwkGenOutput
  unfolding generate_bbs_keypair encode_bls_jwk
  generate_bbs s key_type alg =
      if not (text_eqb key_type (codes "BLS12381G2"))
      then (s, err unsupported_key_type)
      else elim (bbs_keys s.drawn alg) [
        | ok keys ↦
            let kid = (c.draws s.drawn).key_id in
            (
              record { jwk_store = HashMap.insert s.jwk_store kid keys.0; drawn = s.drawn + 1 },
              ok (record { key_id = kid; jwk = keys.1 }),
            )
        | err e ↦ (record s { drawn = s.drawn + 1 }, err e)
        | panic ↦ (record s { drawn = s.drawn + 1 }, panic)
      ]
