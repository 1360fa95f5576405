-- ===== src/Storage/JwkMemStore.antt =====
-- `JwkMemStore` of identity_storage/src/key_storage/memstore.rs, with ed25519.rs beside it.
pub mod Bbs
pub mod Stored
pub mod Signing
pub mod Generated
use zk_identity.Prelude.{
  ℕ, ◌+◌, Bool, true, false, not, Option, none, some, List, [], ◌∷◌, Text, codes, text_eq, text_eqb,
  if◌then◌else◌, eqb, length,
}
use zk_identity.Prelude.Outcome.{Outcome, ok, err, panic, ◌>>=◌, ◌>>◌}
use zk_identity.Prelude.HashMap
use zk_identity.Prelude.HashMap.{HashMap}
use zk_identity.Jose.Types.{
  JwkType, okp, ec, rsa, oct, JwsAlgorithm, eddsa, alg_name, alg_from_str, match_str,
}
use zk_identity.Jose.Params.{
  JwkParamsOkp, okp_params, EdCurve, ed25519, ed448, BlsCurve, bls12381g2, try_ed_curve,
  try_bls_curve,
}
use zk_identity.Jose.Jwk.{Jwk, from_params, to_public, is_private, try_okp_params, try_ec_params}
use zk_identity.Storage.Digest.{Hashes, thumbprint_sha256}
use zk_identity.Storage.Traits.{
  KeyStorageError, unsupported_key_type, key_algorithm_mismatch, unsupported_signature_algorithm,
  key_not_found, retryable_io_failure, unspecified, JwkGenOutput, JwkStorage,
}

pub record KeyPair : Type 0 where
  pub private_key : List ℕ
  pub public_key : List ℕ

-- One use of the random generator: a key id, and a key pair unless the generation fails.
pub record Draw : Type 0 where
  pub key_id : Text
  pub keys : Option KeyPair

-- What third-party crates compute: base64, and the Ed25519 signature of some bytes by a private key.
pub record Crypto : Type 0 where
  pub encode_b64 : List ℕ → Text
  pub decode_b64 : Text → Option (List ℕ)
  pub ed25519_sign : List ℕ → List ℕ → List ℕ
  pub draws : ℕ → Draw

-- the store, and how often the random generator was used
pub record MemStore : Type 0 where
  pub jwk_store : HashMap Text Jwk
  pub drawn : ℕ

abbrev pub new_mem_store : MemStore
new_mem_store = record { jwk_store = HashMap.new; drawn = 0 }

pub data MemStoreKeyType : Type 0 where
  ed25519_type bls12381g2_type : MemStoreKeyType

-- `TryFrom<&KeyType>`
unfoldable pub key_type_of : Text → Outcome KeyStorageError MemStoreKeyType
unfolding match_str
key_type_of value =
    elim (match_str ((codes "Ed25519", ed25519_type) ∷ (codes "BLS12381G2", bls12381g2_type) ∷ [])
      value) [ some t ↦ ok t | none ↦ err unsupported_key_type ]

abbrev pub ed_key_type : Option EdCurve → Outcome KeyStorageError MemStoreKeyType
ed_key_type (some EdCurve.ed25519) = ok ed25519_type
ed_key_type (some EdCurve.ed448) = err unsupported_key_type
ed_key_type none = err unsupported_key_type

abbrev pub bls_key_type : Option BlsCurve → Outcome KeyStorageError MemStoreKeyType
bls_key_type (some BlsCurve.bls12381g2) = ok bls12381g2_type
bls_key_type _ = err unsupported_key_type

-- `TryFrom<&Jwk>`
unfoldable pub jwk_key_type_at : JwkType → Jwk → Outcome KeyStorageError MemStoreKeyType
unfolding try_okp_params try_ec_params try_ed_curve try_bls_curve
jwk_key_type_at JwkType.okp j = elim (try_okp_params j) [
  | none ↦ err unsupported_key_type
  | some p ↦ ed_key_type (try_ed_curve p)
]
jwk_key_type_at JwkType.ec j = elim (try_ec_params j) [
  | none ↦ err unsupported_key_type
  | some p ↦ bls_key_type (try_bls_curve p)
]
jwk_key_type_at _ j = err unsupported_key_type

unfoldable pub key_type_of_jwk : Jwk → Outcome KeyStorageError MemStoreKeyType
unfolding jwk_key_type_at
key_type_of_jwk j = jwk_key_type_at j.kty j

unfoldable pub check_key_alg_compatibility :
    MemStoreKeyType → JwsAlgorithm → Outcome KeyStorageError (Unit {0})
check_key_alg_compatibility ed25519_type JwsAlgorithm.eddsa = ok tt
check_key_alg_compatibility _ _ = err key_algorithm_mismatch

-- the two checks of `generate`; other key types than Ed25519 are refused after them
unfoldable pub generate_checks : Text → JwsAlgorithm → Outcome KeyStorageError (Unit {0})
unfolding key_type_of check_key_alg_compatibility
generate_checks key_type alg = do
  t ← key_type_of key_type
  check_key_alg_compatibility t alg
  elim t [ ed25519_type ↦ ok tt | bls12381g2_type ↦ err unsupported_key_type ]

abbrev pub alg_of : Option Text → Outcome KeyStorageError JwsAlgorithm
alg_of none = err unsupported_signature_algorithm
alg_of (some alg) = elim (alg_from_str alg) [
  | none ↦ err unsupported_signature_algorithm
  | some a ↦ ok a
]

-- `Jwk has no private component`
unfoldable pub private_check : Jwk → Outcome KeyStorageError (Unit {0})
unfolding is_private
private_check jwk = if not (is_private jwk) then err unspecified else ok tt

-- The test for an `alg` that follows in the source is met once the algorithm was read.
unfoldable pub insert_checks : Jwk → Outcome KeyStorageError (Unit {0})
unfolding key_type_of_jwk private_check alg_from_str check_key_alg_compatibility
insert_checks jwk = do
  key_type ← key_type_of_jwk jwk
  private_check jwk
  alg ← alg_of jwk.alg
  check_key_alg_compatibility key_type alg

-- the checks of `sign` on the public key
unfoldable pub sign_checks : Jwk → Outcome KeyStorageError (Unit {0})
unfolding alg_from_str try_okp_params
sign_checks public_key = do
  alg ← alg_of public_key.alg
  elim alg [
    | eddsa ↦ elim (try_okp_params public_key) [
      | none ↦ err unspecified
      | some p ↦ if not (text_eqb p.crv (codes "Ed25519")) then err unspecified else ok tt
    ]
    | _ ↦ err unsupported_signature_algorithm
  ]

module _ (h : Hashes) (c : Crypto) where
  -- `encode_jwk`
  unfoldable pub encode_jwk : KeyPair → Jwk
  unfolding from_params
  encode_jwk k = from_params (
      okp_params (record {
        crv = codes "Ed25519";
        x = c.encode_b64 k.public_key;
        d = some (c.encode_b64 k.private_key);
      }))

  -- the key that `generate` stores
  unfoldable pub generated_jwk : KeyPair → JwsAlgorithm → Jwk
  unfolding encode_jwk thumbprint_sha256 alg_name
  generated_jwk k alg = record (encode_jwk k) {
    alg = some (alg_name alg);
    kid = some (c.encode_b64 (thumbprint_sha256 h (encode_jwk k)));
  }

  -- from the draw on
  unfoldable pub generate_with :
      MemStore → Draw → JwsAlgorithm → MemStore × Outcome KeyStorageError JwkGenOutput
  generate_with s draw alg =
      let s' : MemStore = record s { drawn = s.drawn + 1 } in
      elim draw.keys [
        | none ↦ (s', err retryable_io_failure)
        | some k ↦ elim (to_public (generated_jwk k alg)) [
          | none ↦ (s', panic)
          | some public_jwk ↦ (
            record s' { jwk_store = HashMap.insert s.jwk_store draw.key_id (generated_jwk k alg) },
            ok (record { key_id = draw.key_id; jwk = public_jwk }),
          )
        ]
      ]

  unfoldable pub generate :
      MemStore → Text → JwsAlgorithm → MemStore × Outcome KeyStorageError JwkGenOutput
  generate s key_type alg = elim (generate_checks key_type alg) [
    | ok done ↦ generate_with s (c.draws s.drawn) alg
    | err e ↦ (s, err e)
    | panic ↦ (s, panic)
  ]

  unfoldable pub insert : MemStore → Jwk → MemStore × Outcome KeyStorageError Text
  insert s jwk = elim (insert_checks jwk) [
    | ok done ↦
        let key_id = (c.draws s.drawn).key_id in
        (
          record { jwk_store = HashMap.insert s.jwk_store key_id jwk; drawn = s.drawn + 1 },
          ok key_id,
        )
    | err e ↦ (s, err e)
    | panic ↦ (s, panic)
  ]

  -- `expand_secret_jwk`: the bytes of the private key
  unfoldable pub secret_of : JwkParamsOkp → Outcome KeyStorageError (List ℕ)
  unfolding try_ed_curve
  secret_of p = elim (try_ed_curve p) [
    | none ↦ err unsupported_key_type
    | some curve ↦ elim curve [
      | ed448 ↦ err unsupported_key_type
      | ed25519 ↦ elim p.d [
        | none ↦ err unspecified
        | some d ↦ elim (c.decode_b64 d) [
          | none ↦ err unspecified
          | some sk ↦ if eqb (length sk) 32 then ok sk else err unspecified
        ]
      ]
    ]
  ]

  unfoldable pub expand_secret_jwk : Jwk → Outcome KeyStorageError (List ℕ)
  unfolding try_okp_params secret_of
  expand_secret_jwk jwk = elim (try_okp_params jwk) [ none ↦ panic | some p ↦ secret_of p ]

  unfoldable pub sign_with : MemStore → Text → List ℕ → Outcome KeyStorageError (List ℕ)
  sign_with s key_id message = elim (HashMap.get s.jwk_store key_id) [
    | none ↦ err key_not_found
    | some jwk ↦ do secret ← expand_secret_jwk jwk; ok (c.ed25519_sign secret message)
  ]

  unfoldable pub sign : MemStore → Text → List ℕ → Jwk → MemStore × Outcome KeyStorageError (List ℕ)
  sign s key_id message public_key = (s, (sign_checks public_key >> sign_with s key_id message))

-- `delete`
unfoldable pub delete : MemStore → Text → MemStore × Outcome KeyStorageError (Unit {0})
delete s key_id =
    let (store, removed) = HashMap.remove s.jwk_store key_id in
    (record s { jwk_store = store }, elim removed [ some jwk ↦ ok tt | none ↦ err key_not_found ])

unfoldable pub exists : MemStore → Text → MemStore × Outcome KeyStorageError Bool
exists s key_id = (s, ok (HashMap.contains_key s.jwk_store key_id))

-- `JwkMemStore` as a `JwkStorage`
abbrev pub mem_store : Hashes → Crypto → JwkStorage
mem_store h c = record {
  State = MemStore;
  generate = generate h c;
  insert = insert h c;
  sign = sign h c;
  delete = delete;
  exists = exists;
}
