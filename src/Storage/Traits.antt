-- ===== src/Storage/Traits.antt =====
-- The traits `JwkStorage` and `KeyIdStorage` of identity_storage/src/key_storage/jwk_storage.rs and
-- key_id_storage/key_id_storage.rs. A method on `&self` returns the storage's next state.
use zk_identity.Prelude.{List, ℕ, Bool, Text}
use zk_identity.Prelude.Outcome.{Outcome}
use zk_identity.Jose.Types.{JwsAlgorithm}
use zk_identity.Jose.Jwk.{Jwk}

-- `KeyStorageErrorKind`
pub data KeyStorageError : Type 0 where
  unsupported_key_type key_algorithm_mismatch unsupported_signature_algorithm
        unsupported_proof_algorithm key_not_found unavailable unauthenticated retryable_io_failure
        serialization_error unspecified :
      KeyStorageError

-- `KeyIdStorageErrorKind`
pub data KeyIdStorageError : Type 0 where
  key_id_already_exists key_id_not_found unavailable unauthenticated retryable_io_failure
        serialization_error unspecified :
      KeyIdStorageError

-- `MethodDigest`
pub record MethodDigest : Type 0 where
  pub version : ℕ
  pub value : ℕ

-- `JwkGenOutput`; a `KeyId` and a `KeyType` are texts
pub record JwkGenOutput : Type 0 where
  pub key_id : Text
  pub jwk : Jwk

pub record JwkStorage : Type 1 where
  pub State : Type 0
  pub generate : State → Text → JwsAlgorithm → State × Outcome KeyStorageError JwkGenOutput
  pub insert : State → Jwk → State × Outcome KeyStorageError Text
  pub sign : State → Text → List ℕ → Jwk → State × Outcome KeyStorageError (List ℕ)
  pub delete : State → Text → State × Outcome KeyStorageError (Unit {0})
  pub exists : State → Text → State × Outcome KeyStorageError Bool

pub record KeyIdStorage : Type 1 where
  pub State : Type 0
  pub insert_key_id : State → MethodDigest → Text → State × Outcome KeyIdStorageError (Unit {0})
  pub get_key_id : State → MethodDigest → State × Outcome KeyIdStorageError Text
  pub delete_key_id : State → MethodDigest → State × Outcome KeyIdStorageError (Unit {0})
