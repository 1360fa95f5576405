-- ===== src/Storage/DocumentExt.antt =====
-- `generate_method` and `purge_method` of identity_storage/src/storage/jwk_document_ext.rs: the macros
-- that both document types instantiate.
pub mod Steps
pub mod Succeeding
pub mod Failing
pub mod InMemory
pub mod Purge
pub mod Reverted
use zk_identity.Prelude.{Option, none, some, Text}
use zk_identity.Prelude.Outcome.{Outcome, ok, err, panic}
use zk_identity.Did.DidUrl
use zk_identity.Did.DidUrl.{DidUrl}
use zk_identity.Did.DidUrl.Join.{Parser}
use zk_identity.Jose.Types.{JwsAlgorithm}
use zk_identity.Document.Method.{MethodScope, VerificationMethod}
use zk_identity.Document.Method.Material.{Material, MethodError, missing_id_fragment, new_from_jwk}
use zk_identity.Document.CoreDocument.{CoreDocument, DocumentError, insert_method}
use zk_identity.Document.CoreDocument.Edit.{remove_method, remove_method_and_scope}
use zk_identity.Storage.Digest.{Hashes, DigestError, digest}
use zk_identity.Storage.Traits.{
  KeyStorageError, KeyIdStorageError, MethodDigest, JwkGenOutput, JwkStorage, KeyIdStorage,
}

-- `JwkStorageDocumentError`, the variants that these two return. `undo_operation_failed` is the one with
-- an `undo_error`, `not_undone` the one without.
pub data StorageError : Type 0 where
  key_storage_error : KeyStorageError → StorageError
  key_id_storage_error : KeyIdStorageError → StorageError
  fragment_already_exists method_not_found : StorageError
  verification_method_construction_error : MethodError → StorageError
  method_digest_construction_error : DigestError → StorageError
  undo_operation_failed : StorageError → StorageError → StorageError
  not_undone : StorageError → StorageError

-- the document and the two storages
pub record World (X : Type 0) (K : JwkStorage) (I : KeyIdStorage) : Type 0 where
  pub document : CoreDocument X
  pub keys : K.State
  pub key_ids : I.State

-- What the methods use: the parser, the hashes, and how a method's data stand in its material.
pub record Env (X : Type 0) : Type 0 where
  pub material : Material X
  pub parser : Parser
  pub hashes : Hashes

module _ {X : Type 0} (x : Env X) (K : JwkStorage) (I : KeyIdStorage) where
  -- `try_undo_key_generation`
  unfoldable pub try_undo_key_generation :
      World X K I → Text → StorageError → World X K I × Outcome StorageError Text
  try_undo_key_generation w key_id source =
      let (keys, deleted) = K.delete w.keys key_id in
      let w' : World X K I = record w { keys = keys } in
      elim deleted [
        | ok done ↦ (w', err source)
        | err e ↦ (w', err (undo_operation_failed source (key_storage_error e)))
        | panic ↦ (w', panic)
      ]

  -- the last part of `generate_method`, which stores the key id
  unfoldable pub store_key_id :
      World X K I → MethodDigest → Text → DidUrl → Text → World X K I × Outcome StorageError Text
  store_key_id w method_digest key_id method_id fragment =
      let (key_ids, inserted) = I.insert_key_id w.key_ids method_digest key_id in
      let w' : World X K I = record w { key_ids = key_ids } in
      elim inserted [
        | ok done ↦ (w', ok fragment)
        | err e ↦
            try_undo_key_generation
              (record w' { document = (remove_method w.document method_id).0 }) key_id
              (key_id_storage_error e)
        | panic ↦ (w', panic)
      ]

  -- the part that inserts the method
  unfoldable pub store_new_method :
      World X K I
      → VerificationMethod X
      → MethodScope
      → Text
      → MethodDigest
      → Text
      → World X K I × Outcome StorageError Text
  store_new_method w method scope key_id method_digest fragment =
      elim (insert_method w.document method scope) [
        | ok document ↦
            store_key_id (record w { document = document }) method_digest key_id method.id fragment
        | err e ↦ try_undo_key_generation w key_id fragment_already_exists
        | panic ↦ (w, panic)
      ]

  -- the part that extracts the digest and the fragment
  unfoldable pub with_method :
      World X K I
      → VerificationMethod X
      → MethodScope
      → Text
      → World X K I × Outcome StorageError Text
  with_method w method scope key_id = elim (digest x.hashes x.material method) [
    | err e ↦ (w, err (method_digest_construction_error e))
    | panic ↦ (w, panic)
    | ok method_digest ↦ elim (DidUrl.fragment method.id) [
      | none ↦ (w, err (verification_method_construction_error missing_id_fragment))
      | some fragment ↦ store_new_method w method scope key_id method_digest fragment
    ]
  ]

  -- what follows the generation of a key
  unfoldable pub with_key :
      World X K I
      → JwkGenOutput
      → Option Text
      → MethodScope
      → World X K I × Outcome StorageError Text
  with_key w out fragment scope =
      elim (new_from_jwk x.material x.parser w.document.id out.jwk fragment) [
        | err source ↦
            try_undo_key_generation w out.key_id (verification_method_construction_error source)
        | panic ↦ (w, panic)
        | ok method ↦ with_method w method scope out.key_id
      ]

  unfoldable pub generate_method :
      World X K I
      → Text
      → JwsAlgorithm
      → Option Text
      → MethodScope
      → World X K I × Outcome StorageError Text
  generate_method w key_type alg fragment scope =
      let (keys, generated) = K.generate w.keys key_type alg in
      let w' : World X K I = record w { keys = keys } in
      elim generated [
        | err e ↦ (w', err (key_storage_error e))
        | panic ↦ (w', panic)
        | ok out ↦ with_key w' out fragment scope
      ]

  -- `let _ = document.insert_method(method, scope)`
  unfoldable pub reinsert : World X K I → VerificationMethod X → MethodScope → World X K I
  reinsert w method scope = elim (insert_method w.document method scope) [
    | ok document ↦ record w { document = document }
    | err e ↦ w
    | panic ↦ w
  ]

  -- The error path of `purge_method` where the key was not deleted and the key id was.
  unfoldable pub restore_key_id :
      World X K I
      → VerificationMethod X
      → MethodScope
      → MethodDigest
      → Text
      → KeyStorageError
      → World X K I × Outcome StorageError (Unit {0})
  restore_key_id w method scope method_digest key_id key_deletion_error =
      let (key_ids, inserted) = I.insert_key_id w.key_ids method_digest key_id in
      let w' : World X K I = record w { key_ids = key_ids } in
      elim inserted [
        | ok done ↦ (reinsert w' method scope, err (key_storage_error key_deletion_error))
        | err e ↦ (
          w',
          err (
              undo_operation_failed (key_storage_error key_deletion_error)
                (key_id_storage_error e)),
        )
        | panic ↦ (w', panic)
      ]

  -- the `match` on the results of the two deletions
  unfoldable pub deletion_results :
      World X K I
      → VerificationMethod X
      → MethodScope
      → MethodDigest
      → Text
      → Outcome KeyStorageError (Unit {0})
      → Outcome KeyIdStorageError (Unit {0})
      → World X K I × Outcome StorageError (Unit {0})
  deletion_results w method scope method_digest key_id (ok a) (ok b) = (w, ok tt)
  deletion_results w method scope method_digest key_id (ok a) (err e) =
      (w, err (not_undone (key_id_storage_error e)))
  deletion_results w method scope method_digest key_id (err k) (ok b) =
      restore_key_id w method scope method_digest key_id k
  deletion_results w method scope method_digest key_id (err k) (err e) =
      (reinsert w method scope, err (key_id_storage_error e))
  deletion_results w method scope method_digest key_id panic deleted = (w, panic)
  deletion_results w method scope method_digest key_id (ok a) panic = (w, panic)
  deletion_results w method scope method_digest key_id (err k) panic = (w, panic)

  -- The two futures run on two storages, so their order does not show.
  unfoldable pub delete_both :
      World X K I
      → VerificationMethod X
      → MethodScope
      → MethodDigest
      → Text
      → World X K I × Outcome StorageError (Unit {0})
  delete_both w method scope method_digest key_id =
      let (keys, key_deleted) = K.delete w.keys key_id in
      let (key_ids, key_id_deleted) = I.delete_key_id w.key_ids method_digest in
      deletion_results (record w { keys = keys; key_ids = key_ids }) method scope method_digest
        key_id key_deleted key_id_deleted

  -- the part of `purge_method` that obtains the key id
  unfoldable pub with_digest :
      World X K I
      → VerificationMethod X
      → MethodScope
      → MethodDigest
      → World X K I × Outcome StorageError (Unit {0})
  with_digest w method scope method_digest =
      let (key_ids, found) = I.get_key_id w.key_ids method_digest in
      let w' : World X K I = record w { key_ids = key_ids } in
      elim found [
        | ok key_id ↦ delete_both w' method scope method_digest key_id
        | err e ↦ (reinsert w' method scope, err (key_id_storage_error e))
        | panic ↦ (w', panic)
      ]

  -- what follows the removal of the method
  unfoldable pub purge_removed :
      World X K I
      → Option (VerificationMethod X × MethodScope)
      → World X K I × Outcome StorageError (Unit {0})
  purge_removed w none = (w, err method_not_found)
  purge_removed w (some (method, scope)) = elim (digest x.hashes x.material method) [
    | ok method_digest ↦ with_digest w method scope method_digest
    | err e ↦ (reinsert w method scope, err (method_digest_construction_error e))
    | panic ↦ (w, panic)
  ]

  unfoldable pub purge_method : World X K I → DidUrl → World X K I × Outcome StorageError (Unit {0})
  purge_method w id =
      let (document, removed) = remove_method_and_scope w.document id in
      purge_removed (record w { document = document }) removed
