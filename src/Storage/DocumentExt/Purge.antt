-- ===== src/Storage/DocumentExt/Purge.antt =====
-- `purge_method` of jwk_document_ext.rs where all its steps succeed.
use zk_identity.Prelude.{◌≡◌, refl, ap, ◌∙◌, Option, some, Text}
use zk_identity.Prelude.Outcome.{Outcome, ok, err}
use zk_identity.Did.DidUrl.{DidUrl}
use zk_identity.Document.Method.{MethodScope, VerificationMethod}
use zk_identity.Document.CoreDocument.{CoreDocument}
use zk_identity.Document.CoreDocument.Edit.{remove_method_and_scope}
use zk_identity.Storage.Digest.{digest}
use zk_identity.Storage.Traits.{MethodDigest, KeyIdStorageError, JwkStorage, KeyIdStorage}
use zk_identity.Storage.DocumentExt.{
  World, Env, key_id_storage_error, reinsert, with_digest, purge_removed, purge_method, delete_both,
  deletion_results,
}

module _ {X : Type 0} (x : Env X) (K : JwkStorage) (I : KeyIdStorage) (w : World X K I) where
  pub removed :
      (id : DidUrl) {document : CoreDocument X} {m : VerificationMethod X} {scope : MethodScope}
      → {d : MethodDigest} → remove_method_and_scope w.document id ≡ (document, some (m, scope))
      → digest x.hashes x.material m ≡ ok d
      → purge_method x K I w id ≡ with_digest x K I (record w { document = document }) m scope d
  unfolding purge_method purge_removed
  removed id e f =
      ap
        (λ (p : CoreDocument X × Option (VerificationMethod X × MethodScope)).
          purge_removed x K I (record w { document = p.0 }) p.1)
        e
      ∙ rw (f, purge_removed) refl

  pub found :
      (m : VerificationMethod X) (scope : MethodScope) (d : MethodDigest)
      → {key_ids : I.State} {key_id : Text} → I.get_key_id w.key_ids d ≡ (key_ids, ok key_id)
      → with_digest x K I w m scope d
        ≡ delete_both x K I (record w { key_ids = key_ids }) m scope d key_id
  unfolding with_digest
  found m scope d {key_id} e =
      rw (ap (λ p. p.1) e, with_digest)
        (ap
          (λ (p : I.State × Outcome KeyIdStorageError Text).
            delete_both x K I (record w { key_ids = p.0 }) m scope d key_id)
          e)

  pub not_found :
      (m : VerificationMethod X) (scope : MethodScope) (d : MethodDigest)
      → {key_ids : I.State} {kind : KeyIdStorageError}
      → I.get_key_id w.key_ids d ≡ (key_ids, err kind)
      → with_digest x K I w m scope d
        ≡ (reinsert x K I (record w { key_ids = key_ids }) m scope, err (key_id_storage_error kind))
  unfolding with_digest
  not_found m scope d {kind} e =
      rw (ap (λ p. p.1) e, with_digest)
        (ap
          (λ (p : I.State × Outcome KeyIdStorageError Text).
            (reinsert x K I (record w { key_ids = p.0 }) m scope, err (key_id_storage_error kind)))
          e)

  pub deleted :
      (m : VerificationMethod X) (scope : MethodScope) (d : MethodDigest) (key_id : Text)
      → {keys : K.State} {key_ids : I.State} → K.delete w.keys key_id ≡ (keys, ok tt)
      → I.delete_key_id w.key_ids d ≡ (key_ids, ok tt)
      → delete_both x K I w m scope d key_id ≡ (record w { keys = keys; key_ids = key_ids }, ok tt)
  unfolding delete_both deletion_results
  deleted m scope d key_id e f = rw (e, f, delete_both) refl
