-- ===== src/Storage/DocumentExt/Reverted.antt =====
-- What the error paths of `purge_method` of jwk_document_ext.rs give back.
use zk_identity.Prelude.{
  ◌≡◌, refl, ◌∙◌, ap, sym, subst, false, Option, none, some, List, Text, arith,
}
use zk_identity.Prelude.Outcome.{
  Outcome, ok, err, panic, Outcome-Cases, ok_case, err_case, panic_case,
}
use zk_identity.Core.OrderedSet
use zk_identity.Did.DidUrl.{DidUrl}
use zk_identity.Document.Method.{MethodScope, VerificationMethod, MethodRef, method_key}
use zk_identity.Document.CoreDocument.{CoreDocument, verification_relationships, insert_method}
use zk_identity.Document.CoreDocument.Constraints.{ref_with, embedded_with}
use zk_identity.Document.CoreDocument.Edit.{
  remove_method_and_scope, first_embedded, removed_refs, in_general,
}
use zk_identity.Document.CoreDocument.Invariant.{IsWellFormed}
use zk_identity.Document.CoreDocument.Removal.{in_methods}
use zk_identity.Document.CoreDocument.Removal.Complete.{
  is_some-removed, remove_method_and_scope_complete,
}
use zk_identity.Storage.Digest.{digest}
use zk_identity.Storage.Traits.{
  MethodDigest, KeyStorageError, KeyIdStorageError, JwkStorage, KeyIdStorage,
}
use zk_identity.Storage.DocumentExt.{
  World, Env, reinsert, restore_key_id, deletion_results, delete_both, with_digest, purge_removed,
  purge_method,
}

module _ {X : Type 0} (x : Env X) (K : JwkStorage) (I : KeyIdStorage) where
  abbrev relations : World X K I → List (MethodRef X)
  relations w = verification_relationships w.document

  abbrev general : MethodScope
  general = MethodScope.verification_method

  insert_general :
      (d : CoreDocument X) (m : VerificationMethod X) {e : CoreDocument X}
      → insert_method d m general ≡ ok e
      → verification_relationships e ≡ verification_relationships d
  unfolding insert_method
  insert_general d m h = ground arith

  reinsert-relations :
      (w : World X K I) (m : VerificationMethod X)
      → relations (reinsert x K I w m general) ≡ relations w
  unfolding reinsert
  reinsert-relations w m = elim (Outcome-Cases (insert_method w.document m general)) [
    | ok_case e h ↦ rw (h, reinsert) (insert_general w.document m h)
    | err_case a h ↦ rw (h, reinsert) refl
    | panic_case h ↦ rw (h, reinsert) refl
  ]

  restored-relations :
      (w : World X K I) (m : VerificationMethod X) (d : MethodDigest) (key_id : Text)
      → (k : KeyStorageError)
      → relations (restore_key_id x K I w m general d key_id k).0 ≡ relations w
  unfolding restore_key_id
  restored-relations w m d key_id k =
      let w' : World X K I = record w { key_ids = (I.insert_key_id w.key_ids d key_id).0 } in
      ground (arith, reinsert-relations w' m)

  results-relations :
      (w : World X K I) (m : VerificationMethod X) (d : MethodDigest) (key_id : Text)
      → (a : Outcome KeyStorageError (Unit {0})) (b : Outcome KeyIdStorageError (Unit {0}))
      → relations (deletion_results x K I w m general d key_id a b).0 ≡ relations w
  unfolding deletion_results
  results-relations w m d key_id (ok a) (ok b) = refl
  results-relations w m d key_id (ok a) (err e) = refl
  results-relations w m d key_id (ok a) panic = refl
  results-relations w m d key_id (err k) (ok b) = restored-relations w m d key_id k
  results-relations w m d key_id (err k) (err e) = reinsert-relations w m
  results-relations w m d key_id (err k) panic = refl
  results-relations w m d key_id panic b = refl

  delete_both-relations :
      (w : World X K I) (m : VerificationMethod X) (d : MethodDigest) (key_id : Text)
      → relations (delete_both x K I w m general d key_id).0 ≡ relations w
  unfolding delete_both
  delete_both-relations w m d key_id =
      results-relations
        (record w { keys = (K.delete w.keys key_id).0; key_ids = (I.delete_key_id w.key_ids d).0 })
        m d key_id (K.delete w.keys key_id).1 (I.delete_key_id w.key_ids d).1

  with_digest-relations :
      (w : World X K I) (m : VerificationMethod X) (d : MethodDigest)
      → relations (with_digest x K I w m general d).0 ≡ relations w
  unfolding with_digest
  with_digest-relations w m d =
      let w' : World X K I = record w { key_ids = (I.get_key_id w.key_ids d).0 } in
      elim (Outcome-Cases (I.get_key_id w.key_ids d).1) [
        | ok_case key_id h ↦ rw (h, with_digest) (delete_both-relations w' m d key_id)
        | err_case a h ↦ rw (h, with_digest) (reinsert-relations w' m)
        | panic_case h ↦ rw (h, with_digest) refl
      ]

  removed-relations :
      (w : World X K I) (found : Option (VerificationMethod X))
      → relations (purge_removed x K I w (in_general found)).0 ≡ relations w
  unfolding purge_removed
  removed-relations w none = refl
  removed-relations w (some m) = elim (Outcome-Cases (digest x.hashes x.material m)) [
    | ok_case d h ↦ rw (h, purge_removed) (with_digest-relations w m d)
    | err_case a h ↦ rw (h, purge_removed) (reinsert-relations w m)
    | panic_case h ↦ rw (h, purge_removed) refl
  ]

  -- Over any storages, and whether it succeeds or fails, `purge_method` on a well-formed document
  -- leaves no reference to a method that no relationship embeds: a method that it inserts again has
  -- lost the references to it.
  pub purge_method-relations :
      (w : World X K I) (id : DidUrl)
      → IsWellFormed w.document
      → embedded_with id (verification_relationships w.document) ≡ false
      → ref_with id (verification_relationships (purge_method x K I w id).0.document) ≡ false
  unfolding purge_method
  purge_method-relations w id well h =
      let document = (remove_method_and_scope w.document id).0 in
      let found = (OrderedSet.remove w.document.verification_method id).1 in
      let w' : World X K I = record w { document = document } in
      let e : first_embedded (removed_refs w.document id) ≡ none =
        ground (arith, is_some-removed w.document id well.keys) in
      let same : in_general found ≡ (remove_method_and_scope w.document id).1 =
        ap (λ p. p.1) (sym (in_methods w.document id e)) in
      ap (ref_with id) (
        subst (λ o. relations (purge_removed x K I w' o).0 ≡ relations w') same
          (removed-relations w' found))
      ∙ (remove_method_and_scope_complete w.document id well).0
