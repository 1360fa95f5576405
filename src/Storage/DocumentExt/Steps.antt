-- ===== src/Storage/DocumentExt/Steps.antt =====
-- The steps of `generate_method` and `purge_method` of jwk_document_ext.rs, one equation for each way
-- to go on.
use zk_identity.Prelude.{◌≡◌, refl, Option, some, Text}
use zk_identity.Prelude.Outcome.{ok, err}
use zk_identity.Did.DidUrl
use zk_identity.Did.DidUrl.{DidUrl}
use zk_identity.Jose.Types.{JwsAlgorithm}
use zk_identity.Document.Method.{MethodScope, VerificationMethod}
use zk_identity.Document.Method.Material.{MethodError, new_from_jwk}
use zk_identity.Document.CoreDocument.{CoreDocument, DocumentError, insert_method}
use zk_identity.Storage.Digest.{digest}
use zk_identity.Storage.Traits.{MethodDigest, JwkGenOutput, JwkStorage, KeyIdStorage}
use zk_identity.Storage.DocumentExt.{
  World, Env, fragment_already_exists, verification_method_construction_error,
  try_undo_key_generation, store_key_id, store_new_method, with_method, with_key, generate_method,
}

module _ {X : Type 0} (x : Env X) (K : JwkStorage) (I : KeyIdStorage) (w : World X K I) where
  pub generated :
      (key_type : Text) (alg : JwsAlgorithm) (fragment : Option Text) (scope : MethodScope)
      → {out : JwkGenOutput} → (K.generate w.keys key_type alg).1 ≡ ok out
      → generate_method x K I w key_type alg fragment scope
        ≡ with_key x K I (record w { keys = (K.generate w.keys key_type alg).0 }) out fragment scope
  unfolding generate_method
  generated key_type alg fragment scope e = rw (e, generate_method) refl

  pub constructed :
      (out : JwkGenOutput) (fragment : Option Text) (scope : MethodScope)
      → {m : VerificationMethod X}
      → new_from_jwk x.material x.parser w.document.id out.jwk fragment ≡ ok m
      → with_key x K I w out fragment scope ≡ with_method x K I w m scope out.key_id
  unfolding with_key
  constructed out fragment scope e = rw (e, with_key) refl

  pub not_constructed :
      (out : JwkGenOutput) (fragment : Option Text) (scope : MethodScope)
      → {source : MethodError}
      → new_from_jwk x.material x.parser w.document.id out.jwk fragment ≡ err source
      → with_key x K I w out fragment scope
        ≡ try_undo_key_generation x K I w out.key_id (verification_method_construction_error source)
  unfolding with_key
  not_constructed out fragment scope e = rw (e, with_key) refl

  pub digested :
      (m : VerificationMethod X) (scope : MethodScope) (key_id : Text)
      → {d : MethodDigest} {fragment : Text} → digest x.hashes x.material m ≡ ok d
      → DidUrl.fragment m.id ≡ some fragment
      → with_method x K I w m scope key_id ≡ store_new_method x K I w m scope key_id d fragment
  unfolding with_method
  digested m scope key_id e f = rw (e, f, with_method) refl

  pub inserted :
      (m : VerificationMethod X) (scope : MethodScope) (key_id : Text)
      → (d : MethodDigest) (fragment : Text) {document : CoreDocument X}
      → insert_method w.document m scope ≡ ok document
      → store_new_method x K I w m scope key_id d fragment
        ≡ store_key_id x K I (record w { document = document }) d key_id m.id fragment
  unfolding store_new_method
  inserted m scope key_id d fragment e = rw (e, store_new_method) refl

  pub not_inserted :
      (m : VerificationMethod X) (scope : MethodScope) (key_id : Text)
      → (d : MethodDigest) (fragment : Text) {source : DocumentError}
      → insert_method w.document m scope ≡ err source
      → store_new_method x K I w m scope key_id d fragment
        ≡ try_undo_key_generation x K I w key_id fragment_already_exists
  unfolding store_new_method
  not_inserted m scope key_id d fragment e = rw (e, store_new_method) refl
