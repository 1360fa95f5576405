-- ===== src/Storage/DocumentExt/Failing.antt =====
-- `generate_method` of jwk_document_ext.rs where it fails.
use zk_identity.Prelude.{
  ◌≡◌, refl, ◌∙◌, ap, sym, subst, true, false, Option, none, some, Text, arith, is_some,
  Option-cases, inl, inr,
}
use zk_identity.Prelude.Outcome.{ok, err, Outcome-Cases, ok_case, err_case, panic_case}
use zk_identity.Did.Chars.{is_empty, or_empty}
use zk_identity.Did.CoreDid.{BaseDidUrl}
use zk_identity.Did.DidUrl
use zk_identity.Did.DidUrl.{DidUrl, CoreDid}
use zk_identity.Did.DidUrl.Join.{Parser}
use zk_identity.Jose.Types.{JwsAlgorithm}
use zk_identity.Document.Method.{MethodScope, VerificationMethod}
use zk_identity.Document.Method.Material.{new_from_jwk}
use zk_identity.Document.Method.Material.Public.{new_from_jwk-parts}
use zk_identity.Document.Query.Printed.{IsDid}
use zk_identity.Document.CoreDocument.{CoreDocument, insert_method}
use zk_identity.Document.CoreDocument.Edit.{remove_method}
use zk_identity.Document.CoreDocument.Insertion.{IsClosed, IsIdentifier}
use zk_identity.Document.CoreDocument.Insertion.Undo.{remove_method_and_scope-insert_method}
use zk_identity.Storage.Digest.{digest}
use zk_identity.Storage.Traits.{MethodDigest, JwkGenOutput, JwkStorage, KeyIdStorage}
use zk_identity.Storage.DocumentExt.Steps.{
  generated, constructed, not_constructed, digested, inserted, not_inserted,
}
use zk_identity.Storage.DocumentExt.{
  World, Env, StorageError, fragment_already_exists, key_id_storage_error,
  verification_method_construction_error, try_undo_key_generation, store_key_id, store_new_method,
  with_method, with_key, generate_method,
}

-- The DIDs that the parser answers start with `did:` and hold no delimiter of a DID Url.
pub record IsParser (p : Parser) : Type 0 where
  pub plain : (b : BaseDidUrl) → IsDid (record { as_str = p.cleared_text b })

-- what a constructed method has as its identifier
pub new_from_jwk-IsIdentifier :
    {X : Type 0} (x : Env X)
    → IsParser x.parser
    → (did : CoreDid) (out : JwkGenOutput) (fragment : Option Text) {m : VerificationMethod X}
    → new_from_jwk x.material x.parser did out.jwk fragment ≡ ok m
    → IsIdentifier m.id
new_from_jwk-IsIdentifier x law did out fragment {m} h =
    let (public, material, controller, valid, nonempty, (b, text)) =
      new_from_jwk-parts x.material x.parser did out.jwk fragment h in
    record {
      did = subst (λ s. IsDid (record { as_str = s })) (sym text) (law.plain b);
      url = valid;
      has_fragment = there (DidUrl.fragment m.id) nonempty;
    }
  where
    there : (f : Option Text) → is_empty (or_empty f) ≡ false → is_some f ≡ true
    there none h = cc
    there (some f) h = refl

module _ {X : Type 0} (x : Env X) (K : JwkStorage) (I : KeyIdStorage) where
  undo-document :
      (w : World X K I) (key_id : Text) (source : StorageError)
      → (try_undo_key_generation x K I w key_id source).0.document ≡ w.document
  unfolding try_undo_key_generation
  undo-document w key_id source = ground arith

  store_key_id-failed :
      (w : World X K I) (d : MethodDigest) (key_id : Text) (method_id : DidUrl) (fragment : Text)
      → {e : StorageError} → (store_key_id x K I w d key_id method_id fragment).1 ≡ err e
      → (store_key_id x K I w d key_id method_id fragment).0.document
        ≡ (remove_method w.document method_id).0
  unfolding store_key_id
  store_key_id-failed w d key_id method_id fragment h =
      let w' : World X K I = record w {
        key_ids = (I.insert_key_id w.key_ids d key_id).0;
        document = (remove_method w.document method_id).0;
      } in
      elim (Outcome-Cases (I.insert_key_id w.key_ids d key_id).1) [
        | ok_case a e ↦ absurd (ground arith)
        | panic_case e ↦ absurd (ground arith)
        | err_case a e ↦ ground (arith, undo-document w' key_id (key_id_storage_error a))
      ]

  removed_document :
      (d : CoreDocument X) (m : VerificationMethod X) (scope : MethodScope) {e : CoreDocument X}
      → IsClosed d
      → IsIdentifier m.id
      → insert_method d m scope ≡ ok e
      → (remove_method e m.id).0 ≡ d
  unfolding remove_method
  removed_document d m scope closed i h =
      ap (λ p. p.0) (remove_method_and_scope-insert_method d m scope closed i h)

  store_new_method-failed :
      (w : World X K I) (m : VerificationMethod X) (scope : MethodScope) (key_id : Text)
      → (d : MethodDigest) (fragment : Text) → IsClosed w.document
      → IsIdentifier m.id
      → {e : StorageError} → (store_new_method x K I w m scope key_id d fragment).1 ≡ err e
      → (store_new_method x K I w m scope key_id d fragment).0.document ≡ w.document
  unfolding store_new_method
  store_new_method-failed w m scope key_id d fragment closed i h =
      elim (Outcome-Cases (insert_method w.document m scope)) [
        | ok_case doc e ↦
            let w' : World X K I = record w { document = doc } in
            let step = inserted x K I w m scope key_id d fragment e in
            rw step (
              store_key_id-failed w' d key_id m.id fragment (rw step at h)
              ∙ removed_document w.document m scope closed i e)
        | err_case a e ↦
            rw (not_inserted x K I w m scope key_id d fragment e)
              (undo-document w key_id fragment_already_exists)
        | panic_case e ↦ absurd (ground arith)
      ]

  with_method-failed :
      (w : World X K I) (m : VerificationMethod X) (scope : MethodScope) (key_id : Text)
      → IsClosed w.document
      → IsIdentifier m.id
      → {e : StorageError} → (with_method x K I w m scope key_id).1 ≡ err e
      → (with_method x K I w m scope key_id).0.document ≡ w.document
  unfolding with_method
  with_method-failed w m scope key_id closed i h =
      elim (Outcome-Cases (digest x.hashes x.material m)) [
        | err_case a e ↦ rw (e, with_method) refl
        | panic_case e ↦ rw (e, with_method) refl
        | ok_case d e ↦ elim (Option-cases (DidUrl.fragment m.id)) [
          | inl f ↦ rw (e, f, with_method) refl
          | inr (fragment, f) ↦
              let step = digested x K I w m scope key_id e f in
              rw step (store_new_method-failed w m scope key_id d fragment closed i (rw step at h))
        ]
      ]

  with_key-failed :
      (w : World X K I) (out : JwkGenOutput) (fragment : Option Text) (scope : MethodScope)
      → IsParser x.parser
      → IsClosed w.document
      → {e : StorageError} → (with_key x K I w out fragment scope).1 ≡ err e
      → (with_key x K I w out fragment scope).0.document ≡ w.document
  unfolding with_key
  with_key-failed w out fragment scope law closed h =
      elim (Outcome-Cases (new_from_jwk x.material x.parser w.document.id out.jwk fragment)) [
        | err_case a e ↦
            rw (not_constructed x K I w out fragment scope e)
              (undo-document w out.key_id (verification_method_construction_error a))
        | panic_case e ↦ rw (e, with_key) refl
        | ok_case m e ↦
            let step = constructed x K I w out fragment scope e in
            rw step (
              with_method-failed w m scope out.key_id closed
                (new_from_jwk-IsIdentifier x law w.document.id out fragment e) (rw step at h))
      ]

  -- Over any storages, `generate_method` that returns an error, at whichever step, leaves the document
  -- as it was, if every reference in it resolves.
  pub generate_method-failed :
      (w : World X K I) (key_type : Text) (alg : JwsAlgorithm) (fragment : Option Text)
      → (scope : MethodScope) → IsParser x.parser
      → IsClosed w.document
      → {e : StorageError} → (generate_method x K I w key_type alg fragment scope).1 ≡ err e
      → (generate_method x K I w key_type alg fragment scope).0.document ≡ w.document
  unfolding generate_method
  generate_method-failed w key_type alg fragment scope law closed h =
      let w' : World X K I = record w { keys = (K.generate w.keys key_type alg).0 } in
      elim (Outcome-Cases (K.generate w.keys key_type alg).1) [
        | err_case a e ↦ rw (e, generate_method) refl
        | panic_case e ↦ rw (e, generate_method) refl
        | ok_case out e ↦
            let step = generated x K I w key_type alg fragment scope e in
            rw step (with_key-failed w' out fragment scope law closed (rw step at h))
      ]
