-- ===== src/Storage/DocumentExt/Succeeding.antt =====
-- `generate_method` of jwk_document_ext.rs where it succeeds: what each of its steps answered.
use zk_identity.Prelude.{◌≡◌, ◌∙◌, ap, sym, Option, some, Text, arith, Option-cases, inl, inr}
use zk_identity.Prelude.Outcome.{ok, panic, Outcome-Cases, ok_case, err_case, panic_case}
use zk_identity.Did.DidUrl
use zk_identity.Did.DidUrl.{DidUrl}
use zk_identity.Jose.Types.{JwsAlgorithm}
use zk_identity.Document.Method.{MethodScope, VerificationMethod}
use zk_identity.Document.Method.Material.{new_from_jwk}
use zk_identity.Document.CoreDocument.{CoreDocument, insert_method}
use zk_identity.Storage.Digest.{digest}
use zk_identity.Storage.Traits.{MethodDigest, JwkGenOutput, JwkStorage, KeyIdStorage}
use zk_identity.Storage.DocumentExt.Steps
use zk_identity.Storage.DocumentExt.{
  World, Env, StorageError, try_undo_key_generation, store_key_id, store_new_method, with_method,
  with_key, generate_method,
}

module _ {X : Type 0} (x : Env X) (K : JwkStorage) (I : KeyIdStorage) where
  -- the answers of the steps of a run from `w` to `w'` that returned a fragment
  pub record Run (w : World X K I) (key_type : Text) (alg : JwsAlgorithm) (given : Option Text)
      (scope : MethodScope) (fragment : Text) (w' : World X K I) : Type 0 where
    pub out : JwkGenOutput
    pub method : VerificationMethod X
    pub method_digest : MethodDigest
    pub keys : K.generate w.keys key_type alg ≡ (w'.keys, ok out)
    pub constructed : new_from_jwk x.material x.parser w.document.id out.jwk given ≡ ok method
    pub digested : digest x.hashes x.material method ≡ ok method_digest
    pub has_fragment : DidUrl.fragment method.id ≡ some fragment
    pub inserted : insert_method w.document method scope ≡ ok w'.document
    pub key_ids : I.insert_key_id w.key_ids method_digest out.key_id ≡ (w'.key_ids, ok tt)

  undo-fails :
      (w : World X K I) (key_id : Text) (source : StorageError) {f : Text} {w' : World X K I}
      → try_undo_key_generation x K I w key_id source ≡ (w', ok f)
      → ⊥
  unfolding try_undo_key_generation
  undo-fails w key_id source h = ground arith

  store_key_id-ok :
      (w : World X K I) (d : MethodDigest) (key_id : Text) (id : DidUrl) (fragment : Text)
      → {f : Text} {w' : World X K I} → store_key_id x K I w d key_id id fragment ≡ (w', ok f)
      → (I.insert_key_id w.key_ids d key_id ≡ (w'.key_ids, ok tt))
        × (w'.document ≡ w.document)
        × (w'.keys ≡ w.keys)
        × (fragment ≡ f)
  unfolding store_key_id
  store_key_id-ok w d key_id id fragment h =
      elim (Outcome-Cases (I.insert_key_id w.key_ids d key_id).1) [
        | ok_case tt e ↦ ground arith
        | panic_case e ↦ absurd (ground arith)
        | err_case a e ↦ absurd (undo-fails _ key_id _ (rw (e, store_key_id) at h))
      ]

  store_new_method-ok :
      (w : World X K I) (m : VerificationMethod X) (scope : MethodScope) (key_id : Text)
      → (d : MethodDigest) (fragment : Text) {f : Text} {w' : World X K I}
      → store_new_method x K I w m scope key_id d fragment ≡ (w', ok f)
      → (document : CoreDocument X) × (insert_method w.document m scope ≡ ok document)
        × (store_key_id x K I (record w { document = document }) d key_id m.id fragment
            ≡ (w', ok f))
  store_new_method-ok w m scope key_id d fragment h =
      elim (Outcome-Cases (insert_method w.document m scope)) [
        | ok_case document e ↦
            (document, e, rw (Steps.inserted x K I w m scope key_id d fragment e) at h)
        | err_case a e ↦ absurd (
            undo-fails w key_id _
              (rw (Steps.not_inserted x K I w m scope key_id d fragment e) at h))
        | panic_case e ↦ absurd (never e h)
      ]
    where
      never :
          {f : Text} {w' : World X K I}
          → insert_method w.document m scope ≡ panic
          → store_new_method x K I w m scope key_id d fragment ≡ (w', ok f)
          → ⊥
      never e h = unfold store_new_method in absurd (ground arith)

  with_method-ok :
      (w : World X K I) (m : VerificationMethod X) (scope : MethodScope) (key_id : Text)
      → {f : Text} {w' : World X K I} → with_method x K I w m scope key_id ≡ (w', ok f)
      → (d : MethodDigest) × (fragment : Text) × (digest x.hashes x.material m ≡ ok d)
        × (DidUrl.fragment m.id ≡ some fragment)
        × (store_new_method x K I w m scope key_id d fragment ≡ (w', ok f))
  unfolding with_method
  with_method-ok w m scope key_id h = elim (Outcome-Cases (digest x.hashes x.material m)) [
    | err_case a e ↦ absurd (ground arith)
    | panic_case e ↦ absurd (ground arith)
    | ok_case d e ↦ elim (Option-cases (DidUrl.fragment m.id)) [
      | inl none' ↦ absurd (ground arith)
      | inr (fragment, g) ↦ (d, fragment, e, g, rw (Steps.digested x K I w m scope key_id e g) at h)
    ]
  ]

  with_key-ok :
      (w : World X K I) (out : JwkGenOutput) (given : Option Text) (scope : MethodScope)
      → {f : Text} {w' : World X K I} → with_key x K I w out given scope ≡ (w', ok f)
      → (m : VerificationMethod X) × (new_from_jwk x.material x.parser w.document.id out.jwk given
          ≡ ok m)
        × (with_method x K I w m scope out.key_id ≡ (w', ok f))
  unfolding with_key
  with_key-ok w out given scope h =
      elim (Outcome-Cases (new_from_jwk x.material x.parser w.document.id out.jwk given)) [
        | err_case a e ↦
            absurd (
              undo-fails w out.key_id _ (rw (Steps.not_constructed x K I w out given scope e) at h))
        | panic_case e ↦ absurd (ground arith)
        | ok_case m e ↦ (m, e, rw (Steps.constructed x K I w out given scope e) at h)
      ]

  generate_method-ok :
      (w : World X K I) (key_type : Text) (alg : JwsAlgorithm) (given : Option Text)
      → (scope : MethodScope) {f : Text} {w' : World X K I}
      → generate_method x K I w key_type alg given scope ≡ (w', ok f)
      → (out : JwkGenOutput) × ((K.generate w.keys key_type alg).1 ≡ ok out)
        × (with_key x K I (record w { keys = (K.generate w.keys key_type alg).0 }) out given scope
            ≡ (w', ok f))
  unfolding generate_method
  generate_method-ok w key_type alg given scope h =
      elim (Outcome-Cases (K.generate w.keys key_type alg).1) [
        | err_case a e ↦ absurd (ground arith)
        | panic_case e ↦ absurd (ground arith)
        | ok_case out e ↦ (out, e, rw (Steps.generated x K I w key_type alg given scope e) at h)
      ]

  -- Every run of `generate_method` that returns a fragment went through all its steps.
  pub generate_method-Run :
      (w : World X K I) (key_type : Text) (alg : JwsAlgorithm) (given : Option Text)
      → (scope : MethodScope) {fragment : Text} {w' : World X K I}
      → generate_method x K I w key_type alg given scope ≡ (w', ok fragment)
      → Run w key_type alg given scope fragment w'
  generate_method-Run w key_type alg given scope {fragment} {w'} h =
      let w₁ : World X K I = record w { keys = (K.generate w.keys key_type alg).0 } in
      let (out, e, h₁) = generate_method-ok w key_type alg given scope h in
      let (m, em, h₂) = with_key-ok w₁ out given scope h₁ in
      let (d, f, ed, ef, h₃) = with_method-ok w₁ m scope out.key_id h₂ in
      let (document, ei, h₄) = store_new_method-ok w₁ m scope out.key_id d f h₃ in
      let (ek, same_document, same_keys, same_fragment) =
        store_key_id-ok (record w₁ { document = document }) d out.key_id m.id f h₄ in
      record {
        out = out;
        method = m;
        method_digest = d;
        keys = λ i. ((sym same_keys) i, e i);
        constructed = em;
        digested = ed;
        has_fragment = ef ∙ ap some same_fragment;
        inserted = ei ∙ ap ok (sym same_document);
        key_ids = ek;
      }
