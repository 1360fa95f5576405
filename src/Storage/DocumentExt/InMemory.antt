-- ===== src/Storage/DocumentExt/InMemory.antt =====
-- `generate_method` and `purge_method` of jwk_document_ext.rs over the two in-memory storages.
use zk_identity.Prelude.{
  ◌≡◌, refl, ◌∙◌, ap, subst, Option, none, some, Text, arith, text_eqb, text_eqb_refl, text_eq,
  if◌then◌else◌, Option-cases, inl, inr,
}
use zk_identity.Prelude.HashMap
use zk_identity.Prelude.HashMap.{HashMap, get-cong, get-insert, get-remove, removed-eq-get}
use zk_identity.Prelude.Outcome.{ok, Outcome-Cases, ok_case, err_case, panic_case}
use zk_identity.Did.DidUrl
use zk_identity.Did.DidUrl.{DidUrl}
use zk_identity.Jose.Types.{JwsAlgorithm}
use zk_identity.Jose.Jwk.{Jwk, to_public}
use zk_identity.Document.Method.{MethodScope}
use zk_identity.Document.CoreDocument.Insertion.{IsClosed}
use zk_identity.Document.CoreDocument.Insertion.Undo.{remove_method_and_scope-insert_method}
use zk_identity.Storage.Digest.{Hashes}
use zk_identity.Storage.Traits.{MethodDigest, JwkGenOutput}
use zk_identity.Storage.JwkMemStore
use zk_identity.Storage.JwkMemStore.{
  Crypto, MemStore, Draw, mem_store, generate_with, generate_checks, generated_jwk,
}
use zk_identity.Storage.KeyIdMemstore.{
  KeyIdStore, digest_eq, digest_eqb_refl, insert_key_id, get_key_id, delete_key_id,
  key_id_mem_store,
}
use zk_identity.Storage.DocumentExt.Purge
use zk_identity.Storage.DocumentExt.Failing.{IsParser, new_from_jwk-IsIdentifier}
use zk_identity.Storage.DocumentExt.Succeeding.{Run, generate_method-Run}
use zk_identity.Storage.DocumentExt.{World, Env, generate_method, purge_method}

insert_key_id-ok :
    (s : KeyIdStore) (d : MethodDigest) (key_id : Text) {s' : KeyIdStore}
    → insert_key_id s d key_id ≡ (s', ok tt)
    → (HashMap.get s d ≡ none) × (HashMap.insert s d key_id ≡ s')
unfolding insert_key_id
insert_key_id-ok s d key_id h = ground arith

get_inserted :
    (s : KeyIdStore) (d : MethodDigest) (key_id : Text)
    → HashMap.get (HashMap.insert s d key_id) d ≡ some key_id
get_inserted s d key_id = get-insert s d key_id d ∙ rw (digest_eqb_refl d) refl

get_key_id-ok :
    (s : KeyIdStore) (d : MethodDigest) (key_id : Text)
    → get_key_id (HashMap.insert s d key_id) d ≡ (HashMap.insert s d key_id, ok key_id)
unfolding get_key_id
get_key_id-ok s d key_id = rw (get_inserted s d key_id) refl

delete_key_id-ok :
    (s : KeyIdStore) (d : MethodDigest) (key_id : Text)
    → delete_key_id (HashMap.insert s d key_id) d
      ≡ ((HashMap.remove (HashMap.insert s d key_id) d).0, ok tt)
unfolding delete_key_id
delete_key_id-ok s d key_id =
    rw (removed-eq-get (HashMap.insert s d key_id) d, get_inserted s d key_id) refl

generate_with-ok :
    (h : Hashes) (c : Crypto) (s : MemStore) (draw : Draw) (alg : JwsAlgorithm)
    → {s' : MemStore} {out : JwkGenOutput} → generate_with h c s draw alg ≡ (s', ok out)
    → (jwk : Jwk) × (s'.jwk_store ≡ HashMap.insert s.jwk_store out.key_id jwk)
      × (out.key_id ≡ draw.key_id)
unfolding generate_with
generate_with-ok h c s draw alg e = elim (Option-cases draw.keys) [
  | inl k ↦ absurd (ground arith)
  | inr (pair, k) ↦ elim (Option-cases (to_public (generated_jwk h c pair alg))) [
    | inl none' ↦ absurd (ground arith)
    | inr (public, l) ↦ (generated_jwk h c pair alg, ground arith, ground arith)
  ]
]

-- what a successful `generate` stores
generate-ok :
    (h : Hashes) (c : Crypto) (s : MemStore) (key_type : Text) (alg : JwsAlgorithm)
    → {s' : MemStore} {out : JwkGenOutput} → JwkMemStore.generate h c s key_type alg ≡ (s', ok out)
    → (jwk : Jwk) × (s'.jwk_store ≡ HashMap.insert s.jwk_store out.key_id jwk)
      × (out.key_id ≡ (c.draws s.drawn).key_id)
unfolding JwkMemStore.generate
generate-ok h c s key_type alg e = elim (Outcome-Cases (generate_checks key_type alg)) [
  | ok_case done k ↦
      generate_with-ok h c s (c.draws s.drawn) alg (rw (k, JwkMemStore.generate) at e)
  | err_case a k ↦ absurd (ground arith)
  | panic_case k ↦ absurd (ground arith)
]

delete-ok :
    (s : MemStore) (key_id : Text) {jwk : Jwk}
    → HashMap.get s.jwk_store key_id ≡ some jwk
    → JwkMemStore.delete s key_id
      ≡ (record s { jwk_store = (HashMap.remove s.jwk_store key_id).0 }, ok tt)
unfolding JwkMemStore.delete
delete-ok s key_id e = rw (removed-eq-get s.jwk_store key_id, e) refl

module _ {X : Type 0} (x : Env X) (c : Crypto) where
  abbrev Memory : Type 0
  Memory = World X (mem_store x.hashes c) key_id_mem_store

  -- purging what a run of `generate_method` made
  purge-Run :
      (w w' : Memory) (key_type : Text) (alg : JwsAlgorithm) (given : Option Text)
      → (scope : MethodScope) (fragment : Text) → IsParser x.parser
      → IsClosed w.document
      → (r : Run x (mem_store x.hashes c) key_id_mem_store w key_type alg given scope fragment w')
      → purge_method x (mem_store x.hashes c) key_id_mem_store w' r.method.id ≡ (
        record {
          document = w.document;
          keys = record w'.keys { jwk_store = (HashMap.remove w'.keys.jwk_store r.out.key_id).0 };
          key_ids = (HashMap.remove w'.key_ids r.method_digest).0;
        },
        ok tt,
      )
  purge-Run w w' key_type alg given scope fragment law closed r =
      let K = mem_store x.hashes c in
      let I = key_id_mem_store in
      let i = new_from_jwk-IsIdentifier x law w.document.id r.out given r.constructed in
      let gone =
        remove_method_and_scope-insert_method w.document r.method scope closed i r.inserted in
      let (jwk, stored, drawn) = generate-ok x.hashes c w.keys key_type alg r.keys in
      let (fresh, added) = insert_key_id-ok w.key_ids r.method_digest r.out.key_id r.key_ids in
      let w₁ : Memory = record w' { document = w.document } in
      let d = r.method_digest in
      let key_id = r.out.key_id in
      let got : get_key_id w'.key_ids d ≡ (w'.key_ids, ok key_id) =
        subst (λ ids. get_key_id ids d ≡ (ids, ok key_id)) added
          (get_key_id-ok w.key_ids d key_id) in
      let gone_id : delete_key_id w'.key_ids d ≡ ((HashMap.remove w'.key_ids d).0, ok tt) =
        subst (λ ids. delete_key_id ids d ≡ ((HashMap.remove ids d).0, ok tt)) added
          (delete_key_id-ok w.key_ids d key_id) in
      let there : HashMap.get w'.keys.jwk_store key_id ≡ some jwk =
        ap (λ m. HashMap.get m key_id) stored
        ∙ get-insert w.keys.jwk_store key_id jwk key_id
        ∙ rw (text_eqb_refl key_id) refl in
      Purge.removed x K I w' r.method.id gone r.digested
      ∙ Purge.found x K I w₁ r.method scope d got
      ∙ Purge.deleted x K I w₁ r.method scope d key_id (delete-ok w'.keys key_id there) gone_id

  key_ids-restored :
      (s : KeyIdStore) (d : MethodDigest) (key_id : Text)
      → HashMap.get s d ≡ none
      → (k : MethodDigest)
      → HashMap.get (HashMap.remove (HashMap.insert s d key_id) d).0 k ≡ HashMap.get s k
  key_ids-restored s d key_id fresh k =
      ground
        (arith, get-remove (HashMap.insert s d key_id) d k, get-insert s d key_id k, get-cong s d k)

  keys-restored :
      (s : HashMap Text Jwk) (key_id : Text) (jwk : Jwk) (k : Text)
      → HashMap.get (HashMap.remove (HashMap.insert s key_id jwk) key_id).0 k
        ≡ (if text_eqb key_id k then none else HashMap.get s k)
  keys-restored s key_id jwk k =
      ground (arith, get-remove (HashMap.insert s key_id jwk) key_id k, get-insert s key_id jwk k)

  keys_then :
      (s : HashMap Text Jwk) (key_id : Text) (jwk : Jwk) (k : Text)
      → {s' : HashMap Text Jwk} {drawn : Text} → s' ≡ HashMap.insert s key_id jwk
      → key_id ≡ drawn
      → HashMap.get (HashMap.remove s' key_id).0 k
        ≡ (if text_eqb drawn k then none else HashMap.get s k)
  keys_then s key_id jwk k stored e =
      ap (λ m. HashMap.get (HashMap.remove m key_id).0 k) stored
      ∙ keys-restored s key_id jwk k
      ∙ ap (λ t. if text_eqb t k then none else HashMap.get s k) e

  -- A method that `generate_method` made is undone by `purge_method`: when a run over the in-memory
  -- storages, on a document in which every reference resolves, returns a fragment, then there is an
  -- identifier with that fragment whose purge succeeds, gives the document back, leaves under every
  -- digest the key id that was there, and under every key id the key that was there, but none under
  -- the one that was drawn.
  pub purge_method-generate_method :
      (w : Memory) (key_type : Text) (alg : JwsAlgorithm) (given : Option Text)
      → (scope : MethodScope) {fragment : Text} {w' : Memory} → IsParser x.parser
      → IsClosed w.document
      → generate_method x (mem_store x.hashes c) key_id_mem_store w key_type alg given scope
        ≡ (w', ok fragment)
      → (id : DidUrl) × (w'' : Memory) × (DidUrl.fragment id ≡ some fragment)
        × (purge_method x (mem_store x.hashes c) key_id_mem_store w' id ≡ (w'', ok tt))
        × (w''.document ≡ w.document)
        × ((d : MethodDigest) → HashMap.get w''.key_ids d ≡ HashMap.get w.key_ids d)
        × ((k : Text)
            → HashMap.get w''.keys.jwk_store k ≡ (
                if text_eqb (c.draws w.keys.drawn).key_id k
                then none
                else HashMap.get w.keys.jwk_store k))
  purge_method-generate_method w key_type alg given scope {fragment} {w'} law closed h =
      let r =
        generate_method-Run x (mem_store x.hashes c) key_id_mem_store w key_type alg given scope
          h in
      let (jwk, stored, drawn) = generate-ok x.hashes c w.keys key_type alg r.keys in
      let (fresh, added) = insert_key_id-ok w.key_ids r.method_digest r.out.key_id r.key_ids in
      (
        r.method.id,
        _,
        r.has_fragment,
        purge-Run w w' key_type alg given scope fragment law closed r,
        refl,
        (λ d.
            subst
              (λ ids.
                HashMap.get (HashMap.remove ids r.method_digest).0 d ≡ HashMap.get w.key_ids d)
              added (key_ids-restored w.key_ids r.method_digest r.out.key_id fresh d)),
        (λ k. keys_then w.keys.jwk_store r.out.key_id jwk k stored drawn),
      )
