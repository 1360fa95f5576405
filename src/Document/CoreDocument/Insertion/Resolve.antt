-- ===== src/Document/CoreDocument/Insertion/Resolve.antt =====
-- `resolve_method` of core_document.rs after `insert_method`.
use mathlib.Core.List.{append-nil}
use zk_identity.Prelude.{
  ◌≡◌, refl, sym, ap, ◌∙◌, subst, true, false, Option, none, some, [], ◌∷◌, ◌++◌, Text, any, All,
  is_some, find, find-All, find-append, find-insert, All-insert, All-imp, find-absent, find-skip,
  or_else, inl, inr, Option-cases,
}
use zk_identity.Prelude.Outcome.{ok}
use zk_identity.Did.DidUrl
use zk_identity.Did.DidUrl.{DidUrl, url_eqb_refl}
use zk_identity.Document.Query.{matches}
use zk_identity.Document.Method.{
  MethodRelationship, MethodScope, verification_relationship, VerificationMethod, MethodRef, embed,
  refer, method_key, ref_key,
}
use zk_identity.Document.CoreDocument.{
  CoreDocument, verification_relationships, query, first_ref, resolve_method_ref, resolve_method,
  store_method, insert_method,
}
use zk_identity.Document.CoreDocument.Invariant.{Extends, related-Extends}
use zk_identity.Document.CoreDocument.Insertion.{
  IsIdentifier, IsClosed, IsFree, asked, matches-equal, first_ref-find, resolve-unreferenced,
  resolve-referenced, insert_method-IsFree,
}
use zk_identity.Document.CoreDocument.Insertion.Preserves.{stored_method, stored_ref, unrelated}

module _ {X : Type 0} where
  stored_ref-Extends :
      (d : CoreDocument X) (m : VerificationMethod X)
      → IsIdentifier m.id
      → IsFree d (DidUrl.to_string m.id)
      → (r : MethodRelationship)
      → Extends d (store_method d m (verification_relationship r)) (embed m)
  stored_ref-Extends d m i free r =
      rw (stored_ref d m i free r (unrelated d m i free r)) (related-Extends d r (embed m))

  first_ref-absent :
      (d : CoreDocument X) (q : Text)
      → any (asked q) (verification_relationships d) ≡ false
      → first_ref d q ≡ none
  first_ref-absent d q h =
      first_ref-find d q ∙ find-absent (asked q) (verification_relationships d) h

  resolve_embed :
      (d : CoreDocument X) (m : VerificationMethod X) → resolve_method_ref d (embed m) ≡ some m
  unfolding resolve_method_ref
  resolve_embed d m = refl

  -- the new method is found by its identifier
  stored-resolve :
      (d : CoreDocument X) (m : VerificationMethod X) (scope : MethodScope)
      → IsIdentifier m.id
      → IsFree d (DidUrl.to_string m.id)
      → resolve_method (store_method d m scope) (DidUrl.to_string m.id) none ≡ some m
  unfolding first_ref
  stored-resolve d m MethodScope.verification_method i free =
      let q = DidUrl.to_string m.id in
      resolve-unreferenced (store_method d m MethodScope.verification_method) q
        (first_ref-absent d q free.refs)
      ∙ ap (find (λ n. matches q n.id)) (stored_method d m i free)
      ∙ find-insert (λ n. matches q n.id) d.verification_method.items m []
          (rw append-nil free.methods) (matches-equal m.id m.id i (url_eqb_refl m.id))
  stored-resolve d m (verification_relationship r) i free =
      let q = DidUrl.to_string m.id in
      let e = store_method d m (verification_relationship r) in
      let ext = stored_ref-Extends d m i free r in
      resolve-referenced e q (embed m) (
        first_ref-find e q
        ∙ ap (find (asked q)) ext.new
        ∙ find-insert (asked q) ext.before (embed m) ext.after
            (subst (λ rs. any (asked q) rs ≡ false) ext.old free.refs)
            (matches-equal m.id m.id i (url_eqb_refl m.id)))
      ∙ resolve_embed e m

  -- When a method, whose identifier has a plain DID, valid segments and a fragment, is inserted into a
  -- document in which every reference resolves, its identifier resolves to it.
  pub insert_method-resolve :
      (d : CoreDocument X) (m : VerificationMethod X) (scope : MethodScope) {e : CoreDocument X}
      → IsIdentifier m.id
      → insert_method d m scope ≡ ok e
      → IsClosed d
      → resolve_method e (DidUrl.to_string m.id) none ≡ some m
  insert_method-resolve d m scope i h closed =
      let (free, same) = insert_method-IsFree d m scope h closed in
      subst (λ e. resolve_method e (DidUrl.to_string m.id) none ≡ some m) same
        (stored-resolve d m scope i free)

  -- every reference that resolves in the first document resolves to the same in the second
  abbrev Keeps : CoreDocument X → CoreDocument X → Type 0
  Keeps d e =
      (r : MethodRef X)
      → is_some (resolve_method_ref d r) ≡ true
      → resolve_method_ref e r ≡ resolve_method_ref d r

  or_else-some : (o p : Option (VerificationMethod X)) → is_some o ≡ true → or_else o p ≡ o
  or_else-some none p h = absurd (cc h)
  or_else-some (some a) p h = refl

  or_else-none : (o : Option (VerificationMethod X)) → or_else o none ≡ o
  or_else-none none = refl
  or_else-none (some a) = refl

  Keeps-append :
      (d e : CoreDocument X) (m : VerificationMethod X)
      → e.verification_method.items ≡ d.verification_method.items ++ m ∷ []
      → Keeps d e
  unfolding resolve_method_ref query
  Keeps-append d e m same (embed n) h = refl
  Keeps-append d e m same (refer u) h =
      ap (find (λ n. matches (DidUrl.to_string u) n.id)) same
      ∙ find-append (λ n. matches (DidUrl.to_string u) n.id) d.verification_method.items (m ∷ [])
      ∙ or_else-some _ _ h

  Keeps-same : (d e : CoreDocument X) → e.verification_method ≡ d.verification_method → Keeps d e
  unfolding resolve_method_ref
  Keeps-same d e same (embed n) h = refl
  Keeps-same d e same (refer u) h = rw same refl

  stored-Keeps :
      (d : CoreDocument X) (m : VerificationMethod X) (scope : MethodScope)
      → IsIdentifier m.id
      → IsFree d (DidUrl.to_string m.id)
      → Keeps d (store_method d m scope)
  stored-Keeps d m MethodScope.verification_method i free =
      Keeps-append d _ m (stored_method d m i free)
  stored-Keeps d m (verification_relationship r) i free =
      Keeps-same d _ (stored_ref-Extends d m i free r).methods

  resolve_kept :
      (d e : CoreDocument X) (q : Text)
      → IsClosed d
      → Keeps d e
      → first_ref e q ≡ first_ref d q
      → find (λ n. matches q n.id) e.verification_method.items
        ≡ find (λ n. matches q n.id) d.verification_method.items
      → resolve_method e q none ≡ resolve_method d q none
  resolve_kept d e q closed kept refs methods = elim (Option-cases (first_ref d q)) [
    | inl f ↦ resolve-unreferenced e q (refs ∙ f) ∙ methods ∙ sym (resolve-unreferenced d q f)
    | inr (r, f) ↦
        let resolves =
          (find-All _ (asked q) (verification_relationships d) (sym (first_ref-find d q) ∙ f)
            closed).1 in
        resolve-referenced e q r (refs ∙ f) ∙ kept r resolves ∙ sym (resolve-referenced d q r f)
  ]

  stored-frame :
      (d : CoreDocument X) (m : VerificationMethod X) (scope : MethodScope) (q : Text)
      → IsIdentifier m.id
      → IsFree d (DidUrl.to_string m.id)
      → IsClosed d
      → matches q m.id ≡ false
      → resolve_method (store_method d m scope) q none ≡ resolve_method d q none
  stored-frame d m MethodScope.verification_method q i free closed other =
      resolve_kept d (store_method d m MethodScope.verification_method) q closed
        (stored-Keeps d m MethodScope.verification_method i free)
        (first_ref-find (store_method d m MethodScope.verification_method) q
          ∙ sym (first_ref-find d q))
        (ap (find (λ n. matches q n.id)) (stored_method d m i free)
          ∙ find-skip (λ n. matches q n.id) d.verification_method.items m [] other
          ∙ ap (find (λ n. matches q n.id)) (append-nil d.verification_method.items))
  stored-frame d m (verification_relationship r) q i free closed other =
      let e = store_method d m (verification_relationship r) in
      let ext = stored_ref-Extends d m i free r in
      resolve_kept d e q closed (stored-Keeps d m (verification_relationship r) i free)
        (first_ref-find e q
          ∙ ap (find (asked q)) ext.new
          ∙ find-skip (asked q) ext.before (embed m) ext.after other
          ∙ ap (find (asked q)) (sym ext.old)
          ∙ sym (first_ref-find d q))
        (ap (λ s. find (λ n. matches q n.id) s.items) ext.methods)

  -- When a method, whose identifier has a plain DID, valid segments and a fragment, is inserted into a
  -- document in which every reference resolves, a query that does not match the identifier resolves as
  -- before.
  pub insert_method-frame :
      (d : CoreDocument X) (m : VerificationMethod X) (scope : MethodScope) (q : Text)
      {e : CoreDocument X}
      → IsIdentifier m.id
      → insert_method d m scope ≡ ok e
      → IsClosed d
      → matches q m.id ≡ false
      → resolve_method e q none ≡ resolve_method d q none
  insert_method-frame d m scope q i h closed other =
      let (free, same) = insert_method-IsFree d m scope h closed in
      subst (λ e. resolve_method e q none ≡ resolve_method d q none) same
        (stored-frame d m scope q i free closed other)

  kept_closed :
      (d e : CoreDocument X)
      → Keeps d e
      → IsClosed d
      → All (λ r. is_some (resolve_method_ref e r) ≡ true) (verification_relationships d)
  kept_closed d e kept closed =
      All-imp {P = λ (r : MethodRef X). is_some (resolve_method_ref d r) ≡ true}
        {Q = λ (r : MethodRef X). is_some (resolve_method_ref e r) ≡ true}
        (λ (r : MethodRef X) h. ap is_some (kept r h) ∙ h) (verification_relationships d) closed

  stored-IsClosed :
      (d : CoreDocument X) (m : VerificationMethod X) (scope : MethodScope)
      → IsIdentifier m.id
      → IsFree d (DidUrl.to_string m.id)
      → IsClosed d
      → IsClosed (store_method d m scope)
  stored-IsClosed d m MethodScope.verification_method i free closed =
      kept_closed d (store_method d m MethodScope.verification_method)
        (stored-Keeps d m MethodScope.verification_method i free) closed
  stored-IsClosed d m (verification_relationship r) i free closed =
      let e = store_method d m (verification_relationship r) in
      let ext = stored_ref-Extends d m i free r in
      let Resolves = λ (x : MethodRef X). is_some (resolve_method_ref e x) ≡ true in
      subst (All Resolves) (sym ext.new) (
        All-insert Resolves ext.before (embed m) ext.after (ap is_some (resolve_embed e m)) (
          subst (All Resolves) ext.old
            (kept_closed d e (stored-Keeps d m (verification_relationship r) i free) closed)))

  -- When a method, whose identifier has a plain DID, valid segments and a fragment, is inserted into a
  -- document in which every reference resolves, every reference of the result resolves.
  pub insert_method-IsClosed :
      (d : CoreDocument X) (m : VerificationMethod X) (scope : MethodScope) {e : CoreDocument X}
      → IsIdentifier m.id
      → insert_method d m scope ≡ ok e
      → IsClosed d
      → IsClosed e
  insert_method-IsClosed d m scope i h closed =
      let (free, same) = insert_method-IsFree d m scope h closed in
      subst IsClosed same (stored-IsClosed d m scope i free closed)
