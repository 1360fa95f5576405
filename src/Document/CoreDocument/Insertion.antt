-- ===== src/Document/CoreDocument/Insertion.antt =====
-- `insert_method` of core_document.rs on a document whose references all resolve.
pub mod Preserves
pub mod Resolve
pub mod Dangling
pub mod Undo
use mathlib.Core.List.{append_assoc}
use zk_identity.Prelude.{
  ◌≡◌, refl, sym, ap, ◌∙◌, subst, Bool, true, false, Option, none, some, List, [], ◌∷◌, ◌++◌, Text,
  if◌then◌else◌, ◌&&◌, ◌||◌, not, any, All, arith, is_some, any-append, any-imp, any-All, All-any,
  All-imp, All-and, All-snoc, find, is_some-find, find-All, find-append, find-insert, find-none,
  or_else, Bool-cases, inl, inr, Option-cases, Sub-refl, any-left, any-right, any-Sub, Sub,
  text_eqb_iff, text_eqb_refl,
}
use zk_identity.Prelude.Outcome.{Outcome, ok, err, ok-injective}
use zk_identity.Core.OrderedSet
use zk_identity.Core.OrderedSet.{OrderedSet, contains, append}
use zk_identity.Core.OrderedSet.Keys.{Distinct-snoc}
use zk_identity.Core.OrderedSet.Unique.{append-IsUnique}
use zk_identity.Did.RelativeUrl.{fragment_of-cong}
use zk_identity.Did.RelativeUrl.Setters.{IsValid}
use zk_identity.Did.DidUrl
use zk_identity.Did.DidUrl.{DidUrl, did_eqb, did_eqb_iff, url_eqb, url_eqb_refl, url_eqb_sym}
use zk_identity.Document.Query.{matches, same_fragment}
use zk_identity.Document.Query.Printed.{IsDid, matches-to_string}
use zk_identity.Document.Method.{
  MethodRelationship, authentication, assertion_method, key_agreement, capability_delegation,
  capability_invocation, MethodScope, verification_relationship, VerificationMethod, MethodRef,
  embed, refer, Service, ref_id, is_embedded, method_key, ref_key, service_key,
}
use zk_identity.Document.CoreDocument.{
  CoreDocument, DocumentError, method_insertion_error, related, with_related,
  verification_relationships, query, as_is, query_methods, query_refs, query_services, first_ref,
  resolve_method_ref, resolve_method_inner, resolve_method, store_method, insert_method,
}
use zk_identity.Document.CoreDocument.Constraints.{
  NoClash, clash, ref_with, embedded_with, method_with, IsConstrained,
}
use zk_identity.Document.CoreDocument.Invariant.{
  IsWellFormed, HasUniqueKeys, Extends, pushed, related-Extends,
}
use zk_identity.Document.CoreDocument.Invariant.Relationships.{with_related-methods}
use zk_identity.Document.CoreDocument.Relate.{append_ref-IsWellFormed}

-- an identifier that a method can have: a DID of the library's parser, valid segments, a fragment
pub record IsIdentifier (u : DidUrl) : Type 0 where
  pub did : IsDid u.did
  pub url : IsValid u.url
  pub has_fragment : is_some (DidUrl.fragment u) ≡ true

-- Equal DID Urls have the same DID and the same fragment.
url_eqb-cong :
    (u v : DidUrl)
    → url_eqb u v ≡ true
    → (u.did.as_str ≡ v.did.as_str) × (DidUrl.fragment u ≡ DidUrl.fragment v)
unfolding url_eqb
url_eqb-cong u v h =
    (did_eqb_iff u.did v.did (ground arith), fragment_of-cong u.url v.url (ground arith))

same_fragment_refl : (f : Option Text) → is_some f ≡ true → same_fragment f f ≡ true
unfolding same_fragment
same_fragment_refl none h = absurd (cc h)
same_fragment_refl (some f) h = text_eqb_refl f

-- The query that an identifier prints matches every DID Url equal to it.
pub matches-equal :
    (u v : DidUrl) → IsIdentifier u → url_eqb u v ≡ true → matches (DidUrl.to_string u) v ≡ true
matches-equal u v i h =
    let (same_did, same) = url_eqb-cong u v h in
    rw (matches-to_string u v i.did i.url, ← same_did, ← same, text_eqb_refl)
      (same_fragment_refl (DidUrl.fragment u) i.has_fragment)

module _ {X : Type 0} where
  -- every reference resolves
  abbrev pub IsClosed : CoreDocument X → Type 0
  IsClosed d = All (λ r. is_some (resolve_method_ref d r) ≡ true) (verification_relationships d)

  abbrev pub asked : Text → MethodRef X → Bool
  asked q r = matches q (ref_id r)

  -- the five queries are one search through all references
  pub first_ref-find :
      (d : CoreDocument X) (q : Text)
      → first_ref d q ≡ find (asked q) (verification_relationships d)
  unfolding first_ref query
  first_ref-find d q = simp find-append

  pub resolve-unreferenced :
      (d : CoreDocument X) (q : Text)
      → first_ref d q ≡ none
      → resolve_method d q none ≡ find (λ m. matches q m.id) d.verification_method.items
  unfolding resolve_method query
  resolve-unreferenced d q e = rw (resolve_method_inner, e) refl

  pub resolve-referenced :
      (d : CoreDocument X) (q : Text) (r : MethodRef X)
      → first_ref d q ≡ some r
      → resolve_method d q none ≡ resolve_method_ref d r
  unfolding resolve_method resolve_method_ref
  resolve-referenced d q (embed m) e = rw (resolve_method_inner, e) refl
  resolve-referenced d q (refer u) e = rw (resolve_method_inner, e) refl

  -- In a closed document a method that is not found is nowhere.
  pub unresolved :
      (d : CoreDocument X) (q : Text)
      → IsClosed d
      → is_some (resolve_method d q none) ≡ false
      → (any (asked q) (verification_relationships d) ≡ false)
        × (any (λ m. matches q m.id) d.verification_method.items ≡ false)
  unresolved d q closed h = elim (Option-cases (first_ref d q)) [
    | inl e ↦ (
      find-none (asked q) (verification_relationships d) (sym (first_ref-find d q) ∙ e),
      find-none (λ m. matches q m.id) d.verification_method.items
          (ground (arith, resolve-unreferenced d q e)),
    )
    | inr (r, e) ↦
        let found =
          find-All _ (asked q) (verification_relationships d) (sym (first_ref-find d q) ∙ e)
            closed in
        absurd (ground (arith, resolve-referenced d q r e, found.1))
  ]

  -- nothing in the document answers to the query
  pub record IsFree (d : CoreDocument X) (q : Text) : Type 0 where
    pub refs : any (asked q) (verification_relationships d) ≡ false
    pub methods : any (λ m. matches q m.id) d.verification_method.items ≡ false
    pub services : any (λ s. matches q s.id) d.service.items ≡ false

  unasked_service :
      (d : CoreDocument X) (q : Text)
      → is_some (query_services d.service q) ≡ false
      → any (λ s. matches q s.id) d.service.items ≡ false
  unfolding query
  unasked_service d q h = sym (is_some-find (λ s. matches q s.id) d.service.items) ∙ h

  insert_method-ok :
      (d : CoreDocument X) (m : VerificationMethod X) (scope : MethodScope) {e : CoreDocument X}
      → insert_method d m scope ≡ ok e
      → (is_some (resolve_method d (DidUrl.to_string m.id) none) ≡ false)
        × (is_some (query_services d.service (DidUrl.to_string m.id)) ≡ false)
        × (store_method d m scope ≡ e)
  unfolding insert_method
  insert_method-ok d m scope h = ground arith

  -- What is inserted into a closed document was free before.
  pub insert_method-IsFree :
      (d : CoreDocument X) (m : VerificationMethod X) (scope : MethodScope) {e : CoreDocument X}
      → insert_method d m scope ≡ ok e
      → IsClosed d
      → IsFree d (DidUrl.to_string m.id) × (store_method d m scope ≡ e)
  insert_method-IsFree d m scope h closed =
      let (r, s, same) = insert_method-ok d m scope h in
      let (refs, methods) = unresolved d (DidUrl.to_string m.id) closed r in
      (
        record {
          refs = refs;
          methods = methods;
          services = unasked_service d (DidUrl.to_string m.id) s;
        },
        same,
      )
