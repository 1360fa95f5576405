-- ===== src/Document/CoreDocument/Relate.antt =====
-- `attach_method_relationship` and `detach_method_relationship` of core_document.rs.
use zk_identity.Prelude.{
  ◌≡◌, ap, subst, Bool, true, false, some, Text, ◌&&◌, any, arith, is_some, any-imp, any-All,
  All-any, All-imp, find, find-All, inl, inr, Bool-cases, Sub-refl,
}
use zk_identity.Prelude.Outcome.{ok, >>=-eq-ok, ok-injective}
use zk_identity.Core.OrderedSet
use zk_identity.Core.OrderedSet.{OrderedSet, contains, append}
use zk_identity.Core.OrderedSet.Unique.{append-IsUnique, remove-IsUnique, Sub-remove}
use zk_identity.Did.DidUrl.{DidUrl, url_eqb, url_eqb_sym}
use zk_identity.Document.Query.{matches}
use zk_identity.Document.Method.{
  MethodRelationship, VerificationMethod, MethodRef, refer, Service, ref_id, is_embedded,
  method_key, ref_key, service_key,
}
use zk_identity.Document.CoreDocument.{
  CoreDocument, related, with_related, verification_relationships, resolve_method, query,
}
use zk_identity.Document.CoreDocument.Edit.{
  attach_method_relationship, detach_method_relationship, general_method,
}
use zk_identity.Document.CoreDocument.Constraints.{clash, ref_with, method_with, IsConstrained}
use zk_identity.Document.CoreDocument.Invariant.{
  IsWellFormed, IsConstrained-Sub, related-Extends, IsConstrained-Extends,
}
use zk_identity.Document.CoreDocument.Invariant.Relationships.{
  with_related_self, with_related-HasUniqueKeys, Sub-with_related, with_related-methods,
  with_related-services,
}

module _ {X : Type 0} where
  -- Appending a reference to a relationship, if it may stand there.
  pub append_ref-IsWellFormed :
      (d : CoreDocument X) (r : MethodRelationship) (x : MethodRef X)
      → (contains (related d r) (ref_id x) ≡ false
          → (any (clash x) (verification_relationships d) ≡ false)
            × (is_embedded x ≡ true → method_with (ref_id x) d.verification_method.items ≡ false)
            × (any (λ s. url_eqb s.id (ref_id x)) d.service.items ≡ false))
      → IsWellFormed d
      → IsWellFormed (with_related d r (append (related d r) x).0)
  append_ref-IsWellFormed d r x fits w = record {
    keys =
        with_related-HasUniqueKeys d r _ (append-IsUnique (related d r) x (w.keys.relations r))
          w.keys;
    constrained = elim (Bool-cases (contains (related d r) (ref_id x))) [
      | inl old ↦ unfold append in rw old (rw with_related_self w.constrained)
      | inr new ↦
          let (apart, general, services) = fits new in
          unfold append in
          rw new (
            IsConstrained-Extends d _ x (related-Extends d r x) apart general services
              w.constrained)
    ];
  }

  remove_ref-IsWellFormed :
      (d : CoreDocument X) (r : MethodRelationship) (k : DidUrl)
      → IsWellFormed d
      → IsWellFormed (with_related d r (OrderedSet.remove (related d r) k).0)
  remove_ref-IsWellFormed d r k w = record {
    keys =
        with_related-HasUniqueKeys d r _ (remove-IsUnique (related d r) k (w.keys.relations r))
          w.keys;
    constrained =
        IsConstrained-Sub d _ (Sub-with_related d r _ (Sub-remove (related d r) k))
          (rw with_related-methods (Sub-refl d.verification_method.items))
          (rw with_related-services (Sub-refl d.service.items)) w.constrained;
  }

  general_found :
      (d : CoreDocument X) (q : Text) {m : VerificationMethod X}
      → general_method d q ≡ ok m
      → find (λ entry. matches q entry.id) d.verification_method.items ≡ some m
  unfolding resolve_method query
  general_found d q h = ground arith

  -- a general purpose method is embedded nowhere and is no service
  general_fits :
      (d : CoreDocument X) (q : Text) {m : VerificationMethod X}
      → general_method d q ≡ ok m
      → IsConstrained d
      → (any (clash (refer m.id)) (verification_relationships d) ≡ false)
        × (any (λ s. url_eqb s.id m.id) d.service.items ≡ false)
  general_fits d q {m} h c =
      let found = general_found d q h in
      let (matched, apart) =
        find-All _ (λ (entry : VerificationMethod X). matches q entry.id)
          d.verification_method.items found c.embedded_apart in
      (
        any-imp (clash (refer m.id)) (λ r. url_eqb (ref_id r) m.id && is_embedded r)
            (λ r. ground (arith, url_eqb_sym m.id (ref_id r))) (verification_relationships d) apart,
        All-any (λ s. url_eqb s.id m.id) d.service.items
            (All-imp
              {P = λ (s : Service X).
                (ref_with s.id (verification_relationships d) ≡ false)
                × (method_with s.id d.verification_method.items ≡ false)}
              {Q = λ (s : Service X). url_eqb s.id m.id ≡ false}
              (λ (s : Service X) g. ground (
                arith,
                (find-All _ (λ (entry : VerificationMethod X). matches q entry.id)
                    d.verification_method.items found
                    (any-All (λ entry. url_eqb entry.id s.id) d.verification_method.items g.1)).1,
                url_eqb_sym s.id m.id,
              ))
              d.service.items c.services_apart),
      )

  -- When a relationship is attached to a method of a well-formed document, the document that results
  -- is well-formed.
  pub attach_method_relationship-IsWellFormed :
      (d : CoreDocument X) (q : Text) (r : MethodRelationship) {e : CoreDocument X} {flag : Bool}
      → attach_method_relationship d q r ≡ ok (e, flag)
      → IsWellFormed d
      → IsWellFormed e
  unfolding attach_method_relationship
  attach_method_relationship-IsWellFormed d q r {e} {flag} h w =
      let (m, g, k) =
        >>=-eq-ok (general_method d q)
          (λ m. ok (
            with_related d r (append (related d r) (refer m.id)).0,
            (append (related d r) (refer m.id)).1,
          ))
          h in
      let (apart, service) = general_fits d q g w.constrained in
      subst IsWellFormed (ap (λ p. p.0) (ok-injective k)) (
        append_ref-IsWellFormed d r (refer m.id)
          (λ new. (apart, (λ impossible. absurd (cc impossible)), service)) w)

  -- When a relationship is detached from a method of a well-formed document, the document that
  -- results is well-formed.
  pub detach_method_relationship-IsWellFormed :
      (d : CoreDocument X) (q : Text) (r : MethodRelationship) {e : CoreDocument X} {flag : Bool}
      → detach_method_relationship d q r ≡ ok (e, flag)
      → IsWellFormed d
      → IsWellFormed e
  unfolding detach_method_relationship
  detach_method_relationship-IsWellFormed d q r {e} {flag} h w =
      let (m, g, k) =
        >>=-eq-ok (general_method d q)
          (λ m. ok (
            with_related d r (OrderedSet.remove (related d r) m.id).0,
            is_some (OrderedSet.remove (related d r) m.id).1,
          ))
          h in
      subst IsWellFormed (ap (λ p. p.0) (ok-injective k)) (remove_ref-IsWellFormed d r m.id w)
