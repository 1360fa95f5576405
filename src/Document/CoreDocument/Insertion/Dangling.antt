-- ===== src/Document/CoreDocument/Insertion/Dangling.antt =====
-- `insert_method` of core_document.rs where a reference that resolves to nothing has the method's
-- identifier.
use zk_identity.Prelude.{
  ◌≡◌, ◌≢◌, refl, sym, ap, ◌∙◌, subst, Bool, true, false, none, some, Text, any, arith, is_some,
  find-All, any-All,
}
use zk_identity.Prelude.Outcome.{ok}
use zk_identity.Core.OrderedSet.{append, contains}
use zk_identity.Did.DidUrl
use zk_identity.Did.DidUrl.{DidUrl, url_eqb, url_eqb_sym}
use zk_identity.Document.Method.{
  MethodRelationship, MethodScope, verification_relationship, VerificationMethod, MethodRef, embed,
  refer, ref_id, method_key, ref_key,
}
use zk_identity.Document.CoreDocument.{
  CoreDocument, related, verification_relationships, query_methods, query_services, first_ref,
  resolve_method_ref, resolve_method, store_method, insert_method,
}
use zk_identity.Document.CoreDocument.Constraints.{check_id_constraints, clash, NoClash}
use zk_identity.Document.CoreDocument.Constraints.Decides.{check_id_constraints_iff}
use zk_identity.Document.CoreDocument.Constraints.Refs.{NoClash-at}
use zk_identity.Document.CoreDocument.Invariant.{Extends, pushed, related-Extends}
use zk_identity.Document.CoreDocument.Insertion.{first_ref-find, resolve-referenced, asked}

module _ {X : Type 0} where
  refers_to : DidUrl → MethodRef X → Bool
  refers_to u r = url_eqb (ref_id r) u

  -- a reference clashes with a method of its identifier that is embedded
  embedded_clash :
      (d : CoreDocument X) (m : VerificationMethod X) (q : Text) (u : DidUrl)
      → first_ref d q ≡ some (refer u)
      → url_eqb u m.id ≡ true
      → any (clash (embed m)) (verification_relationships d) ≢ false
  embedded_clash d m q u found same none_clash =
      let (_, apart) =
        find-All _ (asked q) (verification_relationships d) (sym (first_ref-find d q) ∙ found)
          (any-All (clash (embed m)) (verification_relationships d) none_clash) in
      ground (arith, url_eqb_sym u m.id)

  stored_embed :
      (d : CoreDocument X) (m : VerificationMethod X) (r : MethodRelationship)
      → contains (related d r) m.id ≡ false
      → (append (related d r) (embed m)).0 ≡ pushed (related d r) (embed m)
  unfolding append
  stored_embed d m r new = rw new refl

  insert_unresolved :
      (d : CoreDocument X) (m : VerificationMethod X) (scope : MethodScope)
      → is_some (resolve_method d (DidUrl.to_string m.id) none) ≡ false
      → is_some (query_services d.service (DidUrl.to_string m.id)) ≡ false
      → insert_method d m scope ≡ ok (store_method d m scope)
  unfolding insert_method
  insert_unresolved d m scope h k = ground arith

  resolve_refer :
      (d : CoreDocument X) (u : DidUrl)
      → resolve_method_ref d (refer u) ≡ query_methods d.verification_method (DidUrl.to_string u)
  unfolding resolve_method_ref
  resolve_refer d u = refl

  stored_unconstrained :
      (d : CoreDocument X) (m : VerificationMethod X) (r : MethodRelationship)
      → any (clash (embed m)) (verification_relationships d) ≢ false
      → contains (related d r) m.id ≡ false
      → check_id_constraints (store_method d m (verification_relationship r)) ≢ ok tt
  stored_unconstrained d m r clashing new accepted =
      let e = store_method d m (verification_relationship r) in
      let ext : Extends d e (embed m) =
        rw (stored_embed d m r new) (related-Extends d r (embed m)) in
      let constrained = (check_id_constraints_iff e).0 accepted in
      clashing (
        subst (λ rs. any (clash (embed m)) rs ≡ false) (sym ext.old)
          (NoClash-at ext.before (embed m) ext.after (subst NoClash ext.new constrained.no_clash)))

  -- If the first reference with the method's identifier resolves to nothing, and no service has the
  -- identifier, then the method can be inserted into any relationship that lacks the reference. The
  -- document that results is refused by `check_id_constraints`.
  pub insert_method-dangling :
      (d : CoreDocument X) (m : VerificationMethod X) (r : MethodRelationship) (u : DidUrl)
      → first_ref d (DidUrl.to_string m.id) ≡ some (refer u)
      → url_eqb u m.id ≡ true
      → is_some (query_methods d.verification_method (DidUrl.to_string u)) ≡ false
      → is_some (query_services d.service (DidUrl.to_string m.id)) ≡ false
      → contains (related d r) m.id ≡ false
      → (insert_method d m (verification_relationship r)
          ≡ ok (store_method d m (verification_relationship r)))
        × (check_id_constraints (store_method d m (verification_relationship r)) ≢ ok tt)
  insert_method-dangling d m r u found same dangling no_service new = (
    insert_unresolved d m (verification_relationship r)
        (ap is_some
            (resolve-referenced d (DidUrl.to_string m.id) (refer u) found ∙ resolve_refer d u)
          ∙ dangling)
        no_service,
    stored_unconstrained d m r (embedded_clash d m (DidUrl.to_string m.id) u found same) new,
  )
