-- ===== src/Document/CoreDocument/Removal.antt =====
-- The invariant under `remove_method_and_scope` of core_document.rs.
pub mod Complete
use zk_identity.Prelude.{
  ◌≡◌, refl, sym, ap, ◌∙◌, Bool, true, false, Option, none, some, List, [], ◌∷◌, if◌then◌else◌,
  ◌&&◌, ◌||◌, any, All, arith, is_some, any-append, any-imp, find, is_some-find, inl, inr,
  Option-cases, Sub-refl, Sub,
}
use zk_identity.Core.OrderedSet
use zk_identity.Core.OrderedSet.{OrderedSet, contains}
use zk_identity.Core.OrderedSet.Keys.{Distinct, has-cong}
use zk_identity.Core.OrderedSet.Unique.{IsUnique, remove-IsUnique, Sub-remove}
use zk_identity.Core.OrderedSet.Contains.{contains-remove, removed-eq-find}
use zk_identity.Did.DidUrl.{DidUrl, url_eqb, url_eqb_refl, url_eqb_sym, url_eqb_trans}
use zk_identity.Document.Method.{
  MethodRelationship, authentication, assertion_method, key_agreement, capability_delegation,
  capability_invocation, MethodScope, VerificationMethod, MethodRef, embed, refer, ref_id,
  is_embedded, method_key, ref_key,
}
use zk_identity.Document.CoreDocument.{CoreDocument, related, verification_relationships}
use zk_identity.Document.CoreDocument.Edit.{
  remove_method_and_scope, remove_refs, removed_refs, first_embedded, in_general,
}
use zk_identity.Document.CoreDocument.Constraints.{ref_with, embedded_with, method_with}
use zk_identity.Document.CoreDocument.Invariant.{IsWellFormed, HasUniqueKeys, IsConstrained-Sub}
use zk_identity.Document.CoreDocument.Invariant.Relationships.{Sub-verification_relationships}

module _ {X : Type 0} where
  abbrev without_refs : CoreDocument X → DidUrl → CoreDocument X
  without_refs d u = remove_refs d u

  abbrev pub without_both : CoreDocument X → DidUrl → CoreDocument X
  without_both d u = record (remove_refs d u) {
    verification_method = (OrderedSet.remove d.verification_method u).0;
  }

  removed_relations :
      (d : CoreDocument X) (u : DidUrl)
      → HasUniqueKeys d
      → (r : MethodRelationship) → IsUnique (related (remove_refs d u) r)
  unfolding remove_refs
  removed_relations d u h authentication =
      remove-IsUnique d.authentication u (h.relations authentication)
  removed_relations d u h assertion_method =
      remove-IsUnique d.assertion_method u (h.relations assertion_method)
  removed_relations d u h key_agreement =
      remove-IsUnique d.key_agreement u (h.relations key_agreement)
  removed_relations d u h capability_delegation =
      remove-IsUnique d.capability_delegation u (h.relations capability_delegation)
  removed_relations d u h capability_invocation =
      remove-IsUnique d.capability_invocation u (h.relations capability_invocation)

  Sub-remove_refs :
      (d : CoreDocument X) (u : DidUrl)
      → Sub (verification_relationships (remove_refs d u)) (verification_relationships d)
  unfolding remove_refs
  Sub-remove_refs d u =
      Sub-verification_relationships d (remove_refs d u) (Sub-remove d.authentication u)
        (Sub-remove d.assertion_method u) (Sub-remove d.key_agreement u)
        (Sub-remove d.capability_delegation u) (Sub-remove d.capability_invocation u)

  remove_refs-IsWellFormed :
      (d : CoreDocument X) (u : DidUrl) → IsWellFormed d → IsWellFormed (remove_refs d u)
  unfolding remove_refs
  remove_refs-IsWellFormed d u w = record {
    keys = record {
      methods = w.keys.methods;
      relations = removed_relations d u w.keys;
      services = w.keys.services;
    };
    constrained =
        IsConstrained-Sub d (remove_refs d u) (Sub-remove_refs d u)
          (Sub-refl d.verification_method.items) (Sub-refl d.service.items) w.constrained;
  }

  without_both-IsWellFormed :
      (d : CoreDocument X) (u : DidUrl) → IsWellFormed d → IsWellFormed (without_both d u)
  unfolding remove_refs
  without_both-IsWellFormed d u w = record {
    keys = record {
      methods = remove-IsUnique d.verification_method u w.keys.methods;
      relations = removed_relations d u w.keys;
      services = w.keys.services;
    };
    constrained =
        IsConstrained-Sub d (without_both d u) (Sub-remove_refs d u)
          (Sub-remove d.verification_method u) (Sub-refl d.service.items) w.constrained;
  }

  -- the two ways in which a removal ends
  pub in_relation :
      (d : CoreDocument X) (u : DidUrl) {found : VerificationMethod X × MethodScope}
      → first_embedded (removed_refs d u) ≡ some found
      → remove_method_and_scope d u ≡ (remove_refs d u, some found)
  unfolding remove_method_and_scope
  in_relation d u h = rw (remove_method_and_scope, h) refl

  pub in_methods :
      (d : CoreDocument X) (u : DidUrl)
      → first_embedded (removed_refs d u) ≡ none
      → remove_method_and_scope d u
        ≡ (without_both d u, in_general (OrderedSet.remove d.verification_method u).1)
  unfolding remove_method_and_scope
  in_methods d u h = rw (remove_method_and_scope, h) refl

  -- Removing a method, whether it is found or not, from a well-formed document leaves it well-formed.
  pub remove_method_and_scope-IsWellFormed :
      (d : CoreDocument X) (u : DidUrl)
      → IsWellFormed d
      → IsWellFormed (remove_method_and_scope d u).0
  remove_method_and_scope-IsWellFormed d u w =
      elim (Option-cases (first_embedded (removed_refs d u))) [
        | inl e ↦ rw (in_methods d u e) (without_both-IsWellFormed d u w)
        | inr (found, e) ↦ rw (in_relation d u e) (remove_refs-IsWellFormed d u w)
      ]
