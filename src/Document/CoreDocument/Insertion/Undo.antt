-- ===== src/Document/CoreDocument/Insertion/Undo.antt =====
-- `remove_method_and_scope` of core_document.rs just after `insert_method`.
use zk_identity.Prelude.{◌≡◌, refl, false, none, some, ap, ◌∙◌}
use zk_identity.Prelude.Outcome.{ok}
use zk_identity.Core.OrderedSet.{OrderedSet, contains}
use zk_identity.Core.OrderedSet.Undo.{remove-absent, remove-append}
use zk_identity.Did.DidUrl
use zk_identity.Did.DidUrl.{DidUrl}
use zk_identity.Document.Method.{
  MethodRelationship, authentication, assertion_method, key_agreement, capability_delegation,
  capability_invocation, MethodScope, verification_relationship, VerificationMethod, embed,
  method_key, ref_key,
}
use zk_identity.Document.CoreDocument.{CoreDocument, related, store_method, insert_method}
use zk_identity.Document.CoreDocument.Edit.{
  remove_method_and_scope, remove_refs, removed_refs, first_embedded,
}
use zk_identity.Document.CoreDocument.Removal.{in_relation, in_methods}
use zk_identity.Document.CoreDocument.Insertion.{
  IsIdentifier, IsClosed, IsFree, insert_method-IsFree,
}
use zk_identity.Document.CoreDocument.Insertion.Preserves.{unrelated, absent_method}

module _ {X : Type 0} where
  -- no set of the five relationships has the key
  abbrev Apart : CoreDocument X → DidUrl → Type 0
  Apart d u = (r : MethodRelationship) → contains (related d r) u ≡ false

  module _ (d : CoreDocument X) (u : DidUrl) (apart : Apart d u) where
    none_embedded : first_embedded (removed_refs d u) ≡ none
    unfolding first_embedded removed_refs
    none_embedded =
        rw
          (
            remove-absent d.authentication u (apart authentication),
            remove-absent d.assertion_method u (apart assertion_method),
            remove-absent d.key_agreement u (apart key_agreement),
            remove-absent d.capability_delegation u (apart capability_delegation),
            remove-absent d.capability_invocation u (apart capability_invocation),
          )
          refl

    same_refs : remove_refs d u ≡ d
    unfolding remove_refs
    same_refs =
        rw
          (
            remove-absent d.authentication u (apart authentication),
            remove-absent d.assertion_method u (apart assertion_method),
            remove-absent d.key_agreement u (apart key_agreement),
            remove-absent d.capability_delegation u (apart capability_delegation),
            remove-absent d.capability_invocation u (apart capability_invocation),
          )
          refl

  Apart-general :
      (d : CoreDocument X) (u : DidUrl) (s : OrderedSet (VerificationMethod X))
      → Apart d u
      → Apart (record d { verification_method = s }) u
  Apart-general d u s apart authentication = apart authentication
  Apart-general d u s apart assertion_method = apart assertion_method
  Apart-general d u s apart key_agreement = apart key_agreement
  Apart-general d u s apart capability_delegation = apart capability_delegation
  Apart-general d u s apart capability_invocation = apart capability_invocation

  remove-store_general :
      (d : CoreDocument X) (m : VerificationMethod X)
      → Apart d m.id
      → contains d.verification_method m.id ≡ false
      → remove_method_and_scope (store_method d m MethodScope.verification_method) m.id
        ≡ (d, some (m, MethodScope.verification_method))
  remove-store_general d m apart absent =
      let e = store_method d m MethodScope.verification_method in
      let still = Apart-general d m.id e.verification_method apart in
      in_methods e m.id (none_embedded e m.id still)
      ∙ rw (same_refs e m.id still, remove-append d.verification_method m absent) refl

  found_embedded :
      (d : CoreDocument X) (m : VerificationMethod X) (r : MethodRelationship)
      → Apart d m.id
      → first_embedded (removed_refs (store_method d m (verification_relationship r)) m.id)
        ≡ some (m, verification_relationship r)
  unfolding first_embedded removed_refs
  found_embedded d m authentication apart =
      rw (remove-append d.authentication (embed m) (apart authentication)) refl
  found_embedded d m assertion_method apart =
      rw
        (
          remove-absent d.authentication m.id (apart authentication),
          remove-append d.assertion_method (embed m) (apart assertion_method),
        )
        refl
  found_embedded d m key_agreement apart =
      rw
        (
          remove-absent d.authentication m.id (apart authentication),
          remove-absent d.assertion_method m.id (apart assertion_method),
          remove-append d.key_agreement (embed m) (apart key_agreement),
        )
        refl
  found_embedded d m capability_delegation apart =
      rw
        (
          remove-absent d.authentication m.id (apart authentication),
          remove-absent d.assertion_method m.id (apart assertion_method),
          remove-absent d.key_agreement m.id (apart key_agreement),
          remove-append d.capability_delegation (embed m) (apart capability_delegation),
        )
        refl
  found_embedded d m capability_invocation apart =
      rw
        (
          remove-absent d.authentication m.id (apart authentication),
          remove-absent d.assertion_method m.id (apart assertion_method),
          remove-absent d.key_agreement m.id (apart key_agreement),
          remove-absent d.capability_delegation m.id (apart capability_delegation),
          remove-append d.capability_invocation (embed m) (apart capability_invocation),
        )
        refl

  restored_refs :
      (d : CoreDocument X) (m : VerificationMethod X) (r : MethodRelationship)
      → Apart d m.id
      → remove_refs (store_method d m (verification_relationship r)) m.id ≡ d
  unfolding remove_refs
  restored_refs d m authentication apart =
      rw
        (
          remove-append d.authentication (embed m) (apart authentication),
          remove-absent d.assertion_method m.id (apart assertion_method),
          remove-absent d.key_agreement m.id (apart key_agreement),
          remove-absent d.capability_delegation m.id (apart capability_delegation),
          remove-absent d.capability_invocation m.id (apart capability_invocation),
        )
        refl
  restored_refs d m assertion_method apart =
      rw
        (
          remove-absent d.authentication m.id (apart authentication),
          remove-append d.assertion_method (embed m) (apart assertion_method),
          remove-absent d.key_agreement m.id (apart key_agreement),
          remove-absent d.capability_delegation m.id (apart capability_delegation),
          remove-absent d.capability_invocation m.id (apart capability_invocation),
        )
        refl
  restored_refs d m key_agreement apart =
      rw
        (
          remove-absent d.authentication m.id (apart authentication),
          remove-absent d.assertion_method m.id (apart assertion_method),
          remove-append d.key_agreement (embed m) (apart key_agreement),
          remove-absent d.capability_delegation m.id (apart capability_delegation),
          remove-absent d.capability_invocation m.id (apart capability_invocation),
        )
        refl
  restored_refs d m capability_delegation apart =
      rw
        (
          remove-absent d.authentication m.id (apart authentication),
          remove-absent d.assertion_method m.id (apart assertion_method),
          remove-absent d.key_agreement m.id (apart key_agreement),
          remove-append d.capability_delegation (embed m) (apart capability_delegation),
          remove-absent d.capability_invocation m.id (apart capability_invocation),
        )
        refl
  restored_refs d m capability_invocation apart =
      rw
        (
          remove-absent d.authentication m.id (apart authentication),
          remove-absent d.assertion_method m.id (apart assertion_method),
          remove-absent d.key_agreement m.id (apart key_agreement),
          remove-absent d.capability_delegation m.id (apart capability_delegation),
          remove-append d.capability_invocation (embed m) (apart capability_invocation),
        )
        refl

  -- When a method, whose identifier has a plain DID, valid segments and a fragment, was inserted into a
  -- document in which every reference resolves, removing it returns the method with its scope and
  -- gives the document back.
  pub remove_method_and_scope-insert_method :
      (d : CoreDocument X) (m : VerificationMethod X) (scope : MethodScope) {e : CoreDocument X}
      → IsClosed d
      → IsIdentifier m.id
      → insert_method d m scope ≡ ok e
      → remove_method_and_scope e m.id ≡ (d, some (m, scope))
  remove_method_and_scope-insert_method d m scope closed i h =
      let (free, same) = insert_method-IsFree d m scope h closed in rw (← same) (stored scope free)
    where
      stored :
          (scope : MethodScope)
          → IsFree d (DidUrl.to_string m.id)
          → remove_method_and_scope (store_method d m scope) m.id ≡ (d, some (m, scope))
      stored MethodScope.verification_method free =
          remove-store_general d m (unrelated d m i free) (absent_method d m i free)
      stored (verification_relationship r) free =
          let apart = unrelated d m i free in
          in_relation (store_method d m (verification_relationship r)) m.id
            (found_embedded d m r apart)
          ∙ ap (λ (w : CoreDocument X). (w, some (m, verification_relationship r)))
              (restored_refs d m r apart)
