-- ===== src/Document/CoreDocument/Invariant/Relationships.antt =====
-- A document with one relationship replaced.
use zk_identity.Prelude.{◌≡◌, refl, Sub, Sub-refl, Sub-append}
use zk_identity.Core.OrderedSet.{OrderedSet}
use zk_identity.Core.OrderedSet.Unique.{IsUnique}
use zk_identity.Document.Method.{
  MethodRelationship, authentication, assertion_method, key_agreement, capability_delegation,
  capability_invocation, MethodRef, method_key, ref_key, service_key,
}
use zk_identity.Document.CoreDocument.{
  CoreDocument, related, with_related, verification_relationships,
}
use zk_identity.Document.CoreDocument.Invariant.{HasUniqueKeys}

module _ {X : Type 0} where
  pub with_related_self :
      (d : CoreDocument X) (r : MethodRelationship) → with_related d r (related d r) ≡ d
  with_related_self d authentication = refl
  with_related_self d assertion_method = refl
  with_related_self d key_agreement = refl
  with_related_self d capability_delegation = refl
  with_related_self d capability_invocation = refl

  relations_with :
      (d : CoreDocument X) (r : MethodRelationship) (s : OrderedSet (MethodRef X))
      → IsUnique s
      → ((r' : MethodRelationship) → IsUnique (related d r'))
      → (r' : MethodRelationship) → IsUnique (related (with_related d r s) r')
  relations_with d authentication s hs h authentication = hs
  relations_with d authentication s hs h r' = h r'
  relations_with d assertion_method s hs h assertion_method = hs
  relations_with d assertion_method s hs h r' = h r'
  relations_with d key_agreement s hs h key_agreement = hs
  relations_with d key_agreement s hs h r' = h r'
  relations_with d capability_delegation s hs h capability_delegation = hs
  relations_with d capability_delegation s hs h r' = h r'
  relations_with d capability_invocation s hs h capability_invocation = hs
  relations_with d capability_invocation s hs h r' = h r'

  pub with_related-methods :
      (d : CoreDocument X) (r : MethodRelationship) (s : OrderedSet (MethodRef X))
      → (with_related d r s).verification_method ≡ d.verification_method
  with_related-methods d authentication s = refl
  with_related-methods d assertion_method s = refl
  with_related-methods d key_agreement s = refl
  with_related-methods d capability_delegation s = refl
  with_related-methods d capability_invocation s = refl

  pub with_related-services :
      (d : CoreDocument X) (r : MethodRelationship) (s : OrderedSet (MethodRef X))
      → (with_related d r s).service ≡ d.service
  with_related-services d authentication s = refl
  with_related-services d assertion_method s = refl
  with_related-services d key_agreement s = refl
  with_related-services d capability_delegation s = refl
  with_related-services d capability_invocation s = refl

  pub with_related-HasUniqueKeys :
      (d : CoreDocument X) (r : MethodRelationship) (s : OrderedSet (MethodRef X))
      → IsUnique s
      → HasUniqueKeys d
      → HasUniqueKeys (with_related d r s)
  with_related-HasUniqueKeys d r s hs h = record {
    methods = rw with_related-methods h.methods;
    relations = relations_with d r s hs h.relations;
    services = rw with_related-services h.services;
  }

  -- Taking references out of relationships.
  pub Sub-verification_relationships :
      (d e : CoreDocument X)
      → Sub e.authentication.items d.authentication.items
      → Sub e.assertion_method.items d.assertion_method.items
      → Sub e.key_agreement.items d.key_agreement.items
      → Sub e.capability_delegation.items d.capability_delegation.items
      → Sub e.capability_invocation.items d.capability_invocation.items
      → Sub (verification_relationships e) (verification_relationships d)
  Sub-verification_relationships d e a b c f g =
      Sub-append a (Sub-append b (Sub-append c (Sub-append f g)))

  pub Sub-with_related :
      (d : CoreDocument X) (r : MethodRelationship) (s : OrderedSet (MethodRef X))
      → Sub s.items (related d r).items
      → Sub (verification_relationships (with_related d r s)) (verification_relationships d)
  Sub-with_related d authentication s h =
      Sub-verification_relationships d (with_related d authentication s) h
        (Sub-refl d.assertion_method.items) (Sub-refl d.key_agreement.items)
        (Sub-refl d.capability_delegation.items) (Sub-refl d.capability_invocation.items)
  Sub-with_related d assertion_method s h =
      Sub-verification_relationships d (with_related d assertion_method s)
        (Sub-refl d.authentication.items) h (Sub-refl d.key_agreement.items)
        (Sub-refl d.capability_delegation.items) (Sub-refl d.capability_invocation.items)
  Sub-with_related d key_agreement s h =
      Sub-verification_relationships d (with_related d key_agreement s)
        (Sub-refl d.authentication.items) (Sub-refl d.assertion_method.items) h
        (Sub-refl d.capability_delegation.items) (Sub-refl d.capability_invocation.items)
  Sub-with_related d capability_delegation s h =
      Sub-verification_relationships d (with_related d capability_delegation s)
        (Sub-refl d.authentication.items) (Sub-refl d.assertion_method.items)
        (Sub-refl d.key_agreement.items) h (Sub-refl d.capability_invocation.items)
  Sub-with_related d capability_invocation s h =
      Sub-verification_relationships d (with_related d capability_invocation s)
        (Sub-refl d.authentication.items) (Sub-refl d.assertion_method.items)
        (Sub-refl d.key_agreement.items) (Sub-refl d.capability_delegation.items) h
