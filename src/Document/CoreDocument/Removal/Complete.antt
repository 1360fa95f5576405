-- ===== src/Document/CoreDocument/Removal/Complete.antt =====
-- What `remove_method_and_scope` of core_document.rs leaves and answers.
use zk_identity.Prelude.{
  ◌≡◌, refl, sym, ap, ◌∙◌, Bool, true, false, Option, none, some, List, [], ◌∷◌, if◌then◌else◌,
  ◌&&◌, ◌||◌, any, All, arith, is_some, any-append, any-imp, find, is_some-find, inl, inr,
  Option-cases,
}
use zk_identity.Core.OrderedSet
use zk_identity.Core.OrderedSet.{OrderedSet, contains}
use zk_identity.Core.OrderedSet.Keys.{Distinct, has-cong}
use zk_identity.Core.OrderedSet.Unique.{IsUnique}
use zk_identity.Core.OrderedSet.Contains.{contains-remove, removed-eq-find}
use zk_identity.Did.DidUrl.{DidUrl, url_eqb, url_eqb_refl, url_eqb_sym, url_eqb_trans}
use zk_identity.Document.Method.{
  MethodRelationship, authentication, assertion_method, key_agreement, capability_delegation,
  capability_invocation, VerificationMethod, MethodRef, embed, refer, ref_id, is_embedded,
  method_key, ref_key,
}
use zk_identity.Document.CoreDocument.{CoreDocument, verification_relationships}
use zk_identity.Document.CoreDocument.Edit.{
  remove_method_and_scope, remove_refs, removed_refs, first_embedded, in_general,
}
use zk_identity.Document.CoreDocument.Constraints.{ref_with, embedded_with, method_with}
use zk_identity.Document.CoreDocument.Invariant.{IsWellFormed, HasUniqueKeys}
use zk_identity.Document.CoreDocument.Removal.{in_relation, in_methods}

or_false : (b : Bool) → (if b then true else false) ≡ b
or_false true = refl
or_false false = refl

module _ {X : Type 0} where
  -- no relationship refers to what was removed
  removed_ref :
      (s : OrderedSet (MethodRef X)) (u : DidUrl)
      → IsUnique s
      → ref_with u (OrderedSet.remove s u).0.items ≡ false
  unfolding contains
  removed_ref s u h = ground (arith, contains-remove s u u h, url_eqb_refl u)

  ref_with-remove_refs :
      (d : CoreDocument X) (u : DidUrl)
      → HasUniqueKeys d
      → ref_with u (verification_relationships (remove_refs d u)) ≡ false
  unfolding remove_refs
  ref_with-remove_refs d u h = simp (
    any-append,
    removed_ref d.authentication u (h.relations authentication),
    removed_ref d.assertion_method u (h.relations assertion_method),
    removed_ref d.key_agreement u (h.relations key_agreement),
    removed_ref d.capability_delegation u (h.relations capability_delegation),
    removed_ref d.capability_invocation u (h.relations capability_invocation),
  )

  method_with-remove :
      (d : CoreDocument X) (u : DidUrl)
      → HasUniqueKeys d
      → method_with u (OrderedSet.remove d.verification_method u).0.items ≡ false
  unfolding contains
  method_with-remove d u h =
      ground (arith, contains-remove d.verification_method u u h.methods, url_eqb_refl u)

  -- a removed reference embeds a method
  abbrev embeds : Option (MethodRef X) → Bool
  embeds none = false
  embeds (some r) = is_embedded r

  embeds-find :
      (rs : List (MethodRef X)) (u : DidUrl)
      → Distinct rs
      → embeds (find (λ r. url_eqb (ref_id r) u) rs) ≡ embedded_with u rs
  unfolding find any
  embeds-find [] u h = refl
  embeds-find (r ∷ rs) u h = ground (
    arith,
    embeds-find rs u h.1,
    has-cong rs (ref_id r) u,
    any-imp (λ r. url_eqb (ref_id r) u && is_embedded r) (λ r. url_eqb (ref_id r) u)
        (λ r. ground arith) rs,
  )

  embeds-remove :
      (s : OrderedSet (MethodRef X)) (u : DidUrl)
      → IsUnique s
      → embeds (OrderedSet.remove s u).1 ≡ embedded_with u s.items
  embeds-remove s u h = ap embeds (removed-eq-find s u) ∙ embeds-find s.items u h

  is_some-first_embedded :
      (rs : List (Option (MethodRef X) × MethodRelationship))
      → is_some (first_embedded rs) ≡ any (λ p. embeds p.0) rs
  unfolding first_embedded any
  is_some-first_embedded [] = refl
  is_some-first_embedded ((some (embed m), r) ∷ rs) = refl
  is_some-first_embedded ((some (refer u), r) ∷ rs) = is_some-first_embedded rs
  is_some-first_embedded ((none, r) ∷ rs) = is_some-first_embedded rs

  pub is_some-removed :
      (d : CoreDocument X) (u : DidUrl)
      → HasUniqueKeys d
      → is_some (first_embedded (removed_refs d u)) ≡ embedded_with u (verification_relationships d)
  unfolding removed_refs any
  is_some-removed d u h =
      is_some-first_embedded (removed_refs d u)
      ∙ simp (
        any-append,
        or_false,
        embeds-remove d.authentication u (h.relations authentication),
        embeds-remove d.assertion_method u (h.relations assertion_method),
        embeds-remove d.key_agreement u (h.relations key_agreement),
        embeds-remove d.capability_delegation u (h.relations capability_delegation),
        embeds-remove d.capability_invocation u (h.relations capability_invocation),
      )

  embedded_with-cong :
      (rs : List (MethodRef X)) (k u : DidUrl)
      → url_eqb k u ≡ true
      → embedded_with k rs ≡ false
      → embedded_with u rs ≡ false
  embedded_with-cong rs k u same =
      any-imp (λ r. url_eqb (ref_id r) u && is_embedded r)
        (λ r. url_eqb (ref_id r) k && is_embedded r)
        (λ r. ground (arith, url_eqb_sym k u, url_eqb_trans (ref_id r) u k)) rs

  -- an embedded method is no general purpose method
  embedded_no_method :
      (rs : List (MethodRef X)) (ms : List (VerificationMethod X)) (u : DidUrl)
      → All (λ m. embedded_with m.id rs ≡ false) ms
      → embedded_with u rs ≡ true
      → method_with u ms ≡ false
  unfolding any
  embedded_no_method rs [] u h e = refl
  embedded_no_method rs (m ∷ ms) u h e =
      ground (arith, embedded_with-cong rs m.id u, embedded_no_method rs ms u h.1 e)

  is_some-in_general : (o : Option (VerificationMethod X)) → is_some (in_general o) ≡ is_some o
  is_some-in_general none = refl
  is_some-in_general (some m) = refl

  is_some-remove_methods :
      (s : OrderedSet (VerificationMethod X)) (u : DidUrl)
      → is_some (in_general (OrderedSet.remove s u).1) ≡ method_with u s.items
  is_some-remove_methods s u =
      is_some-in_general (OrderedSet.remove s u).1
      ∙ ap is_some (removed-eq-find s u)
      ∙ is_some-find (λ m. url_eqb m.id u) s.items

  remove_refs-methods :
      (d : CoreDocument X) (u : DidUrl)
      → (remove_refs d u).verification_method ≡ d.verification_method
  unfolding remove_refs
  remove_refs-methods d u = refl

  -- After a removal from a well-formed document no reference and no method has the identifier, and a
  -- method is returned exactly if one with the identifier was there, embedded or general.
  pub remove_method_and_scope_complete :
      (d : CoreDocument X) (u : DidUrl)
      → IsWellFormed d
      → (ref_with u (verification_relationships (remove_method_and_scope d u).0) ≡ false)
        × (method_with u (remove_method_and_scope d u).0.verification_method.items ≡ false)
        × (is_some (remove_method_and_scope d u).1 ≡ (
            embedded_with u (verification_relationships d)
            || method_with u d.verification_method.items))
  remove_method_and_scope_complete d u w = elim (Option-cases (first_embedded (removed_refs d u))) [
    | inl e ↦ rw (in_methods d u e) (
      ref_with-remove_refs d u w.keys,
      method_with-remove d u w.keys,
      ground (arith, is_some-remove_methods d.verification_method u, is_some-removed d u w.keys),
    )
    | inr (found, e) ↦
        let embedded : embedded_with u (verification_relationships d) ≡ true =
          sym (is_some-removed d u w.keys) ∙ ap is_some e in
        rw (in_relation d u e) (
          ref_with-remove_refs d u w.keys,
          rw remove_refs-methods (
              embedded_no_method (verification_relationships d) d.verification_method.items u
                w.constrained.embedded_apart embedded),
          ground arith,
        )
  ]
