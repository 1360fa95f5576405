-- ===== src/Document/CoreDocument/Methods.antt =====
-- `methods` and `all_methods` of core_document.rs.
use zk_identity.Prelude.{
  ◌≡◌, refl, ◌∙◌, true, false, Option, none, some, List, [], ◌∷◌, ◌++◌, map, ◌&&◌, any, any-imp,
  All, All-imp, All-left, All-right, arith, is_some, filter_map, filter_map-append, any-append,
  Option-cases, inl, inr,
}
use zk_identity.Core.OrderedSet.Keys.{Distinct, has}
use zk_identity.Did.DidUrl.{DidUrl, url_eqb, url_eqb_sym}
use zk_identity.Document.Method.{
  MethodRelationship, authentication, assertion_method, key_agreement, capability_delegation,
  capability_invocation, MethodScope, verification_relationship, VerificationMethod, MethodRef,
  embed, refer, ref_id, is_embedded, method_key,
}
use zk_identity.Document.CoreDocument.{
  CoreDocument, related, verification_relationships, resolve_method_ref,
}
use zk_identity.Document.CoreDocument.Constraints.{clash, NoClash, embedded_with}
use zk_identity.Document.CoreDocument.Insertion.{IsClosed}
use zk_identity.Document.CoreDocument.Invariant.{IsWellFormed}

module _ {X : Type 0} where
  -- `__filter_ref`
  abbrev pub filter_ref : MethodRef X → Option (VerificationMethod X)
  filter_ref (embed m) = some m
  filter_ref (refer did) = none

  unfoldable pub all_methods : CoreDocument X → List (VerificationMethod X)
  all_methods d =
      d.verification_method.items
      ++ (filter_map filter_ref d.authentication.items
          ++ (filter_map filter_ref d.assertion_method.items
              ++ (filter_map filter_ref d.key_agreement.items
                  ++ (filter_map filter_ref d.capability_delegation.items
                      ++ filter_map filter_ref d.capability_invocation.items))))

  unfoldable pub methods : CoreDocument X → Option MethodScope → List (VerificationMethod X)
  unfolding all_methods
  methods d none = all_methods d
  methods d (some MethodScope.verification_method) = d.verification_method.items
  methods d (some (verification_relationship r)) =
      filter_map (resolve_method_ref d) (related d r).items

  embedded_of : CoreDocument X → List (VerificationMethod X)
  embedded_of d = filter_map filter_ref (verification_relationships d)

  all_methods_lem :
      (d : CoreDocument X) → all_methods d ≡ d.verification_method.items ++ embedded_of d
  unfolding all_methods embedded_of
  all_methods_lem d = simp filter_map-append

  has-filter_map :
      (rs : List (MethodRef X)) (k : DidUrl) → has (filter_map filter_ref rs) k ≡ embedded_with k rs
  unfolding filter_map any
  has-filter_map [] k = refl
  has-filter_map (embed m ∷ rs) k = ground (arith, has-filter_map rs k)
  has-filter_map (refer u ∷ rs) k = ground (arith, has-filter_map rs k)

  Distinct-filter_map : (rs : List (MethodRef X)) → NoClash rs → Distinct (filter_map filter_ref rs)
  unfolding filter_map
  Distinct-filter_map [] n = tt
  Distinct-filter_map (refer u ∷ rs) n = Distinct-filter_map rs n.1
  Distinct-filter_map (embed m ∷ rs) n = (
    has-filter_map rs m.id
        ∙ any-imp (λ r. url_eqb (ref_id r) m.id && is_embedded r) (clash (embed m))
            (λ r. ground (arith, url_eqb_sym (ref_id r) m.id)) rs n.0,
    Distinct-filter_map rs n.1,
  )

  Distinct-append :
      (xs ys : List (VerificationMethod X))
      → Distinct xs
      → Distinct ys
      → All (λ x. has ys x.id ≡ false) xs
      → Distinct (xs ++ ys)
  Distinct-append [] ys d e h = e
  Distinct-append (x ∷ xs) ys d e h = (
    any-append (λ y. url_eqb y.id x.id) xs ys ∙ ground (arith, d.0, h.0),
    Distinct-append xs ys d.1 e h.1,
  )

  -- No two of all methods of a well-formed document, general or embedded, have equal identifiers.
  pub all_methods-Distinct : (d : CoreDocument X) → IsWellFormed d → Distinct (methods d none)
  unfolding methods embedded_of
  all_methods-Distinct d w = rw (all_methods_lem d) (
      Distinct-append d.verification_method.items (embedded_of d) w.keys.methods
        (Distinct-filter_map (verification_relationships d) w.constrained.no_clash)
        (All-imp
          {P = λ (m : VerificationMethod X).
            embedded_with m.id (verification_relationships d) ≡ false}
          {Q = λ (m : VerificationMethod X).
            has (filter_map filter_ref (verification_relationships d)) m.id ≡ false}
          (λ (m : VerificationMethod X) h. has-filter_map (verification_relationships d) m.id ∙ h)
          d.verification_method.items w.constrained.embedded_apart))

  All-related {κ} :
      (P : MethodRef X → Type κ) (d : CoreDocument X) (r : MethodRelationship)
      → All P (verification_relationships d)
      → All P (related d r).items
  All-related P d authentication h = All-left P d.authentication.items _ h
  All-related P d assertion_method h =
      All-left P d.assertion_method.items _ (All-right P d.authentication.items _ h)
  All-related P d key_agreement h =
      All-left P d.key_agreement.items _
        (All-right P d.assertion_method.items _ (All-right P d.authentication.items _ h))
  All-related P d capability_delegation h = All-left P d.capability_delegation.items _ (
      All-right P d.key_agreement.items _
        (All-right P d.assertion_method.items _ (All-right P d.authentication.items _ h)))
  All-related P d capability_invocation h = All-right P d.capability_delegation.items _ (
      All-right P d.key_agreement.items _
        (All-right P d.assertion_method.items _ (All-right P d.authentication.items _ h)))

  map-filter_map :
      (f : MethodRef X → Option (VerificationMethod X)) (rs : List (MethodRef X))
      → All (λ r. is_some (f r) ≡ true) rs
      → map some (filter_map f rs) ≡ map f rs
  unfolding filter_map
  map-filter_map f [] h = refl
  map-filter_map f (r ∷ rs) h = elim (Option-cases (f r)) [
    | inl nothing ↦ absurd (ground arith)
    | inr (m, found) ↦ ground (arith, map-filter_map f rs h.1)
  ]

  -- In a document in which every reference resolves, the methods of a relationship are what its
  -- references resolve to, one for each and in their order.
  pub methods_complete :
      (d : CoreDocument X) (r : MethodRelationship)
      → IsClosed d
      → map some (methods d (some (verification_relationship r)))
        ≡ map (resolve_method_ref d) (related d r).items
  unfolding methods
  methods_complete d r closed =
      map-filter_map (resolve_method_ref d) (related d r).items (All-related _ d r closed)
