-- ===== src/Document/CoreDocument/Builder.antt =====
-- `DocumentBuilder` and `CoreDocument::from_builder` of identity_document/src/document.
use zk_identity.Prelude.{
  ◌≡◌, sym, subst, Option, none, some, List, [], ◌∷◌, Text, arith, Option-cases, inl, inr,
}
use zk_identity.Prelude.Outcome.{Outcome, ok, err, ◌>>=◌, >>=-eq-ok, ok-injective}
use zk_identity.Core.OneOrSet.{OneOrSet, try_from_vec}
use zk_identity.Core.OrderedSet
use zk_identity.Core.OrderedSet.{OrderedSet, KeyComparable, text_key}
use zk_identity.Core.OrderedSet.Keys.{Distinct}
use zk_identity.Core.OrderedSet.Unique.{IsUnique}
use zk_identity.Core.OrderedSet.FromVec.{try_from_iff}
use zk_identity.Did.DidUrl.{CoreDid, did_key}
use zk_identity.Document.Method.{
  MethodRelationship, authentication, assertion_method, key_agreement, capability_delegation,
  capability_invocation, VerificationMethod, MethodRef, Service, method_key, ref_key, service_key,
}
use zk_identity.Document.CoreDocument.{
  CoreDocument, DocumentError, missing_id, invalid_controller, invalid_also_known_as,
  invalid_verification_method, invalid_service, invalid_relationship, related,
}
use zk_identity.Document.CoreDocument.Constraints.{check_id_constraints, try_from, IsConstrained}
use zk_identity.Document.CoreDocument.Constraints.Decides.{check_id_constraints_iff}
use zk_identity.Document.CoreDocument.Invariant.{IsWellFormed}
use zk_identity.Document.CoreDocument.Mapping.{related-IsUnique}

pub record DocumentBuilder (X : Type 0) : Type 0 where
  pub id : Option CoreDid
  pub controller : List CoreDid
  pub also_known_as : List Text
  pub verification_method : List (VerificationMethod X)
  pub authentication : List (MethodRef X)
  pub assertion_method : List (MethodRef X)
  pub key_agreement : List (MethodRef X)
  pub capability_delegation : List (MethodRef X)
  pub capability_invocation : List (MethodRef X)
  pub service : List (Service X)
  pub content : X

-- `ok_or`
abbrev pub ok_or : {E A : Type 0} → Option A → E → Outcome E A
ok_or none e = err e
ok_or (some a) e = ok a

-- `try_into().map_err(…)`
abbrev pub into_set :
    {T : Type 0} ⦃c : KeyComparable T⦄
    → List T
    → DocumentError
    → Outcome DocumentError (OrderedSet T)
into_set xs e = ok_or (OrderedSet.try_from xs) e

abbrev pub into_controller : List CoreDid → Outcome DocumentError (Option (OneOrSet CoreDid))
into_controller [] = ok none
into_controller (c ∷ cs) = do s ← ok_or (try_from_vec (c ∷ cs)) invalid_controller; ok (some s)

module _ {X : Type 0} where
  unfoldable pub from_builder : DocumentBuilder X → Outcome DocumentError (CoreDocument X)
  unfolding try_from
  from_builder builder = do
    id ← ok_or builder.id missing_id
    controller ← into_controller builder.controller
    also_known_as ← into_set builder.also_known_as invalid_also_known_as
    verification_method ← into_set builder.verification_method invalid_verification_method
    auth ← into_set builder.authentication (invalid_relationship authentication)
    assertion ← into_set builder.assertion_method (invalid_relationship assertion_method)
    agreement ← into_set builder.key_agreement (invalid_relationship key_agreement)
    delegation ← into_set builder.capability_delegation (invalid_relationship capability_delegation)
    invocation ← into_set builder.capability_invocation (invalid_relationship capability_invocation)
    service ← into_set builder.service invalid_service
    try_from (record {
      id = id;
      controller = controller;
      also_known_as = also_known_as;
      verification_method = verification_method;
      authentication = auth;
      assertion_method = assertion;
      key_agreement = agreement;
      capability_delegation = delegation;
      capability_invocation = invocation;
      service = service;
      content = builder.content;
    })

-- the set has the entries of the vector, and their keys are distinct
abbrev Holds : {T : Type 0} ⦃c : KeyComparable T⦄ → OrderedSet T → List T → Type 0
Holds s xs = (s.items ≡ xs) × IsUnique s

-- a vector that is accepted is kept in its order
into_set-ok :
    {T : Type 0} ⦃c : KeyComparable T⦄ (xs : List T) (e : DocumentError) {s : OrderedSet T}
    → into_set xs e ≡ ok s
    → (s.items ≡ xs) × IsUnique s
into_set-ok xs e {s} h = elim (Option-cases (OrderedSet.try_from xs)) [
  | inl nothing ↦ absurd (ground arith)
  | inr (t, found) ↦
      let same : t ≡ s = ground arith in
      let (items, distinct) = (try_from_iff xs t).0 found in
      (
        subst (λ s. s.items ≡ xs) same items,
        subst IsUnique same (subst (λ ys. Distinct ys) (sym items) distinct),
      )
]

module _ {X : Type 0} where
  -- the references that a builder has for a relationship
  abbrev pub built : DocumentBuilder X → MethodRelationship → List (MethodRef X)
  built b MethodRelationship.authentication = b.authentication
  built b MethodRelationship.assertion_method = b.assertion_method
  built b MethodRelationship.key_agreement = b.key_agreement
  built b MethodRelationship.capability_delegation = b.capability_delegation
  built b MethodRelationship.capability_invocation = b.capability_invocation

  -- the document has what the builder has
  pub record IsBuilt (b : DocumentBuilder X) (e : CoreDocument X) : Type 0 where
    pub methods : e.verification_method.items ≡ b.verification_method
    pub references : (r : MethodRelationship) → (related e r).items ≡ built b r
    pub services : e.service.items ≡ b.service

  checked_document :
      (e : CoreDocument X) {e' : CoreDocument X} → try_from e ≡ ok e' → (e ≡ e') × IsConstrained e
  unfolding try_from
  checked_document e h =
      let (done, checked, same) = >>=-eq-ok (check_id_constraints e) _ h in
      (ok-injective same, (check_id_constraints_iff e).0 checked)

  built_references :
      (b : DocumentBuilder X) (e : CoreDocument X)
      → e.authentication.items ≡ b.authentication
      → e.assertion_method.items ≡ b.assertion_method
      → e.key_agreement.items ≡ b.key_agreement
      → e.capability_delegation.items ≡ b.capability_delegation
      → e.capability_invocation.items ≡ b.capability_invocation
      → (r : MethodRelationship) → (related e r).items ≡ built b r
  built_references b e p q r s t authentication = p
  built_references b e p q r s t assertion_method = q
  built_references b e p q r s t key_agreement = r
  built_references b e p q r s t capability_delegation = s
  built_references b e p q r s t capability_invocation = t

  assembled-IsBuilt :
      (b : DocumentBuilder X) (e : CoreDocument X)
      → Holds e.verification_method b.verification_method
      → Holds e.authentication b.authentication
      → Holds e.assertion_method b.assertion_method
      → Holds e.key_agreement b.key_agreement
      → Holds e.capability_delegation b.capability_delegation
      → Holds e.capability_invocation b.capability_invocation
      → Holds e.service b.service
      → IsConstrained e
      → IsWellFormed e × IsBuilt b e
  assembled-IsBuilt b e m r a k d i s constrained = (
    record {
      keys = record {
        methods = m.1;
        relations = related-IsUnique e r.1 a.1 k.1 d.1 i.1;
        services = s.1;
      };
      constrained = constrained;
    },
    record { methods = m.0; references = built_references b e r.0 a.0 k.0 d.0 i.0; services = s.0 },
  )

  -- A document that is built is well-formed, and has the methods, references and services of the
  -- builder, in their order: a repeated key is an error, never dropped.
  pub from_builder-IsWellFormed :
      (b : DocumentBuilder X) {e : CoreDocument X}
      → from_builder b ≡ ok e
      → IsWellFormed e × IsBuilt b e
  unfolding from_builder
  from_builder-IsWellFormed b p =
      let (id, _, p1) = >>=-eq-ok (ok_or b.id missing_id) _ p in
      let (controller, _, p2) = >>=-eq-ok (into_controller b.controller) _ p1 in
      let (names, _, p3) = >>=-eq-ok (into_set b.also_known_as invalid_also_known_as) _ p2 in
      let (ms, m, p4) =
        >>=-eq-ok (into_set b.verification_method invalid_verification_method) _ p3 in
      let (rs, r, p5) =
        >>=-eq-ok (into_set b.authentication (invalid_relationship authentication)) _ p4 in
      let (as', a, p6) =
        >>=-eq-ok (into_set b.assertion_method (invalid_relationship assertion_method)) _ p5 in
      let (ks, k, p7) =
        >>=-eq-ok (into_set b.key_agreement (invalid_relationship key_agreement)) _ p6 in
      let (ds, d, p8) =
        >>=-eq-ok (into_set b.capability_delegation (invalid_relationship capability_delegation)) _
          p7 in
      let (is, i, p9) =
        >>=-eq-ok (into_set b.capability_invocation (invalid_relationship capability_invocation)) _
          p8 in
      let (ss, s, p10) = >>=-eq-ok (into_set b.service invalid_service) _ p9 in
      let assembled : CoreDocument X = record {
        id = id;
        controller = controller;
        also_known_as = names;
        verification_method = ms;
        authentication = rs;
        assertion_method = as';
        key_agreement = ks;
        capability_delegation = ds;
        capability_invocation = is;
        service = ss;
        content = b.content;
      } in
      let (same, constrained) = checked_document assembled p10 in
      subst (λ e. IsWellFormed e × IsBuilt b e) same
        (assembled-IsBuilt b assembled (into_set-ok b.verification_method _ m)
          (into_set-ok b.authentication _ r) (into_set-ok b.assertion_method _ a)
          (into_set-ok b.key_agreement _ k) (into_set-ok b.capability_delegation _ d)
          (into_set-ok b.capability_invocation _ i) (into_set-ok b.service _ s) constrained)
