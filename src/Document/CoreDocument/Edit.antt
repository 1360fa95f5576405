-- ===== src/Document/CoreDocument/Edit.antt =====
-- The operations of `CoreDocument` that change methods, services and relationships.
use zk_identity.Prelude.{
  Bool, Option, none, some, List, [], ◌∷◌, ◌++◌, Text, if◌then◌else◌, ◌&&◌, not, any, map, is_some,
}
use zk_identity.Prelude.Outcome.{Outcome, ok, err, ◌>>=◌}
use zk_identity.Core.OrderedSet
use zk_identity.Core.OrderedSet.{OrderedSet}
use zk_identity.Did.DidUrl.{DidUrl, url_eqb}
use zk_identity.Document.Method.{
  MethodRelationship, authentication, assertion_method, key_agreement, capability_delegation,
  capability_invocation, MethodScope, verification_relationship, VerificationMethod, MethodRef,
  embed, refer, Service, ref_id, method_key, ref_key, service_key,
}
use zk_identity.Document.CoreDocument.{
  CoreDocument, DocumentError, invalid_service_insertion, invalid_method_embedded, method_not_found,
  related, with_related, verification_relationships, resolve_method,
}

module _ {X : Type 0} where
  -- The five removals stand in an array, so all of them are made. This is the document after them.
  unfoldable pub remove_refs : CoreDocument X → DidUrl → CoreDocument X
  remove_refs d did_url = record d {
    authentication = (OrderedSet.remove d.authentication did_url).0;
    assertion_method = (OrderedSet.remove d.assertion_method did_url).0;
    key_agreement = (OrderedSet.remove d.key_agreement did_url).0;
    capability_delegation = (OrderedSet.remove d.capability_delegation did_url).0;
    capability_invocation = (OrderedSet.remove d.capability_invocation did_url).0;
  }

  -- the array of removed references with their relationships, in its order
  unfoldable pub removed_refs :
      CoreDocument X → DidUrl → List (Option (MethodRef X) × MethodRelationship)
  removed_refs d did_url =
      ((OrderedSet.remove d.authentication did_url).1, authentication)
      ∷ ((OrderedSet.remove d.assertion_method did_url).1, assertion_method)
      ∷ ((OrderedSet.remove d.key_agreement did_url).1, key_agreement)
      ∷ ((OrderedSet.remove d.capability_delegation did_url).1, capability_delegation)
      ∷ ((OrderedSet.remove d.capability_invocation did_url).1, capability_invocation)
      ∷ []

  -- the `for` loop: the first embedded method is returned
  unfoldable pub first_embedded :
      List (Option (MethodRef X) × MethodRelationship) → Option (VerificationMethod X × MethodScope)
  first_embedded [] = none
  first_embedded ((some (embed m), r) ∷ rest) = some (m, verification_relationship r)
  first_embedded ((some (refer u), r) ∷ rest) = first_embedded rest
  first_embedded ((none, r) ∷ rest) = first_embedded rest

  abbrev pub in_general :
      Option (VerificationMethod X) → Option (VerificationMethod X × MethodScope)
  in_general none = none
  in_general (some m) = some (m, MethodScope.verification_method)

  unfoldable pub remove_method_and_scope :
      CoreDocument X → DidUrl → CoreDocument X × Option (VerificationMethod X × MethodScope)
  unfolding remove_refs removed_refs first_embedded
  remove_method_and_scope d did_url =
      let d' = remove_refs d did_url in
      elim (first_embedded (removed_refs d did_url)) [
        | some found ↦ (d', some found)
        | none ↦ (
          record d' { verification_method = (OrderedSet.remove d.verification_method did_url).0 },
          in_general (OrderedSet.remove d.verification_method did_url).1,
        )
      ]

  -- `remove_method(did_url)` is this without the scope
  unfoldable pub remove_method :
      CoreDocument X → DidUrl → CoreDocument X × Option (VerificationMethod X)
  unfolding remove_method_and_scope
  remove_method d did_url =
      let (d', found) = remove_method_and_scope d did_url in
      (d', elim found [ none ↦ none | some (m, scope) ↦ some m ])

  unfoldable pub insert_service :
      CoreDocument X → Service X → Outcome DocumentError (CoreDocument X)
  insert_service d s =
      let id_exists =
        any (λ id. url_eqb id s.id)
          (map ref_id (verification_relationships d)
            ++ map (λ m. m.id) d.verification_method.items) in
      let (service, appended) = OrderedSet.append d.service s in
      if not id_exists && appended
      then ok (record d { service = service })
      else err invalid_service_insertion

  unfoldable pub remove_service : CoreDocument X → DidUrl → CoreDocument X × Option (Service X)
  remove_service d id =
      let (service, removed) = OrderedSet.remove d.service id in
      (record d { service = service }, removed)

  -- what `attach_method_relationship` and `detach_method_relationship` do first
  abbrev pub general_method : CoreDocument X → Text → Outcome DocumentError (VerificationMethod X)
  general_method d q = elim (resolve_method d q (some MethodScope.verification_method)) [
    | some m ↦ ok m
    | none ↦ elim (resolve_method d q none) [
      | some m ↦ err invalid_method_embedded
      | none ↦ err method_not_found
    ]
  ]

  unfoldable pub attach_method_relationship :
      CoreDocument X → Text → MethodRelationship → Outcome DocumentError (CoreDocument X × Bool)
  attach_method_relationship d q r = do
    m ← general_method d q
    let appended = OrderedSet.append (related d r) (refer m.id)
    ok (with_related d r appended.0, appended.1)

  unfoldable pub detach_method_relationship :
      CoreDocument X → Text → MethodRelationship → Outcome DocumentError (CoreDocument X × Bool)
  detach_method_relationship d q r = do
    m ← general_method d q
    let removed = OrderedSet.remove (related d r) m.id
    ok (with_related d r removed.0, is_some removed.1)
