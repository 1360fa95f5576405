-- ===== src/Iota/Placeholder/Restored.antt =====
-- `StateMetadataDocument::from` and `into_iota_document` of
-- identity_iota_core/src/state_metadata/document.rs, one after the other.
use zk_identity.Prelude.{◌≡◌, refl, map}
use zk_identity.Prelude.Outcome.{ok}
use zk_identity.Core.OrderedSet.Mapped.{collected-map, collected-back}
use zk_identity.Did.CoreDid.{BaseDidUrl}
use zk_identity.Did.DidUrl.{CoreDid, did_key}
use zk_identity.Document.Method.{
  MethodRelationship, authentication, assertion_method, key_agreement, capability_delegation,
  capability_invocation, method_key, ref_key, service_key, try_map_method, try_map_ref,
  try_map_service,
}
use zk_identity.Document.CoreDocument.{CoreDocument, related}
use zk_identity.Document.CoreDocument.Constraints.{try_from}
use zk_identity.Document.CoreDocument.Constraints.Decides.{check_id_constraints_iff}
use zk_identity.Document.CoreDocument.Invariant.{IsWellFormed}
use zk_identity.Document.CoreDocument.Mapping.{map_refs, try_map_data, try_map}
use zk_identity.Document.CoreDocument.Mapping.Unchecked.{infallible, map_unchecked}
use zk_identity.Iota.IotaDid.{Crates}
use zk_identity.Iota.StateMetadata.{StateMetadataDocument}
use zk_identity.Iota.Placeholder.{
  IotaDocument, from_document, replace_placeholder, replace_placeholder_with_method_check,
  into_iota_document,
}
use zk_identity.Iota.Placeholder.Dids.{
  IsPlainMethod, IsPlainRef, IsPlainService, replaced, mapped_method, mapped_ref, mapped_service,
  methods-apart, refs-apart, services-apart, method-mapped, ref-mapped, service-mapped,
  method-restored, ref-restored, service-restored,
}
use zk_identity.Iota.Placeholder.Controllers.{
  IsPlainDocument, id-restored, mapped_controllers, controllers-mapped, controllers-restored,
}

-- the document in the state metadata
abbrev mapped_document : {X : Type 0} → CoreDocument X → CoreDocument X
mapped_document d =
    let f = replaced d.id in
    record {
      id = f d.id;
      controller = mapped_controllers d.id d.controller;
      also_known_as = d.also_known_as;
      verification_method = record { items = map (mapped_method f) d.verification_method.items };
      authentication = record { items = map (mapped_ref f) d.authentication.items };
      assertion_method = record { items = map (mapped_ref f) d.assertion_method.items };
      key_agreement = record { items = map (mapped_ref f) d.key_agreement.items };
      capability_delegation = record { items = map (mapped_ref f) d.capability_delegation.items };
      capability_invocation = record { items = map (mapped_ref f) d.capability_invocation.items };
      service = record { items = map (mapped_service f) d.service.items };
      content = d.content;
    }

module _ (c : Crates) (parts : CoreDid → BaseDidUrl) {X : Type 0} where
  refs-mapped :
      (d : CoreDocument X) (r : MethodRelationship)
      → IsPlainDocument c parts d
      → IsWellFormed d
      → map_refs (infallible (replaced d.id)) (related d r)
        ≡ ok (record { items = map (mapped_ref (replaced d.id)) (related d r).items })
  refs-mapped d r p w =
      collected-map IsPlainRef (mapped_ref (replaced d.id))
        (try_map_ref (infallible (replaced d.id))) (refs-apart d.id) (ref-mapped d.id) (related d r)
        (p.relations r) (w.keys.relations r)

  refs-restored :
      (d : CoreDocument X) (r : MethodRelationship)
      → IsPlainDocument c parts d
      → IsWellFormed d
      → map_refs
          (replace_placeholder d.id)
          (record { items = map (mapped_ref (replaced d.id)) (related d r).items })
        ≡ ok (related d r)
  refs-restored d r p w =
      collected-back IsPlainRef (mapped_ref (replaced d.id))
        (try_map_ref (replace_placeholder d.id)) (ref-restored d.id) (related d r) (p.relations r)
        (w.keys.relations r)

  data-mapped :
      (d : CoreDocument X)
      → IsPlainDocument c parts d
      → IsWellFormed d
      → map_unchecked d (replaced d.id) (replaced d.id) (replaced d.id) (replaced d.id)
        ≡ ok (mapped_document d)
  unfolding map_unchecked try_map_data
  data-mapped d p w =
      let f = replaced d.id in
      let methods =
        collected-map IsPlainMethod (mapped_method f) (try_map_method (infallible f))
          (methods-apart d.id) (method-mapped d.id) d.verification_method p.methods
          w.keys.methods in
      let services =
        collected-map IsPlainService (mapped_service f) (try_map_service (infallible f))
          (services-apart d.id) (service-mapped d.id) d.service p.services w.keys.services in
      rw (controllers-mapped c parts d.id d.controller p.controllers) (
        rw methods (
          rw (refs-mapped d authentication p w) (
            rw (refs-mapped d assertion_method p w) (
              rw (refs-mapped d key_agreement p w) (
                rw (refs-mapped d capability_delegation p w)
                  (rw (refs-mapped d capability_invocation p w) (rw services refl)))))))

  data-restored :
      (d : CoreDocument X)
      → IsPlainDocument c parts d
      → IsWellFormed d
      → try_map_data
          (mapped_document d)
          (replace_placeholder_with_method_check c parts d.id)
          (replace_placeholder_with_method_check c parts d.id)
          (replace_placeholder d.id)
          (replace_placeholder d.id)
        ≡ ok d
  unfolding try_map_data
  data-restored d p w =
      let f = replaced d.id in
      let g = replace_placeholder d.id in
      let methods =
        collected-back IsPlainMethod (mapped_method f) (try_map_method g) (method-restored d.id)
          d.verification_method p.methods w.keys.methods in
      let services =
        collected-back IsPlainService (mapped_service f) (try_map_service g) (service-restored d.id)
          d.service p.services w.keys.services in
      rw (id-restored c parts d.id) (
        rw (controllers-restored c parts d.id d.controller p.controllers) (
          rw methods (
            rw (refs-restored d authentication p w) (
              rw (refs-restored d assertion_method p w) (
                rw (refs-restored d key_agreement p w) (
                  rw (refs-restored d capability_delegation p w)
                    (rw (refs-restored d capability_invocation p w) (rw services refl))))))))

  try_from-IsWellFormed : (d : CoreDocument X) → IsWellFormed d → try_from d ≡ ok d
  unfolding try_from
  try_from-IsWellFormed d w = rw ((check_id_constraints_iff d).1 w.constrained) refl

  -- The state metadata of a well-formed document, in which no DID is the placeholder and every
  -- controller is a valid DID of the method `iota`, is read back, for the document's DID, as that
  -- document.
  pub into_iota_document-from :
      (d : IotaDocument X)
      → IsWellFormed d.document
      → IsPlainDocument c parts d.document
      → (s : StateMetadataDocument X) × (from_document d ≡ ok s)
        × (into_iota_document c parts s d.document.id ≡ ok d)
  unfolding from_document into_iota_document try_map
  into_iota_document-from d w p = (
    record { document = mapped_document d.document; metadata = d.metadata },
    rw (data-mapped d.document p w) refl,
    rw (data-restored d.document p w) (rw (try_from-IsWellFormed d.document w) refl),
  )
