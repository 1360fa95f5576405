-- ===== src/Document/CoreDocument/Services.antt =====
-- `insert_service` and `remove_service` of core_document.rs.
use zk_identity.Prelude.{
  ◌≡◌, subst, Bool, false, [], ◌∷◌, ◌++◌, if◌then◌else◌, ◌||◌, arith, map, any-append, any-map,
  All-snoc, Sub-refl,
}
use zk_identity.Prelude.Outcome.{ok, err}
use zk_identity.Core.OrderedSet.{contains, append}
use zk_identity.Core.OrderedSet.Keys.{Distinct-snoc}
use zk_identity.Core.OrderedSet.Unique.{remove-IsUnique, Sub-remove}
use zk_identity.Did.DidUrl.{DidUrl, url_eqb}
use zk_identity.Document.Method.{
  VerificationMethod, Service, ref_id, method_key, ref_key, service_key,
}
use zk_identity.Document.CoreDocument.{
  CoreDocument, invalid_service_insertion, verification_relationships,
}
use zk_identity.Document.CoreDocument.Edit.{insert_service, remove_service}
use zk_identity.Document.CoreDocument.Constraints.{ref_with, method_with}
use zk_identity.Document.CoreDocument.Invariant.{IsWellFormed, IsConstrained-Sub}

module _ {X : Type 0} where
  abbrev pub identifier_in_use : CoreDocument X → DidUrl → Bool
  identifier_in_use d k =
      ref_with k (verification_relationships d)
      || (method_with k d.verification_method.items || contains d.service k)

  -- `insert_service` stores the service last if no method, reference or service has its identifier,
  -- and fails otherwise.
  pub insert_service_lem :
      (d : CoreDocument X) (s : Service X)
      → insert_service d s ≡ (
          if identifier_in_use d s.id
          then err invalid_service_insertion
          else ok (record d { service = record { items = d.service.items ++ s ∷ [] } }))
  unfolding insert_service append
  insert_service_lem d s = ground (
    arith,
    any-append (λ id. url_eqb id s.id) (map ref_id (verification_relationships d))
        (map (λ m. m.id) d.verification_method.items),
    any-map (λ id. url_eqb id s.id) ref_id (verification_relationships d),
    any-map (λ id. url_eqb id s.id) (λ (m : VerificationMethod X). m.id)
        d.verification_method.items,
  )

  insert_service-ok :
      (d : CoreDocument X) (s : Service X) {e : CoreDocument X}
      → insert_service d s ≡ ok e
      → (identifier_in_use d s.id ≡ false)
        × (◌≡◌ {A = CoreDocument X}
            (record d { service = record { items = d.service.items ++ s ∷ [] } })
            e)
  insert_service-ok d s h = ground (arith, insert_service_lem d s)

  -- When a service is inserted into a well-formed document, the document that results is well-formed.
  pub insert_service-IsWellFormed :
      (d : CoreDocument X) (s : Service X) {e : CoreDocument X}
      → insert_service d s ≡ ok e
      → IsWellFormed d
      → IsWellFormed e
  unfolding contains
  insert_service-IsWellFormed d s {e} h w =
      let (free, same) = insert_service-ok d s h in
      subst IsWellFormed same (record {
        keys = record {
          methods = w.keys.methods;
          relations = w.keys.relations;
          services = Distinct-snoc d.service.items s w.keys.services (ground arith);
        };
        constrained = record {
          no_clash = w.constrained.no_clash;
          embedded_apart = w.constrained.embedded_apart;
          services_apart =
              All-snoc _ d.service.items s w.constrained.services_apart
                (ground arith, ground arith);
        };
      })

  -- Removing a service from a well-formed document leaves it well-formed.
  pub remove_service-IsWellFormed :
      (d : CoreDocument X) (k : DidUrl) → IsWellFormed d → IsWellFormed (remove_service d k).0
  unfolding remove_service
  remove_service-IsWellFormed d k w = record {
    keys = record {
      methods = w.keys.methods;
      relations = w.keys.relations;
      services = remove-IsUnique d.service k w.keys.services;
    };
    constrained =
        IsConstrained-Sub d (remove_service d k).0 (Sub-refl (verification_relationships d))
          (Sub-refl d.verification_method.items) (Sub-remove d.service k) w.constrained;
  }
