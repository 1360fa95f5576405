-- ===== src/Document/CoreDocument/Mapping.antt =====
-- `try_map` on documents: functions applied to the DIDs of the document, its controllers, its methods
-- and its services.
pub mod Unchecked
use zk_identity.Prelude.{◌≡◌, refl, subst, Option, none, some}
use zk_identity.Prelude.Outcome.{
  Outcome, ok, err, panic, ◌>>=◌, map_err, traverse, >>=-eq-ok, ok-injective,
}
use zk_identity.Core.OneOrSet.{OneOrSet, try_map_items}
use zk_identity.Core.OrderedSet
use zk_identity.Core.OrderedSet.{OrderedSet}
use zk_identity.Core.OrderedSet.Unique.{IsUnique, from_iter-IsUnique}
use zk_identity.Did.DidUrl.{CoreDid, did_key}
use zk_identity.Document.Method.{
  MethodRelationship, authentication, assertion_method, key_agreement, capability_delegation,
  capability_invocation, VerificationMethod, MethodRef, Service, method_key, ref_key, service_key,
  try_map_method, try_map_ref, try_map_service,
}
use zk_identity.Document.CoreDocument.{CoreDocument, DocumentError, related}
use zk_identity.Document.CoreDocument.Constraints.{check_id_constraints, try_from, IsConstrained}
use zk_identity.Document.CoreDocument.Constraints.Decides.{check_id_constraints_iff}
use zk_identity.Document.CoreDocument.Invariant.{IsWellFormed, HasUniqueKeys}

-- The functions are without effects of their own.
abbrev pub DidMap : Type 0 → Type 0
DidMap E = CoreDid → Outcome E CoreDid

abbrev pub map_controller :
    {E : Type 0} → DidMap E → Option (OneOrSet CoreDid) → Outcome E (Option (OneOrSet CoreDid))
map_controller f none = ok none
map_controller f (some controllers) = do c ← try_map_items f controllers; ok (some c)

module _ {X : Type 0} where
  pub related-IsUnique :
      (e : CoreDocument X)
      → IsUnique e.authentication
      → IsUnique e.assertion_method
      → IsUnique e.key_agreement
      → IsUnique e.capability_delegation
      → IsUnique e.capability_invocation
      → (r : MethodRelationship) → IsUnique (related e r)
  related-IsUnique e a b c d f authentication = a
  related-IsUnique e a b c d f assertion_method = b
  related-IsUnique e a b c d f key_agreement = c
  related-IsUnique e a b c d f capability_delegation = d
  related-IsUnique e a b c d f capability_invocation = f

module _ {X E : Type 0} where
  -- `into_iter().map(…).collect::<Result<_, E>>()`
  abbrev pub map_methods :
      DidMap E → OrderedSet (VerificationMethod X) → Outcome E (OrderedSet (VerificationMethod X))
  map_methods f s = do ms ← traverse (try_map_method f) s.items; ok (OrderedSet.from_iter ms)

  abbrev pub map_refs : DidMap E → OrderedSet (MethodRef X) → Outcome E (OrderedSet (MethodRef X))
  map_refs f s = do rs ← traverse (try_map_ref f) s.items; ok (OrderedSet.from_iter rs)

  abbrev pub map_services : DidMap E → OrderedSet (Service X) → Outcome E (OrderedSet (Service X))
  map_services f s = do ss ← traverse (try_map_service f) s.items; ok (OrderedSet.from_iter ss)

  -- `CoreDocumentData::try_map`
  unfoldable pub try_map_data :
      CoreDocument X → DidMap E → DidMap E → DidMap E → DidMap E → Outcome E (CoreDocument X)
  try_map_data d id_map controller_map method_map services_map = do
    id ← id_map d.id
    controller ← map_controller controller_map d.controller
    verification_method ← map_methods method_map d.verification_method
    auth ← map_refs method_map d.authentication
    assertion ← map_refs method_map d.assertion_method
    agreement ← map_refs method_map d.key_agreement
    delegation ← map_refs method_map d.capability_delegation
    invocation ← map_refs method_map d.capability_invocation
    service ← map_services services_map d.service
    ok (record {
      id = id;
      controller = controller;
      also_known_as = d.also_known_as;
      verification_method = verification_method;
      authentication = auth;
      assertion_method = assertion;
      key_agreement = agreement;
      capability_delegation = delegation;
      capability_invocation = invocation;
      service = service;
      content = d.content;
    })

  -- `CoreDocument::try_map`
  unfoldable pub try_map :
      CoreDocument X
      → DidMap E
      → DidMap E
      → DidMap E
      → DidMap E
      → (DocumentError → E)
      → Outcome E (CoreDocument X)
  unfolding try_map_data try_from
  try_map d id_update controller_update methods_update service_update error_cast = do
    data' ← try_map_data d id_update controller_update methods_update service_update
    map_err error_cast (try_from data')

  map_methods-IsUnique :
      (f : DidMap E) (s : OrderedSet (VerificationMethod X)) {t : OrderedSet (VerificationMethod X)}
      → map_methods f s ≡ ok t
      → IsUnique t
  map_methods-IsUnique f s h =
      let (ms, a, k) =
        >>=-eq-ok (traverse (try_map_method f) s.items) (λ ms. ok (OrderedSet.from_iter ms)) h in
      subst IsUnique (ok-injective k) (from_iter-IsUnique ms)

  map_refs-IsUnique :
      (f : DidMap E) (s : OrderedSet (MethodRef X)) {t : OrderedSet (MethodRef X)}
      → map_refs f s ≡ ok t
      → IsUnique t
  map_refs-IsUnique f s h =
      let (rs, a, k) =
        >>=-eq-ok (traverse (try_map_ref f) s.items) (λ rs. ok (OrderedSet.from_iter rs)) h in
      subst IsUnique (ok-injective k) (from_iter-IsUnique rs)

  map_services-IsUnique :
      (f : DidMap E) (s : OrderedSet (Service X)) {t : OrderedSet (Service X)}
      → map_services f s ≡ ok t
      → IsUnique t
  map_services-IsUnique f s h =
      let (ss, a, k) =
        >>=-eq-ok (traverse (try_map_service f) s.items) (λ ss. ok (OrderedSet.from_iter ss)) h in
      subst IsUnique (ok-injective k) (from_iter-IsUnique ss)

  pub try_map_data-HasUniqueKeys :
      (d : CoreDocument X) (f g h k : DidMap E) {e : CoreDocument X}
      → try_map_data d f g h k ≡ ok e
      → HasUniqueKeys e
  unfolding try_map_data
  try_map_data-HasUniqueKeys d f g h k p =
      let (id, _, p1) = >>=-eq-ok (f d.id) _ p in
      let (controller, _, p2) = >>=-eq-ok (map_controller g d.controller) _ p1 in
      let (ms, m, p3) = >>=-eq-ok (map_methods h d.verification_method) _ p2 in
      let (as', a, p4) = >>=-eq-ok (map_refs h d.authentication) _ p3 in
      let (bs, b, p5) = >>=-eq-ok (map_refs h d.assertion_method) _ p4 in
      let (cs, c, p6) = >>=-eq-ok (map_refs h d.key_agreement) _ p5 in
      let (ds, dd, p7) = >>=-eq-ok (map_refs h d.capability_delegation) _ p6 in
      let (es, ee, p8) = >>=-eq-ok (map_refs h d.capability_invocation) _ p7 in
      let (ss, s, p9) = >>=-eq-ok (map_services k d.service) _ p8 in
      let mapped : CoreDocument X = record {
        id = id;
        controller = controller;
        also_known_as = d.also_known_as;
        verification_method = ms;
        authentication = as';
        assertion_method = bs;
        key_agreement = cs;
        capability_delegation = ds;
        capability_invocation = es;
        service = ss;
        content = d.content;
      } in
      subst HasUniqueKeys (ok-injective p9) (record {
        methods = map_methods-IsUnique h d.verification_method m;
        relations =
            related-IsUnique mapped (map_refs-IsUnique h d.authentication a)
              (map_refs-IsUnique h d.assertion_method b) (map_refs-IsUnique h d.key_agreement c)
              (map_refs-IsUnique h d.capability_delegation dd)
              (map_refs-IsUnique h d.capability_invocation ee);
        services = map_services-IsUnique k d.service s;
      })

  accepted :
      (checked : Outcome DocumentError (Unit {0})) (d : CoreDocument X)
      (error_cast : DocumentError → E) {e : CoreDocument X}
      → map_err error_cast (checked >>= λ _. ok d) ≡ ok e
      → (checked ≡ ok tt) × (d ≡ e)
  accepted (ok done) d error_cast h = (refl, ok-injective h)
  accepted (err why) d error_cast h = absurd (cc h)
  accepted panic d error_cast h = absurd (cc h)

  try_from-IsConstrained :
      (d : CoreDocument X) (error_cast : DocumentError → E) {e : CoreDocument X}
      → map_err error_cast (try_from d) ≡ ok e
      → (d ≡ e) × IsConstrained d
  unfolding try_from
  try_from-IsConstrained d error_cast h =
      let (checked, same) = accepted (check_id_constraints d) d error_cast h in
      (same, (check_id_constraints_iff d).0 checked)

  -- When `try_map` answers a document, that document is well-formed, whatever the document was and
  -- whatever the functions do to the DIDs.
  pub try_map-IsWellFormed :
      (d : CoreDocument X) (f g h k : DidMap E) (error_cast : DocumentError → E)
      {e : CoreDocument X}
      → try_map d f g h k error_cast ≡ ok e
      → IsWellFormed e
  unfolding try_map
  try_map-IsWellFormed d f g h k error_cast p =
      let (data', mapped, checked) = >>=-eq-ok (try_map_data d f g h k) _ p in
      let (same, constrained) = try_from-IsConstrained data' error_cast checked in
      subst IsWellFormed same
        (record { keys = try_map_data-HasUniqueKeys d f g h k mapped; constrained = constrained })
