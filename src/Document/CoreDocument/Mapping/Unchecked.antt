-- ===== src/Document/CoreDocument/Mapping/Unchecked.antt =====
-- `map_unchecked` on documents: functions that cannot fail.
use zk_identity.Prelude.{◌≡◌, refl, ap, none, some, [], ◌∷◌}
use zk_identity.Prelude.Outcome.{Outcome, ok, err, panic, traverse}
use zk_identity.Core.OneOrSet.{one, set, collapse, try_map_items}
use zk_identity.Core.OrderedSet
use zk_identity.Core.OrderedSet.{OrderedSet}
use zk_identity.Did.DidUrl
use zk_identity.Did.DidUrl.{CoreDid, did_key}
use zk_identity.Document.Method.{
  embed, refer, method_key, ref_key, service_key, try_map_method, try_map_ref, try_map_service,
}
use zk_identity.Document.CoreDocument.{CoreDocument}
use zk_identity.Document.CoreDocument.Invariant.{HasUniqueKeys}
use zk_identity.Document.CoreDocument.Mapping.{
  DidMap, map_controller, map_methods, map_refs, map_services, try_map_data,
  try_map_data-HasUniqueKeys,
}

-- `core::convert::Infallible`
pub data Infallible : Type 0 where

-- `expect`
abbrev expect : {E F A : Type 0} → Outcome E A → Outcome F A
expect (ok a) = ok a
expect (err e) = panic
expect panic = panic

abbrev pub infallible : (CoreDid → CoreDid) → DidMap Infallible
infallible f did = ok (f did)

module _ {X : Type 0} where
  unfoldable pub map_unchecked :
      CoreDocument X
      → (CoreDid → CoreDid)
      → (CoreDid → CoreDid)
      → (CoreDid → CoreDid)
      → (CoreDid → CoreDid)
      → Outcome Infallible (CoreDocument X)
  unfolding try_map_data
  map_unchecked d id_update controller_update methods_update service_update = expect (
      try_map_data d (infallible id_update) (infallible controller_update)
        (infallible methods_update) (infallible service_update))

-- an answer for every argument
abbrev IsTotal : {E A B : Type 0} → (A → Outcome E B) → Type 0
IsTotal {A = A} {B = B} f = (a : A) → (b : B) × (f a ≡ ok b)

traverse-IsTotal : {E A B : Type 0} (f : A → Outcome E B) → IsTotal f → IsTotal (traverse f)
traverse-IsTotal f total [] = ([], refl)
traverse-IsTotal f total (x ∷ xs) =
    let (y, e) = total x in let (ys, es) = traverse-IsTotal f total xs in (y ∷ ys, rw (e, es) refl)

module _ {X : Type 0} where
  method-IsTotal : (f : CoreDid → CoreDid) → IsTotal (try_map_method {X = X} (infallible f))
  unfolding try_map_method DidUrl.try_map
  method-IsTotal f m = (_, refl)

  ref-IsTotal : (f : CoreDid → CoreDid) → IsTotal (try_map_ref {X = X} (infallible f))
  unfolding try_map_ref try_map_method DidUrl.try_map
  ref-IsTotal f (embed m) = (_, refl)
  ref-IsTotal f (refer u) = (_, refl)

  service-IsTotal : (f : CoreDid → CoreDid) → IsTotal (try_map_service {X = X} (infallible f))
  unfolding try_map_service DidUrl.try_map
  service-IsTotal f s = (_, refl)

  methods-IsTotal : (f : CoreDid → CoreDid) → IsTotal (map_methods {X = X} (infallible f))
  methods-IsTotal f s =
      let (ms, e) = traverse-IsTotal (try_map_method (infallible f)) (method-IsTotal f) s.items in
      (OrderedSet.from_iter ms, rw e refl)

  refs-IsTotal : (f : CoreDid → CoreDid) → IsTotal (map_refs {X = X} (infallible f))
  refs-IsTotal f s =
      let (rs, e) = traverse-IsTotal (try_map_ref (infallible f)) (ref-IsTotal f) s.items in
      (OrderedSet.from_iter rs, rw e refl)

  services-IsTotal : (f : CoreDid → CoreDid) → IsTotal (map_services {X = X} (infallible f))
  services-IsTotal f s =
      let (ss, e) = traverse-IsTotal (try_map_service (infallible f)) (service-IsTotal f) s.items in
      (OrderedSet.from_iter ss, rw e refl)

did-IsTotal : (f : CoreDid → CoreDid) → IsTotal (infallible f)
did-IsTotal f did = (f did, refl)

controllers-IsTotal : (f : CoreDid → CoreDid) → IsTotal (try_map_items (infallible f))
unfolding try_map_items
controllers-IsTotal f (one did) = (_, refl)
controllers-IsTotal f (set s) =
    let (ds, e) = traverse-IsTotal (infallible f) (did-IsTotal f) s.items in
    (collapse (OrderedSet.from_iter ds), rw e refl)

controller-IsTotal : (f : CoreDid → CoreDid) → IsTotal (map_controller (infallible f))
controller-IsTotal f none = (none, refl)
controller-IsTotal f (some controllers) =
    let (cs, e) = controllers-IsTotal f controllers in (some cs, rw e refl)

module _ {X : Type 0} where
  data_total :
      (d : CoreDocument X) (f g h k : CoreDid → CoreDid)
      → (e : CoreDocument X) × (try_map_data d
            (infallible f)
            (infallible g)
            (infallible h)
            (infallible k)
          ≡ ok e)
        × (e.id ≡ f d.id)
  unfolding try_map_data
  data_total d f g h k =
      let (controller, c) = controller-IsTotal g d.controller in
      let (ms, m) = methods-IsTotal h d.verification_method in
      let (rs, r) = refs-IsTotal h d.authentication in
      let (as', a) = refs-IsTotal h d.assertion_method in
      let (ks, ke) = refs-IsTotal h d.key_agreement in
      let (ds, de) = refs-IsTotal h d.capability_delegation in
      let (is, i) = refs-IsTotal h d.capability_invocation in
      let (ss, s) = services-IsTotal k d.service in
      (
        record {
          id = f d.id;
          controller = controller;
          also_known_as = d.also_known_as;
          verification_method = ms;
          authentication = rs;
          assertion_method = as';
          key_agreement = ks;
          capability_delegation = ds;
          capability_invocation = is;
          service = ss;
          content = d.content;
        },
        rw c (rw m (rw r (rw a (rw ke (rw de (rw i (rw s refl))))))),
        refl,
      )

  -- `map_unchecked` never panics: it answers a document with the mapped identifier, in which the keys
  -- of every set are distinct.
  pub map_unchecked-total :
      (d : CoreDocument X) (f g h k : CoreDid → CoreDid)
      → (e : CoreDocument X) × (map_unchecked d f g h k ≡ ok e) × (e.id ≡ f d.id) × HasUniqueKeys e
  unfolding map_unchecked
  map_unchecked-total d f g h k =
      let (e, mapped, id) = data_total d f g h k in
      (
        e,
        ap expect mapped,
        id,
        try_map_data-HasUniqueKeys d (infallible f) (infallible g) (infallible h) (infallible k)
            mapped,
      )
