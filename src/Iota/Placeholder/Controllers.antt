-- ===== src/Iota/Placeholder/Controllers.antt =====
-- The controllers of a document in identity_iota_core/src/state_metadata/document.rs, under the two
-- replacements.
use zk_identity.Prelude.{
  ◌≡◌, refl, sym, ap, List, [], ◌∷◌, Option, none, some, map, All, arith, length, ◌≤◌, suc,
  Bool-cases, inl, inr,
}
use zk_identity.Prelude.Outcome.{ok}
use zk_identity.Core.OneOrSet.{OneOrSet, one, set, collapsed, try_map_items, IsCanonical}
use zk_identity.Core.OrderedSet.Mapped.{
  KeepsKeys, Distinct-map, from_iter-Distinct, traverse-map, traverse-back,
}
use zk_identity.Did.CoreDid.{BaseDidUrl}
use zk_identity.Did.DidUrl.{CoreDid, did_eqb, did_key, did_eqb_refl, did_eqb_sound}
use zk_identity.Document.Method.{MethodRelationship, method_key, ref_key, service_key}
use zk_identity.Document.CoreDocument.{CoreDocument, related}
use zk_identity.Document.CoreDocument.Mapping.{map_controller}
use zk_identity.Document.CoreDocument.Mapping.Unchecked.{infallible}
use zk_identity.Iota.IotaDid.{Crates, check_validity}
use zk_identity.Iota.Placeholder.{
  placeholder_did, replace_id_with_placeholder, replace_placeholder_with_method_check,
}
use zk_identity.Iota.Placeholder.Dids.{
  IsPlain, IsPlainMethod, IsPlainRef, IsPlainService, replaced, replaced-apart,
}

module _ {T : Type 0} where
  collapsed-two : (xs : List T) → 2 ≤ length xs → collapsed xs ≡ set (record { items = xs })
  collapsed-two [] h = absurd (omega (arith, h))
  collapsed-two (x ∷ []) h = absurd (omega (arith, h))
  collapsed-two (x ∷ y ∷ zs) h = refl

  length-map : (f : T → T) (xs : List T) → length (map f xs) ≡ length xs
  length-map f [] = refl
  length-map f (x ∷ xs) = ap suc (length-map f xs)

module _ (c : Crates) (parts : CoreDid → BaseDidUrl) where
  -- a controller that a document may keep: a valid DID of the method `iota`
  abbrev pub IsController : CoreDid → Type 0
  IsController did = IsPlain did × (check_validity c (parts did) ≡ ok tt)

  abbrev pub AreControllers : Option (OneOrSet CoreDid) → Type 0
  AreControllers none = Unit
  AreControllers (some (one did)) = IsController did
  AreControllers (some (set s)) = All IsController s.items × IsCanonical (set s)

  -- a document without the placeholder
  pub record IsPlainDocument {X : Type 0} (d : CoreDocument X) : Type 0 where
    pub controllers : AreControllers d.controller
    pub methods : All IsPlainMethod d.verification_method.items
    pub relations : (r : MethodRelationship) → All IsPlainRef (related d r).items
    pub services : All IsPlainService d.service.items

  pub id-restored :
      (id : CoreDid) → replace_placeholder_with_method_check c parts id (replaced id id) ≡ ok id
  unfolding replace_placeholder_with_method_check replace_id_with_placeholder
  id-restored id = rw (did_eqb_refl id, did_eqb_refl placeholder_did) refl

  controller-restored :
      (id did : CoreDid)
      → IsController did
      → replace_placeholder_with_method_check c parts id (replaced id did) ≡ ok did
  unfolding replace_placeholder_with_method_check replace_id_with_placeholder
  controller-restored id did p = elim (Bool-cases (did_eqb did id)) [
    | inl own ↦
        rw (own, did_eqb_refl placeholder_did) (ap (λ d. ok d) (sym (did_eqb_sound did id own)))
    | inr other ↦ rw other (rw (p.0, p.1) refl)
  ]

abbrev pub mapped_controllers : CoreDid → Option (OneOrSet CoreDid) → Option (OneOrSet CoreDid)
mapped_controllers id none = none
mapped_controllers id (some (one did)) = some (one (replaced id did))
mapped_controllers id (some (set s)) = some (set (record { items = map (replaced id) s.items }))

module _ (c : Crates) (parts : CoreDid → BaseDidUrl) (id : CoreDid) where
  dids-apart : KeepsKeys {T = CoreDid} (IsController c parts) (replaced id)
  dids-apart a b pa pb = replaced-apart id a b pa.0 pb.0

  pub controllers-mapped :
      (o : Option (OneOrSet CoreDid))
      → AreControllers c parts o
      → map_controller (infallible (replaced id)) o ≡ ok (mapped_controllers id o)
  unfolding try_map_items
  controllers-mapped none h = refl
  controllers-mapped (some (one did)) h = refl
  controllers-mapped (some (set s)) h =
      let ds = map (replaced id) s.items in
      rw
        (
          traverse-map (infallible (replaced id)) (replaced id) (λ d. refl) s.items,
          from_iter-Distinct ds
              (Distinct-map (IsController c parts) (replaced id) dids-apart s.items h.0 h.1.1),
          collapsed-two ds (omega (arith, length-map (replaced id) s.items, h.1.0)),
        )
        refl

  pub controllers-restored :
      (o : Option (OneOrSet CoreDid))
      → AreControllers c parts o
      → map_controller (replace_placeholder_with_method_check c parts id) (mapped_controllers id o)
        ≡ ok o
  unfolding try_map_items
  controllers-restored none h = refl
  controllers-restored (some (one did)) h = rw (controller-restored c parts id did h) refl
  controllers-restored (some (set s)) h =
      rw
        (
          traverse-back (replace_placeholder_with_method_check c parts id) (replaced id)
              {P = IsController c parts} (controller-restored c parts id) s.items h.0,
          from_iter-Distinct s.items h.1.1,
          collapsed-two s.items h.1.0,
        )
        refl
