-- ===== src/Iota/Placeholder/Dids.antt =====
-- The two functions on DIDs of identity_iota_core/src/state_metadata/document.rs, on what a document
-- holds: replacing the document's DID and replacing the placeholder.
use zk_identity.Prelude.{◌≡◌, refl, sym, ap, ◌∙◌, false, ◌&&◌, arith, Bool-cases, inl, inr}
use zk_identity.Prelude.Outcome.{ok}
use zk_identity.Did.DidUrl
use zk_identity.Did.DidUrl.{
  CoreDid, DidUrl, did_eqb, did_key, url_eqb, map_did, did_eqb_refl, did_eqb_sym, did_eqb_trans,
  did_eqb_sound,
}
use zk_identity.Did.RelativeUrl.{relative_eqb}
use zk_identity.Core.OrderedSet.Mapped.{KeepsKeys}
use zk_identity.Document.Method.{
  VerificationMethod, MethodRef, Service, embed, refer, ref_id, method_key, ref_key, service_key,
  try_map_method, try_map_ref, try_map_service,
}
use zk_identity.Document.CoreDocument.Mapping.Unchecked.{infallible}
use zk_identity.Iota.Placeholder.{placeholder_did, replace_id_with_placeholder, replace_placeholder}

-- a DID that is not the placeholder
abbrev pub IsPlain : CoreDid → Type 0
IsPlain did = did_eqb did placeholder_did ≡ false

module _ (id : CoreDid) where
  abbrev pub replaced : CoreDid → CoreDid
  replaced did = replace_id_with_placeholder id did

  pub replace_placeholder-replaced :
      (did : CoreDid) → IsPlain did → replace_placeholder id (replaced did) ≡ ok did
  unfolding replace_placeholder replace_id_with_placeholder
  replace_placeholder-replaced did plain = elim (Bool-cases (did_eqb did id)) [
    | inl own ↦
        rw (own, did_eqb_refl placeholder_did) (ap (λ d. ok d) (sym (did_eqb_sound did id own)))
    | inr other ↦ rw other (rw plain refl)
  ]

  -- Two DIDs that are not the placeholder are told apart after the replacement as they were before.
  pub replaced-apart :
      (a b : CoreDid) → IsPlain a → IsPlain b → did_eqb (replaced a) (replaced b) ≡ did_eqb a b
  unfolding replace_id_with_placeholder
  replaced-apart a b pa pb = elim (Bool-cases (did_eqb a id)) [
    | inl own ↦ elim (Bool-cases (did_eqb b id)) [
      | inl own' ↦
          rw (own, own')
            (did_eqb_refl placeholder_did ∙ sym (did_eqb_trans a id b own (did_eqb_sym b id own')))
      | inr other ↦
          rw (own, other)
            (ground (arith, did_eqb_sym placeholder_did b, did_eqb_sym a b, did_eqb_trans b a id))
    ]
    | inr other ↦ elim (Bool-cases (did_eqb b id)) [
      | inl own ↦ rw (other, own) (ground (arith, did_eqb_trans a b id))
      | inr other' ↦ rw (other, other') refl
    ]
  ]

  replaced_url-apart :
      (u v : DidUrl)
      → IsPlain u.did
      → IsPlain v.did
      → url_eqb (map_did replaced u) (map_did replaced v) ≡ url_eqb u v
  unfolding url_eqb map_did
  replaced_url-apart u v pu pv =
      ap (λ b. b && relative_eqb u.url v.url) (replaced-apart u.did v.did pu pv)

  url-restored :
      (u : DidUrl)
      → IsPlain u.did
      → DidUrl.try_map (replace_placeholder id) (map_did (replaced) u) ≡ ok u
  unfolding DidUrl.try_map map_did
  url-restored u p = rw (replace_placeholder-replaced u.did p) refl

-- What a document holds, with its DIDs mapped.
module _ {X : Type 0} (f : CoreDid → CoreDid) where
  abbrev pub mapped_method : VerificationMethod X → VerificationMethod X
  mapped_method m = record m { id = map_did f m.id; controller = f m.controller }

  abbrev pub mapped_ref : MethodRef X → MethodRef X
  mapped_ref (embed m) = embed (mapped_method m)
  mapped_ref (refer u) = refer (map_did f u)

  abbrev pub mapped_service : Service X → Service X
  mapped_service s = record s { id = map_did f s.id }

-- holders of DIDs that are not the placeholder
module _ {X : Type 0} where
  abbrev pub IsPlainMethod : VerificationMethod X → Type 0
  IsPlainMethod m = IsPlain m.id.did × IsPlain m.controller

  abbrev pub IsPlainRef : MethodRef X → Type 0
  IsPlainRef (embed m) = IsPlainMethod m
  IsPlainRef (refer u) = IsPlain u.did

  abbrev pub IsPlainService : Service X → Type 0
  IsPlainService s = IsPlain s.id.did

module _ {X : Type 0} (id : CoreDid) where
  pub methods-apart :
      KeepsKeys {T = VerificationMethod X} IsPlainMethod (mapped_method (replaced id))
  methods-apart m n pm pn = replaced_url-apart id m.id n.id pm.0 pn.0

  ref_did-IsPlain : (r : MethodRef X) → IsPlainRef r → IsPlain (ref_id r).did
  ref_did-IsPlain (embed m) p = p.0
  ref_did-IsPlain (refer u) p = p

  ref_id-mapped :
      (r : MethodRef X) → ref_id (mapped_ref (replaced id) r) ≡ map_did (replaced id) (ref_id r)
  ref_id-mapped (embed m) = refl
  ref_id-mapped (refer u) = refl

  pub refs-apart : KeepsKeys {T = MethodRef X} IsPlainRef (mapped_ref (replaced id))
  refs-apart r s pr ps =
      rw (ref_id-mapped r, ref_id-mapped s)
        (replaced_url-apart id (ref_id r) (ref_id s) (ref_did-IsPlain r pr) (ref_did-IsPlain s ps))

  pub services-apart : KeepsKeys {T = Service X} IsPlainService (mapped_service (replaced id))
  services-apart s t ps pt = replaced_url-apart id s.id t.id ps pt

  -- the replacement, item by item
  pub method-mapped :
      (m : VerificationMethod X)
      → try_map_method (infallible (replaced id)) m ≡ ok (mapped_method (replaced id) m)
  unfolding try_map_method DidUrl.try_map map_did
  method-mapped m = refl

  pub ref-mapped :
      (r : MethodRef X) → try_map_ref (infallible (replaced id)) r ≡ ok (mapped_ref (replaced id) r)
  unfolding try_map_ref try_map_method DidUrl.try_map map_did
  ref-mapped (embed m) = refl
  ref-mapped (refer u) = refl

  pub service-mapped :
      (s : Service X)
      → try_map_service (infallible (replaced id)) s ≡ ok (mapped_service (replaced id) s)
  unfolding try_map_service DidUrl.try_map map_did
  service-mapped s = refl

  -- and back
  pub method-restored :
      (m : VerificationMethod X)
      → IsPlainMethod m
      → try_map_method (replace_placeholder id) (mapped_method (replaced id) m) ≡ ok m
  unfolding try_map_method
  method-restored m p =
      rw (url-restored id m.id p.0, replace_placeholder-replaced id m.controller p.1) refl

  pub ref-restored :
      (r : MethodRef X)
      → IsPlainRef r
      → try_map_ref (replace_placeholder id) (mapped_ref (replaced id) r) ≡ ok r
  unfolding try_map_ref
  ref-restored (embed m) p = rw (method-restored m p) refl
  ref-restored (refer u) p = rw (url-restored id u p) refl

  pub service-restored :
      (s : Service X)
      → IsPlainService s
      → try_map_service (replace_placeholder id) (mapped_service (replaced id) s) ≡ ok s
  unfolding try_map_service
  service-restored s p = rw (url-restored id s.id p) refl
