-- ===== src/Iota/IotaDid/Accepted.antt =====
-- `try_from_core` of identity_iota_core/src/did/iota_did.rs: which DIDs it accepts, and the form of
-- its results.
use zk_identity.Prelude.{
  ◌≤◌, ◌≡◌, ◌≢◌, refl, sym, ap, ◌∙◌, subst, ◌↔◌, true, arith, length, Text, text_eqb_iff,
  Bool-cases, inl, inr, is_some,
}
use zk_identity.Prelude.Outcome.{
  ok, err, panic, >>=-eq-ok, Outcome-Cases, ok_case, err_case, panic_case, ok-injective,
}
use zk_identity.Did.Chars.{all_chars}
use zk_identity.Did.RelativeUrl.{DidError}
use zk_identity.Did.CoreDid.{BaseDidUrl, set_method_id}
use zk_identity.Iota.NetworkName.{
  validate_network_name_iff, validate_network_name-total, is_name_char, max_length,
}
use zk_identity.Iota.IotaDid.{
  Crates, IotaDid, Components, denormalized_components, method_name, network_str, tag_str,
  check_method, check_tag, check_network, check_validity, keeps_id, normalize, try_from_core,
}
use zk_identity.Iota.IotaDid.Canonical.{
  is_tag_char, with_id, IsDocumented, canonical_id, components, valid-tag, canonical-keeps,
  canonical-replaced, components-canonical,
}

module _ (c : Crates) (documented : IsDocumented c) where
  -- A DID that is valid has a tag of digits.
  tag-hex :
      (did : BaseDidUrl)
      → check_validity c did ≡ ok tt
      → all_chars is_tag_char (components did).tag ≡ true
  unfolding check_validity check_tag
  tag-hex did h =
      let (_, _, rest) = >>=-eq-ok (check_method did) _ h in
      let (_, tagged, _) = >>=-eq-ok (check_tag c did) _ rest in
      documented.hex_only (components did).tag (ground arith)

  -- `normalize` puts the canonical text in place of the method-specific id.
  normalize_lem :
      (did : BaseDidUrl)
      → check_validity c did ≡ ok tt
      → normalize c did ≡ ok (with_id did (canonical_id (components did)))
  unfolding normalize set_method_id
  normalize_lem did h = elim (Bool-cases (keeps_id did)) [
    | inl keeps ↦ rw (keeps, canonical-keeps did keeps) refl
    | inr replaced ↦
        rw
          (
            replaced,
            valid-tag (components did).tag (tag-hex did h),
            canonical-replaced did replaced,
          )
          (ap (λ d. ok d) (documented.setter did (components did).tag))
  ]

  -- `check_validity` reads the method and the components only.
  check_tag-same :
      (did : BaseDidUrl) (id : Text)
      → denormalized_components id ≡ components did
      → check_tag c (with_id did id) ≡ check_tag c did
  unfolding check_tag
  check_tag-same did id e = rw (e, check_tag) refl

  check_validity-same :
      (did : BaseDidUrl) (id : Text)
      → denormalized_components id ≡ components did
      → check_validity c (with_id did id) ≡ check_validity c did
  unfolding check_validity check_method check_network
  check_validity-same did id e = rw (check_tag-same did id e, e) refl

  try_from_core-valid :
      (did : BaseDidUrl)
      → check_validity c did ≡ ok tt
      → try_from_core c did ≡ ok (record { core = with_id did (canonical_id (components did)) })
  unfolding try_from_core
  try_from_core-valid did h = rw (h, normalize_lem did h) refl

  try_from_core-refused :
      (did : BaseDidUrl) {e : DidError} → check_validity c did ≡ err e → try_from_core c did ≡ err e
  unfolding try_from_core
  try_from_core-refused did h = rw h refl

  valid-try_from_core :
      (did : BaseDidUrl) {d : IotaDid} → try_from_core c did ≡ ok d → check_validity c did ≡ ok tt
  unfolding try_from_core
  valid-try_from_core did h = let (_, valid, _) = >>=-eq-ok (check_validity c did) _ h in valid

  check_validity_iff :
      (did : BaseDidUrl)
      → (check_validity c did ≡ ok tt) ↔ (
          (did.method ≡ method_name)
          × (is_some (c.decode (components did).tag) ≡ true)
          × (1 ≤ length (components did).network)
          × (length (components did).network ≤ max_length)
          × (all_chars is_name_char (components did).network ≡ true))
  unfolding check_validity check_method check_tag check_network
  check_validity_iff did = ground (
    arith,
    text_eqb_iff did.method method_name,
    validate_network_name_iff (components did).network,
  )

  -- `try_from_core` accepts exactly the DIDs of the method `iota` whose tag is decoded and whose
  -- network has one to six lower-case letters or digits. The result has the canonical
  -- method-specific id: the network is left out if it is the default one.
  pub try_from_core_iff :
      (did : BaseDidUrl) (d : IotaDid)
      → (try_from_core c did ≡ ok d) ↔ (
          ((did.method ≡ method_name)
            × (is_some (c.decode (components did).tag) ≡ true)
            × (1 ≤ length (components did).network)
            × (length (components did).network ≤ max_length)
            × (all_chars is_name_char (components did).network ≡ true))
          × (d ≡ record { core = with_id did (canonical_id (components did)) }))
  try_from_core_iff did d = (
    λ h.
        let valid = valid-try_from_core did h in
        ((check_validity_iff did).0 valid, ok-injective (sym h ∙ try_from_core-valid did valid)),
    λ (spec, e). try_from_core-valid did ((check_validity_iff did).1 spec) ∙ ap (λ d. ok d) (sym e),
  )

  check_validity-total : (did : BaseDidUrl) → check_validity c did ≢ panic
  unfolding check_validity check_method check_tag check_network
  check_validity-total did h = ground (arith, validate_network_name-total (components did).network)

  -- The `expect` of `normalize` never panics: a DID is accepted or refused.
  pub try_from_core-total : (did : BaseDidUrl) → try_from_core c did ≢ panic
  try_from_core-total did h = elim (Outcome-Cases (check_validity c did)) [
    | ok_case done valid ↦ absurd (cc (try_from_core-valid did valid, h))
    | err_case e refused ↦ absurd (cc (try_from_core-refused did refused, h))
    | panic_case failed ↦ check_validity-total did failed
  ]

  -- The result of `try_from_core` has the network and the tag of the DID it was made from, and
  -- `try_from_core` returns it unchanged.
  pub try_from_core-core :
      (did : BaseDidUrl) {d : IotaDid}
      → try_from_core c did ≡ ok d
      → (network_str d ≡ (components did).network)
        × (tag_str d ≡ (components did).tag)
        × (try_from_core c d.core ≡ ok d)
  try_from_core-core did h =
      let valid = valid-try_from_core did h in
      let e = ok-injective (sym (try_from_core-valid did valid) ∙ h) in
      let same = components-canonical did (tag-hex did valid) in
      let id = canonical_id (components did) in
      let again = try_from_core-valid (with_id did id) (check_validity-same did id same ∙ valid) in
      subst
        (λ d.
          (network_str d ≡ (components did).network)
          × (tag_str d ≡ (components did).tag)
          × (try_from_core c d.core ≡ ok d))
        e
        (
          ap (λ (p : Components). p.network) same,
          ap (λ (p : Components). p.tag) same,
          again ∙ ap (λ p. ok (record { core = with_id did (canonical_id p) })) same,
        )

  canonical-core :
      (did : BaseDidUrl) {d : IotaDid}
      → try_from_core c did ≡ ok d
      → d.core.method_id ≡ canonical_id (components d.core)
  canonical-core did {d} h =
      let valid = valid-try_from_core did h in
      let e = ok-injective (sym (try_from_core-valid did valid) ∙ h) in
      let same = components-canonical did (tag-hex did valid) in
      subst (λ (d : IotaDid). d.core.method_id ≡ canonical_id (components d.core)) e
        (ap canonical_id (sym same))

  -- Two DIDs that `try_from_core` accepted have the same method-specific id exactly if they have
  -- the same network and the same tag.
  pub try_from_core-equal :
      (did other : BaseDidUrl) {d e : IotaDid}
      → try_from_core c did ≡ ok d
      → try_from_core c other ≡ ok e
      → (d.core.method_id ≡ e.core.method_id)
        ↔ ((network_str d ≡ network_str e) × (tag_str d ≡ tag_str e))
  try_from_core-equal did other {d} {e} h k = (
    λ same. (
      ap (λ id. (denormalized_components id).network) same,
      ap (λ id. (denormalized_components id).tag) same,
    ),
    λ (network, tag). canonical-core did h ∙ rw (network, tag) (sym (canonical-core other k)),
  )
