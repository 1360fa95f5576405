-- ===== src/Iota/IotaDid/Canonical.antt =====
-- The components of a method-specific id in identity_iota_core/src/did/iota_did.rs, and its canonical
-- text.
use zk_identity.Prelude.{
  ℕ, suc, ◌+◌, ◌≡◌, refl, sym, ap, ◌∙◌, subst, Bool, true, false, ◌||◌, none, some, [], ◌∷◌, ◌++◌,
  arith, eqb, length, take, drop, Text, text_eqb, text_eqb_iff, if◌then◌else◌, position,
  Option-cases, Bool-cases, inl, inr, length-append, is_some,
}
use zk_identity.Prelude.Outcome.{ok}
use mathlib.Core.Option.{some-injective}
use zk_identity.Did.Chars.{all_chars, find_char, is_char_method_id}
use zk_identity.Did.CoreDid.{BaseDidUrl, method_id_loop, valid_method_id}
use zk_identity.Did.CoreDid.MethodId.{is_hex}
use zk_identity.Iota.IotaDid.{
  Crates, Components, denormalized_components, default_network, keeps_id,
}

abbrev pub is_tag_char : ℕ → Bool
is_tag_char c = is_hex c || eqb c b'x'

abbrev pub with_id : BaseDidUrl → Text → BaseDidUrl
with_id did id = record did { method_id = id }

-- What the crates document: a text that is decoded has hexadecimal digits and an `x` only, and the
-- setter replaces the method-specific id.
pub record IsDocumented (c : Crates) : Type 0 where
  pub hex_only : (s : Text) → is_some (c.decode s) ≡ true → all_chars is_tag_char s ≡ true
  pub setter : (did : BaseDidUrl) (id : Text) → c.set_base did id ≡ with_id did id

-- the method-specific id of a normalized DID: the default network is left out
abbrev pub canonical_id : Components → Text
canonical_id parts =
    if text_eqb parts.network default_network then parts.tag else parts.network ++ b':' ∷ parts.tag

abbrev pub components : BaseDidUrl → Components
components did = denormalized_components did.method_id

-- A text is split at its first colon.
abbrev split_at : ℕ → ℕ → Text → Text
split_at d i s = take i s ++ d ∷ drop 1 (drop i s)

find_char-head : (d c : ℕ) (s : Text) → eqb c d ≡ true → find_char d (c ∷ s) ≡ some 0
unfolding position
find_char-head d c s h = rw h refl

find_char-tail :
    (d c : ℕ) (s : Text)
    → eqb c d ≡ false
    → find_char d (c ∷ s) ≡ elim (find_char d s) [ none ↦ none | some n ↦ some (suc n) ]
unfolding position
find_char-tail d c s h = rw h refl

find_char_split : (d : ℕ) (s : Text) {i : ℕ} → find_char d s ≡ some i → s ≡ split_at d i s
unfolding position
find_char_split d [] h = absurd (cc h)
find_char_split d (c ∷ s) {i} h = elim (Bool-cases (eqb c d)) [
  | inl same ↦
      let e : 0 ≡ i = some-injective _ _ (sym (find_char-head d c s same) ∙ h) in
      let f : c ≡ d = ground arith in
      subst (λ i. c ∷ s ≡ split_at d i (c ∷ s)) e (ap (λ c. c ∷ s) f)
  | inr differs ↦ elim (Option-cases (find_char d s)) [
    | inl absent ↦ absurd (cc (find_char-tail d c s differs, absent, h))
    | inr (n, found) ↦
        let e : suc n ≡ i =
          some-injective _ _ (sym (find_char-tail d c s differs ∙ rw found refl) ∙ h) in
        subst (λ i. c ∷ s ≡ split_at d i (c ∷ s)) e (ap (λ t. c ∷ t) (find_char_split d s found))
  ]
]

find_char-tag : (s : Text) → all_chars is_tag_char s ≡ true → find_char b':' s ≡ none
unfolding position all_chars
find_char-tag [] h = refl
find_char-tag (c ∷ s) h =
    let rest = find_char-tag s (ground arith) in
    let differs : eqb c b':' ≡ false = ground arith in rw (differs, rest) refl

pub valid-tag : (s : Text) → all_chars is_tag_char s ≡ true → valid_method_id s ≡ ok tt
unfolding valid_method_id method_id_loop all_chars is_char_method_id
valid-tag [] h = refl
valid-tag (c ∷ s) h = ground (arith, valid-tag s)

components-tag :
    (s : Text)
    → all_chars is_tag_char s ≡ true
    → denormalized_components s ≡ record { network = default_network; tag = s }
unfolding denormalized_components
components-tag s h = rw (find_char-tag s h, denormalized_components) refl

-- What the components of a text are: the default network and the text, or the two sides of a colon.
data Parts (id : Text) : Type 0 where
  whole : denormalized_components id ≡ record { network = default_network; tag = id } → Parts id
  split :
      id ≡ (denormalized_components id).network ++ b':' ∷ (denormalized_components id).tag
      → Parts id

parts : (id : Text) → Parts id
unfolding denormalized_components
parts id = elim (Option-cases (find_char b':' id)) [
  | inl absent ↦ whole (rw (absent, denormalized_components) refl)
  | inr (i, found) ↦ split (rw (found, denormalized_components) (find_char_split b':' id found))
]

split-longer : (id n t : Text) → id ≡ n ++ b':' ∷ t → eqb (length t) (length id) ≡ false
split-longer id n t e =
    let len : length id ≡ length n + suc (length t) = ap length e ∙ length-append n (b':' ∷ t) in
    ground arith

-- A text that `normalize` leaves alone is canonical.
pub canonical-keeps :
    (did : BaseDidUrl) → keeps_id did ≡ true → canonical_id (components did) ≡ did.method_id
unfolding keeps_id text_eqb
canonical-keeps did keeps =
    let n = (components did).network in
    let t = (components did).tag in
    elim (parts did.method_id) [
      | whole e ↦ ap canonical_id e
      | split e ↦ elim (Bool-cases (text_eqb n default_network)) [
        | inl same ↦ absurd (ground (arith, split-longer did.method_id n t e))
        | inr differs ↦ rw differs (sym e)
      ]
    ]

-- One that it replaces is replaced by the tag, the network being the default one.
pub canonical-replaced :
    (did : BaseDidUrl) → keeps_id did ≡ false → canonical_id (components did) ≡ (components did).tag
unfolding keeps_id
canonical-replaced did replaced =
    let same : text_eqb (components did).network default_network ≡ true = ground arith in
    rw same refl

abbrev with_network : Components → Text → Components
with_network p n = record p { network = n }

default-replaced :
    (did : BaseDidUrl)
    → keeps_id did ≡ false
    → components did ≡ record { network = default_network; tag = (components did).tag }
unfolding keeps_id
default-replaced did replaced =
    let same : text_eqb (components did).network default_network ≡ true = ground arith in
    ap (with_network (components did))
      ((text_eqb_iff (components did).network default_network).0 same)

-- The components of a text that is canonical for a tag are the components it is made from.
pub components-canonical :
    (did : BaseDidUrl)
    → all_chars is_tag_char (components did).tag ≡ true
    → denormalized_components (canonical_id (components did)) ≡ components did
components-canonical did h = elim (Bool-cases (keeps_id did)) [
  | inl keeps ↦ ap denormalized_components (canonical-keeps did keeps)
  | inr replaced ↦
      ap denormalized_components (canonical-replaced did replaced)
      ∙ components-tag (components did).tag h
      ∙ sym (default-replaced did replaced)
]
