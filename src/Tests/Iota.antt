-- ===== src/Tests/Iota.antt =====
-- DIDs of the method `iota` and state metadata at concrete inputs.
use zk_identity.Prelude.{
  ◌≡◌, refl, ◌↔◌, true, ◌&&◌, none, some, List, ℕ, [], ◌∷◌, ◌++◌, ◌+◌, ◌*◌, ◌≤◌, arith, codes, Text,
  eqb, All, length, if◌then◌else◌, is_some, position, text_eqb,
}
use zk_identity.Prelude.Outcome.{ok}
use zk_identity.Did.Chars.{all_chars}
use zk_identity.Did.CoreDid.{BaseDidUrl}
use zk_identity.Iota.NetworkName.{is_name_char, max_length}
use zk_identity.Iota.IotaDid.{
  Crates, IotaDid, try_from_core, method_name, network_str, tag_str, placeholder_tag,
}
use zk_identity.Iota.IotaDid.Canonical.{
  is_tag_char, with_id, IsDocumented, canonical_id, components,
}
use zk_identity.Iota.IotaDid.Accepted.{try_from_core_iff, try_from_core-core, try_from_core-equal}
use zk_identity.Did.DidUrl.{CoreDid, did_eqb}
use zk_identity.Document.CoreDocument.{related}
use zk_identity.Iota.Placeholder.Dids.{IsPlainRef}
use zk_identity.Document.Method.{
  authentication, assertion_method, key_agreement, capability_delegation, capability_invocation,
}
use zk_identity.Iota.StateMetadata.{
  IotaDocumentMetadata, StateMetadataDocument, Codec, json, pack, unpack, add_flags_to_message,
  unpack_header,
}
use zk_identity.Iota.StateMetadata.Packed.{header, unpack-pack}
use zk_identity.Iota.StateMetadata.Header.{unpack_header_iff}
use zk_identity.Iota.Placeholder.{IotaDocument, from_document, into_iota_document}
use zk_identity.Iota.Placeholder.Controllers.{IsPlainDocument}
use zk_identity.Iota.Placeholder.Restored.{into_iota_document-from}
use zk_identity.Tests.Data.{sample_did}
use zk_identity.Tests.Documents.{sample, sample-IsWellFormed}

abbrev crates : Crates
crates = record {
  decode = λ s. if all_chars is_tag_char s && eqb (length s) 66 then some [] else none;
  set_base = with_id;
}

crates-IsDocumented : IsDocumented crates
crates-IsDocumented = record { hex_only = λ s h. ground arith; setter = λ did id. refl }

-- did:iota:<id>
abbrev did_of : Text → BaseDidUrl
did_of id = record {
  scheme = codes "did";
  method = method_name;
  method_id = id;
  path = [];
  query = none;
  fragment = none;
}

-- the default network, written and left out
abbrev written : BaseDidUrl
written = did_of (codes "iota:" ++ placeholder_tag)

abbrev canonical : IotaDid
canonical = record { core = did_of placeholder_tag }

try_from_core_iff_example : (try_from_core crates written ≡ ok canonical) ↔ (
    ((written.method ≡ method_name)
      × (is_some (crates.decode (components written).tag) ≡ true)
      × (1 ≤ length (components written).network)
      × (length (components written).network ≤ max_length)
      × (all_chars is_name_char (components written).network ≡ true))
    × (canonical ≡ record { core = with_id written (canonical_id (components written)) }))
try_from_core_iff_example = try_from_core_iff crates crates-IsDocumented written canonical

written_accepted : try_from_core crates written ≡ ok canonical
unfolding try_from_core zk_identity.Iota.IotaDid.check_validity
    zk_identity.Iota.IotaDid.check_method text_eqb zk_identity.Iota.IotaDid.check_tag all_chars
    zk_identity.Iota.IotaDid.denormalized_components position zk_identity.Iota.IotaDid.check_network
    zk_identity.Iota.NetworkName.validate_network_name zk_identity.Iota.IotaDid.normalize
    zk_identity.Iota.IotaDid.keeps_id zk_identity.Did.CoreDid.set_method_id
    zk_identity.Did.CoreDid.valid_method_id zk_identity.Did.Chars.is_char_method_id
written_accepted = refl

canonical_accepted : try_from_core crates (did_of placeholder_tag) ≡ ok canonical
unfolding try_from_core zk_identity.Iota.IotaDid.check_validity
    zk_identity.Iota.IotaDid.check_method text_eqb zk_identity.Iota.IotaDid.check_tag all_chars
    zk_identity.Iota.IotaDid.denormalized_components position zk_identity.Iota.IotaDid.check_network
    zk_identity.Iota.NetworkName.validate_network_name zk_identity.Iota.IotaDid.normalize
    zk_identity.Iota.IotaDid.keeps_id
canonical_accepted = refl

try_from_core-core_example :
    (network_str canonical ≡ (components written).network)
    × (tag_str canonical ≡ (components written).tag)
    × (try_from_core crates canonical.core ≡ ok canonical)
try_from_core-core_example = try_from_core-core crates crates-IsDocumented written written_accepted

try_from_core-equal_example :
    (canonical.core.method_id ≡ canonical.core.method_id)
    ↔ ((network_str canonical ≡ network_str canonical) × (tag_str canonical ≡ tag_str canonical))
try_from_core-equal_example =
    try_from_core-equal crates crates-IsDocumented written (did_of placeholder_tag) written_accepted
      canonical_accepted

-- a codec that knows one document
abbrev metadata : IotaDocumentMetadata (Unit {0})
metadata = record {
  created = none;
  updated = none;
  deactivated = some true;
  governor_address = none;
  state_controller_address = none;
  properties = tt;
}

abbrev state : StateMetadataDocument (Unit {0})
state = record { document = sample; metadata = metadata }

-- with an address, which `pack` leaves out
abbrev addressed : StateMetadataDocument (Unit {0})
addressed = record state { metadata = record metadata { governor_address = some (codes "rms1") } }

abbrev codec : Codec (Unit {0})
codec = record { to_json = λ d. some (codes "{}"); from_json = λ bytes. some state }

abbrev packed : List ℕ
packed = codes "DID" ++ 1 ∷ 0 ∷ 2 ∷ 0 ∷ codes "{}"

packed_lem : pack codec addressed json ≡ ok packed
unfolding pack add_flags_to_message
packed_lem = refl

unpack-pack_example : unpack codec (packed ++ 7 ∷ []) ≡ ok state
unpack-pack_example = unpack-pack codec addressed (7 ∷ []) (λ message written. refl) packed_lem

unpack_header_iff_example : (unpack_header (packed ++ 7 ∷ []) ≡ ok (codes "{}")) ↔ (
    (lo : ℕ) × (hi : ℕ) × (rest : List ℕ) × (packed ++ 7 ∷ [] ≡ header lo hi ++ codes "{}" ++ rest)
    × (lo + 256 * hi ≡ length (codes "{}")))
unpack_header_iff_example = unpack_header_iff (packed ++ 7 ∷ []) (codes "{}")

-- the components of every DID: those of a valid one
abbrev parts : CoreDid → BaseDidUrl
parts did = written

abbrev iota_document : IotaDocument (Unit {0})
iota_document = record { document = sample; metadata = metadata }

sample-IsPlainDocument : IsPlainDocument crates parts sample
unfolding did_eqb text_eqb
sample-IsPlainDocument = record {
  controllers = tt;
  methods = ((refl, refl), tt);
  relations = λ r. elim r as (λ r. All (IsPlainRef {X = Unit {0}}) (related sample r).items) [
    | authentication ↦ ((refl, refl), tt)
    | assertion_method ↦ tt
    | key_agreement ↦ (refl, tt)
    | capability_delegation ↦ tt
    | capability_invocation ↦ tt
  ];
  services = (refl, tt);
}

into_iota_document-from_example :
    (s : StateMetadataDocument (Unit {0})) × (from_document iota_document ≡ ok s)
    × (into_iota_document crates parts s sample_did ≡ ok iota_document)
into_iota_document-from_example =
    into_iota_document-from crates parts iota_document sample-IsWellFormed sample-IsPlainDocument
