-- ===== src/Iota/StateMetadata.antt =====
-- identity_iota_core/src/state_metadata: the payload that an Alias Output carries. A byte is a number
-- below 256; the JSON codec is a third-party crate's.
pub mod Packed
pub mod Header
use zk_identity.Prelude.{
  ℕ, ◌+◌, ◌*◌, ◌/◌, ◌%◌, ◌-◌, Bool, true, false, not, Option, none, some, List, [], ◌∷◌, ◌++◌, Text,
  ltb, leb, eqb, text_eqb, length, take, drop, get_elem?, if◌then◌else◌, codes,
}
use zk_identity.Prelude.Outcome.{Outcome, ok, err, ◌>>=◌}
use zk_identity.Core.Timestamp.{Timestamp}
use zk_identity.Document.CoreDocument.{CoreDocument}

-- `IotaDocumentMetadata`; `X` is the type of its other properties
pub record IotaDocumentMetadata (X : Type 0) : Type 0 where
  pub created : Option Timestamp
  pub updated : Option Timestamp
  pub deactivated : Option Bool
  pub governor_address : Option Text
  pub state_controller_address : Option Text
  pub properties : X

pub record StateMetadataDocument (X : Type 0) : Type 0 where
  pub document : CoreDocument X
  pub metadata : IotaDocumentMetadata X

pub data StateMetadataVersion : Type 0 where
  v1 : StateMetadataVersion

pub data StateMetadataEncoding : Type 0 where
  json : StateMetadataEncoding

-- the errors of the crate that the conversions answer, with their texts
pub data StateError : Type 0 where
  invalid_doc invalid_state_metadata serialization_error : Text → StateError

-- `version as u8` and `encoding as u8`, and the conversions back
abbrev pub version_byte : StateMetadataVersion → ℕ
version_byte v1 = 1

abbrev pub encoding_byte : StateMetadataEncoding → ℕ
encoding_byte json = 0

unfoldable pub version_try_from : ℕ → Outcome StateError StateMetadataVersion
version_try_from b =
    if eqb b 1 then ok v1 else err (invalid_state_metadata (codes "unsupported version number"))

unfoldable pub encoding_try_from : ℕ → Outcome StateError StateMetadataEncoding
encoding_try_from b =
    if eqb b 0 then ok json else err (invalid_state_metadata (codes "unsupported encoding"))

abbrev version_eqb : StateMetadataVersion → StateMetadataVersion → Bool
version_eqb v1 v1 = true

abbrev pub did_marker : List ℕ
did_marker = codes "DID"

-- `data.get(start..end)` and `data.get(i)` with the error for what is missing
unfoldable pub get_range : ℕ → ℕ → List ℕ → Text → Outcome StateError (List ℕ)
get_range start end' bytes message =
    if leb end' (length bytes)
    then ok (take (end' - start) (drop start bytes))
    else err (invalid_doc message)

unfoldable pub get_byte : ℕ → List ℕ → Text → Outcome StateError ℕ
get_byte i bytes message = elim (get_elem? bytes i) [
  | some b ↦ ok b
  | none ↦ err (invalid_doc message)
]

-- `u16::to_le_bytes` and `u16::from_le_bytes`, with the conversion of a slice to an array before it
abbrev pub to_le_bytes : ℕ → List ℕ
to_le_bytes n = n % 256 ∷ n / 256 % 256 ∷ []

unfoldable pub from_le_bytes : List ℕ → Outcome StateError ℕ
from_le_bytes (lo ∷ hi ∷ []) = ok (lo + 256 * hi)
from_le_bytes _ = err (invalid_doc (codes "state metadata decoding: data length conversion error"))

-- `add_flags_to_message`
unfoldable pub add_flags_to_message :
    List ℕ → StateMetadataVersion → StateMetadataEncoding → Outcome StateError (List ℕ)
add_flags_to_message message version encoding =
    if leb (length message) 65535
    then ok (
        did_marker
        ++ version_byte version ∷ encoding_byte encoding ∷ to_le_bytes (length message)
        ++ message)
    else err (serialization_error (codes "failed to convert usize to u16"))

-- The part of `unpack` before the JSON is read: the bytes of the document.
unfoldable pub unpack_payload : List ℕ → Outcome StateError (List ℕ)
unpack_payload bytes = do
  e ← get_byte 4 bytes (codes "state metadata decoding: expected encoding at offset 4")
  encoding ← encoding_try_from e
  packed ←
      get_range 5 7 bytes (codes "state metadata decoding: expected data length at offset [5..=6]")
  len ← from_le_bytes packed
  get_range 7 (7 + len) bytes
      (codes "state metadata decoding: encoded document shorter than length prefix")

abbrev pub supported : StateMetadataVersion → List ℕ → Outcome StateError (List ℕ)
supported version bytes =
    if not (version_eqb version v1)
    then err (invalid_state_metadata (codes "unsupported version"))
    else unpack_payload bytes

unfoldable pub unpack_version : List ℕ → Outcome StateError (List ℕ)
unfolding unpack_payload
unpack_version bytes = do
  b ← get_byte 3 bytes (codes "state metadata decoding: expected version at offset 3")
  version ← version_try_from b
  supported version bytes

abbrev pub marked : List ℕ → List ℕ → Outcome StateError (List ℕ)
marked marker bytes =
    if not (text_eqb marker did_marker)
    then err (invalid_state_metadata (codes "missing `DID` marker"))
    else unpack_version bytes

unfoldable pub unpack_header : List ℕ → Outcome StateError (List ℕ)
unfolding unpack_version
unpack_header bytes = do
  marker ←
      get_range 0 3 bytes (codes "state metadata decoding: expected DID marker at offset [0..=2]")
  marked marker bytes

-- The JSON codec: `to_json_vec` and `from_json_slice`.
pub record Codec (X : Type 0) : Type 0 where
  pub to_json : StateMetadataDocument X → Option (List ℕ)
  pub from_json : List ℕ → Option (StateMetadataDocument X)

-- What `pack` leaves out of the payload.
abbrev pub without_addresses : {X : Type 0} → StateMetadataDocument X → StateMetadataDocument X
without_addresses d = record d {
  metadata = record d.metadata { governor_address = none; state_controller_address = none };
}

module _ {X : Type 0} (c : Codec X) where
  abbrev pub encoded : StateMetadataDocument X → Outcome StateError (List ℕ)
  encoded d = elim (c.to_json d) [
    | some bytes ↦ ok bytes
    | none ↦ err (serialization_error (codes "failed to serialize document to JSON"))
  ]

  abbrev pub decoded : List ℕ → Outcome StateError (StateMetadataDocument X)
  decoded bytes = elim (c.from_json bytes) [
    | some d ↦ ok d
    | none ↦
        err (
          serialization_error
            (codes "state metadata decoding: failed to deserialize JSON document"))
  ]

  unfoldable pub pack :
      StateMetadataDocument X → StateMetadataEncoding → Outcome StateError (List ℕ)
  pack d json = do message ← encoded (without_addresses d); add_flags_to_message message v1 json

  unfoldable pub unpack : List ℕ → Outcome StateError (StateMetadataDocument X)
  unpack bytes = do message ← unpack_header bytes; decoded message
