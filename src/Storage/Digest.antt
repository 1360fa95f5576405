-- ===== src/Storage/Digest.antt =====
-- `MethodDigest` of identity_storage/src/key_id_storage/method_digest.rs.
pub mod Packed
use zk_identity.Prelude.{
  ℕ, zero, suc, ◌+◌, ◌*◌, ◌/◌, ◌%◌, Bool, Option, none, some, List, [], ◌∷◌, ◌++◌, ◌&&◌, not, Text,
  eqb, ltb, length, if◌then◌else◌,
}
use zk_identity.Prelude.Outcome.{Outcome, ok, err, ◌>>=◌}
use zk_identity.Did.DidUrl
use zk_identity.Jose.Jwk.{Jwk, thumbprint_hash_input}
use zk_identity.Document.Method.{VerificationMethod}
use zk_identity.Document.Method.Material.{
  Material, MethodData, public_key_multibase, public_key_base58, public_key_jwk, custom,
}
use zk_identity.Storage.Traits.{MethodDigest, KeyIdStorageError, serialization_error}

-- What third-party crates compute: `SHA256`, `SeaHasher` on the chunks that are written to it, and the
-- decoding of multibase and base58 texts.
pub record Hashes : Type 0 where
  pub sha256 : List ℕ → List ℕ
  pub seahash : List (List ℕ) → ℕ
  pub decode_multibase : Text → Option (List ℕ)
  pub decode_base58 : Text → Option (List ℕ)

-- `str::as_bytes`: a code point in UTF-8
unfoldable pub utf8_char : ℕ → List ℕ
utf8_char c =
    if ltb c 0x80
    then c ∷ []
    else if ltb c 0x800
    then (0xc0 + c / 64) ∷ (0x80 + c % 64) ∷ []
    else if ltb c 0x1_0000
    then (0xe0 + c / 4096) ∷ (0x80 + c / 64 % 64) ∷ (0x80 + c % 64) ∷ []
    else (0xf0 + c / 0x4_0000)
      ∷ (0x80 + c / 4096 % 64)
      ∷ (0x80 + c / 64 % 64)
      ∷ (0x80 + c % 64)
      ∷ []

unfoldable pub as_bytes : Text → List ℕ
unfolding utf8_char
as_bytes [] = []
as_bytes (c ∷ s) = utf8_char c ++ as_bytes s

pub data DigestError : Type 0 where
  missing_id_fragment data_decoding_failure : DigestError

module _ (h : Hashes) where
  -- `Jwk::thumbprint_sha256`
  unfoldable pub thumbprint_sha256 : Jwk → List ℕ
  unfolding as_bytes thumbprint_hash_input
  thumbprint_sha256 j = h.sha256 (as_bytes (thumbprint_hash_input j))

  -- `MethodData::try_decode`; `none` stands for its errors
  unfoldable pub try_decode : MethodData → Option (List ℕ)
  try_decode (public_key_jwk j) = none
  try_decode (custom name value) = none
  try_decode (public_key_multibase input) = h.decode_multibase input
  try_decode (public_key_base58 input) = h.decode_base58 input

  -- the bytes of the `match` on the method's data
  abbrev pub key_bytes : MethodData → Outcome DigestError (List ℕ)
  key_bytes (public_key_jwk j) = ok (thumbprint_sha256 j)
  key_bytes (public_key_multibase s) = elim (try_decode (public_key_multibase s)) [
    | none ↦ err data_decoding_failure
    | some b ↦ ok b
  ]
  key_bytes (public_key_base58 s) = elim (try_decode (public_key_base58 s)) [
    | none ↦ err data_decoding_failure
    | some b ↦ ok b
  ]
  key_bytes (custom n v) = elim (try_decode (custom n v)) [
    | none ↦ err data_decoding_failure
    | some b ↦ ok b
  ]

  abbrev pub fragment_or : Option Text → Outcome DigestError Text
  fragment_or none = err missing_id_fragment
  fragment_or (some f) = ok f

  -- `MethodDigest::new`
  unfoldable pub digest :
      {X : Type 0} → Material X → VerificationMethod X → Outcome DigestError MethodDigest
  unfolding try_decode thumbprint_sha256
  digest x method = do
    fragment ← fragment_or (DidUrl.fragment method.id)
    bytes ← key_bytes (x.data_of method.material)
    ok (record { version = 0; value = h.seahash (as_bytes fragment ∷ bytes ∷ []) })

-- `u64::to_le_bytes` and `from_le_bytes`, for any number of bytes
unfoldable pub to_le_bytes : ℕ → ℕ → List ℕ
to_le_bytes zero v = []
to_le_bytes (suc n) v = (v % 256) ∷ to_le_bytes n (v / 256)

unfoldable pub from_le_bytes : List ℕ → ℕ
from_le_bytes [] = 0
from_le_bytes (b ∷ bs) = b + 256 * from_le_bytes bs

unfoldable pub pack : MethodDigest → List ℕ
unfolding to_le_bytes
pack d = d.version ∷ to_le_bytes 8 d.value

-- the vector is not empty where its first byte is read
unfoldable pub unpack : List ℕ → Outcome KeyIdStorageError MethodDigest
unfolding from_le_bytes
unpack [] = err serialization_error
unpack (version ∷ value_le_bytes) =
    if not (eqb (suc (length value_le_bytes)) 9)
    then err serialization_error
    else if not (eqb version 0)
    then err serialization_error
    else ok (record { version = version; value = from_le_bytes value_le_bytes })
