-- ===== src/Credential/RevocationBitmap/Encoding.antt =====
-- The encoding of bitmap.rs: what is read from an endpoint that a bitmap was written to.
pub mod Readable
use zk_identity.Prelude.{
  ℕ, ◌≡◌, refl, ◌∙◌, ap, sym, subst, true, false, Option, none, some, List, ◌++◌, Text,
}
use zk_identity.Prelude.Outcome.{ok, err, >>=-eq-ok, ok-injective}
use zk_identity.Did.Chars.{starts_with, strip_text-append}
use zk_identity.Credential.RevocationBitmap.{
  Roaring, Codec, RevocationError, ServiceEndpoint, one_url, data_url_pattern, header, or_error,
  serialize_compressed_base64, to_endpoint, inner_text, deserialize_compressed_base64,
  try_from_endpoint, base64_decoding_error, bitmap_encoding_error, url_construction_error,
  invalid_url,
}

-- What was written is read; the Url of base64 data is its text.
pub record IsLossless (r : Roaring) (k : Codec) : Type 0 where
  pub serialized :
      (b : r.Bitmap) {bytes : List ℕ}
      → r.serialize_into b ≡ some bytes
      → r.deserialize_from bytes ≡ some b
  pub compressed :
      (bytes : List ℕ) {zipped : List ℕ}
      → k.compress_zlib bytes ≡ some zipped
      → k.decompress_zlib zipped ≡ some bytes
  pub encoded : (bytes : List ℕ) → k.decode_b64url (k.encode_b64url bytes) ≡ some bytes
  pub parsed :
      (bytes : List ℕ) {url : Text}
      → k.parse_url (data_url_pattern ++ k.encode_b64url bytes) ≡ some url
      → url ≡ data_url_pattern ++ k.encode_b64url bytes

-- The encoded bitmap starts with the header that the reader looks for.
abbrev pub HasHeader : (r : Roaring) → Codec → r.Bitmap → Type 0
HasHeader r k b =
    (text : Text) → serialize_compressed_base64 r k b ≡ ok text → starts_with header text ≡ true

pub or_error-ok :
    {A : Type 0} (e : RevocationError) (o : Option A) {a : A} → or_error e o ≡ ok a → o ≡ some a
or_error-ok e none h = absurd (cc h)
or_error-ok e (some a) h = ap some (ok-injective h)

module _ (r : Roaring) (k : Codec) where
  -- the steps of a serialization
  record Written (b : r.Bitmap) (text : Text) : Type 0 where
    bytes : List ℕ
    zipped : List ℕ
    serialized : r.serialize_into b ≡ some bytes
    compressed : k.compress_zlib bytes ≡ some zipped
    encoded : k.encode_b64url zipped ≡ text

  serialize-Written :
      (b : r.Bitmap) {text : Text} → serialize_compressed_base64 r k b ≡ ok text → Written b text
  unfolding serialize_compressed_base64
  serialize-Written b h =
      let (bytes, e₁, h₁) = >>=-eq-ok (or_error bitmap_encoding_error (r.serialize_into b)) _ h in
      let (zipped, e₂, h₂) =
        >>=-eq-ok (or_error bitmap_encoding_error (k.compress_zlib bytes)) _ h₁ in
      record {
        bytes = bytes;
        zipped = zipped;
        serialized = or_error-ok bitmap_encoding_error (r.serialize_into b) e₁;
        compressed = or_error-ok bitmap_encoding_error (k.compress_zlib bytes) e₂;
        encoded = ok-injective h₂;
      }

  deserialize-serialize :
      (b : r.Bitmap) {text : Text}
      → IsLossless r k
      → HasHeader r k b
      → serialize_compressed_base64 r k b ≡ ok text
      → deserialize_compressed_base64 r k text ≡ ok b
  unfolding deserialize_compressed_base64 inner_text
  deserialize-serialize b {text} law has h =
      let w = serialize-Written b h in
      let decoded : k.decode_b64url text ≡ some w.zipped =
        ap k.decode_b64url (sym w.encoded) ∙ law.encoded w.zipped in
      rw (has text h, decoded, law.compressed w.bytes w.compressed, law.serialized b w.serialized)
        refl

  pub read_pattern :
      (text : Text)
      → try_from_endpoint r k (one_url (data_url_pattern ++ text))
        ≡ deserialize_compressed_base64 r k text
  unfolding try_from_endpoint
  read_pattern text =
      ap
        (λ (o : Option Text). elim o [
          | none ↦ err invalid_url
          | some t ↦ deserialize_compressed_base64 r k t
        ])
        (strip_text-append data_url_pattern text)

  -- what a bitmap was written to
  pub to_endpoint-text :
      (b : r.Bitmap) {e : ServiceEndpoint}
      → IsLossless r k
      → to_endpoint r k b ≡ ok e
      → (text : Text) × (serialize_compressed_base64 r k b ≡ ok text)
        × (e ≡ one_url (data_url_pattern ++ text))
  unfolding to_endpoint
  to_endpoint-text b law h =
      let (text, e₁, h₁) = >>=-eq-ok (serialize_compressed_base64 r k b) _ h in
      let (url, e₂, h₂) =
        >>=-eq-ok (or_error url_construction_error (k.parse_url (data_url_pattern ++ text))) _ h₁ in
      let w = serialize-Written b e₁ in
      let answer = or_error-ok url_construction_error (k.parse_url (data_url_pattern ++ text)) e₂ in
      let same : url ≡ data_url_pattern ++ text =
        subst (λ t. k.parse_url (data_url_pattern ++ t) ≡ some url → url ≡ data_url_pattern ++ t)
          w.encoded (law.parsed w.zipped) answer in
      (text, e₁, sym (ok-injective h₂) ∙ ap one_url same)

  -- A bitmap whose encoding starts with the expected header is read back from the endpoint that it was
  -- written to.
  pub try_from_endpoint-to_endpoint :
      (b : r.Bitmap) {e : ServiceEndpoint}
      → IsLossless r k
      → HasHeader r k b
      → to_endpoint r k b ≡ ok e
      → try_from_endpoint r k e ≡ ok b
  try_from_endpoint-to_endpoint b law has h =
      let (text, written, same) = to_endpoint-text b law h in
      subst (λ e. try_from_endpoint r k e ≡ ok b) (sym same)
        (read_pattern text ∙ deserialize-serialize b law has written)
