-- ===== src/Credential/RevocationBitmap/Encoding/Readable.antt =====
-- Which bitmaps bitmap.rs reads back, in terms of the zlib stream that it encodes in base64: the test
-- for `eJy` in `deserialize_compressed_base64`.
use zk_identity.Prelude.{
  ℕ, ◌+◌, ◌-◌, ◌*◌, ◌/◌, ◌%◌, ◌<◌, ◌≤◌, ◌≡◌, refl, sym, ap, ◌∙◌, subst, ◌↔◌, true, false, none,
  some, List, ◌∷◌, Text, arith, ltb, eqb, eqb_iff, Option-cases, Bool-cases, inl, inr,
  if◌then◌else◌,
}
use zk_identity.Prelude.Outcome.{ok, ok-injective}
use zk_identity.Did.Chars.{starts_with}
use zk_identity.Credential.RevocationBitmap.{
  Roaring, Codec, ServiceEndpoint, header, inner_text, serialize_compressed_base64, to_endpoint,
  deserialize_compressed_base64, try_from_endpoint,
}
use zk_identity.Credential.RevocationBitmap.Encoding.{
  IsLossless, read_pattern, to_endpoint-text, try_from_endpoint-to_endpoint,
}

-- the character of six bits in base64url
abbrev pub sextet : ℕ → ℕ
sextet n =
    if ltb n 26
    then b'A' + n
    else if ltb n 52
    then b'a' + (n - 26)
    else if ltb n 62
    then b'0' + (n - 52)
    else if ltb n 63
    then b'-'
    else b'_'

-- What the encodings are: three bytes of base64url are four characters, the standard alphabet gives
-- the same bytes where it decodes a text at all, and a text in UTF-8 has no byte from 0x80 to 0xbf
-- after an ASCII byte.
pub record IsStandard (k : Codec) : Type 0 where
  pub sextets :
      (a b c : ℕ) (bytes : List ℕ)
      → (tail : Text) × (k.encode_b64url (a ∷ b ∷ c ∷ bytes)
          ≡ sextet (a / 4)
            ∷ sextet (a % 4 * 16 + b / 16)
            ∷ sextet (b % 16 * 4 + c / 64)
            ∷ sextet (c % 64)
            ∷ tail)
  pub same_bytes :
      (bytes : List ℕ) {decoded : List ℕ}
      → k.decode_b64 (k.encode_b64url bytes) ≡ some decoded
      → decoded ≡ bytes
  pub utf8 :
      (a b : ℕ) (bytes : List ℕ)
      → a < 0x80
      → 0x80 ≤ b
      → b < 0xc0
      → k.from_utf8 (a ∷ b ∷ bytes) ≡ none

-- The third character has the two top bits of the third byte.
third : (q : ℕ) → q < 4 → eqb (sextet (48 + q)) b'y' ≡ eqb q 2
third q h = ground arith

module _ (r : Roaring) (k : Codec) (b : r.Bitmap) (x : ℕ) (rest : List ℕ) where
  -- The bytes of `b` are compressed to a zlib stream of the default level, 78 9c, and go on with `x`.
  pub record IsZlib : Type 0 where
    pub bytes : List ℕ
    pub serialized : r.serialize_into b ≡ some bytes
    pub compressed : k.compress_zlib bytes ≡ some (0x78 ∷ 0x9c ∷ x ∷ rest)

  encoded-text :
      IsZlib → serialize_compressed_base64 r k b ≡ ok (k.encode_b64url (0x78 ∷ 0x9c ∷ x ∷ rest))
  unfolding serialize_compressed_base64
  encoded-text z = rw (z.serialized, z.compressed) refl

  starts_with-encoded :
      IsStandard k
      → x < 256
      → starts_with header (k.encode_b64url (0x78 ∷ 0x9c ∷ x ∷ rest)) ≡ eqb (x / 64) 2
  unfolding starts_with
  starts_with-encoded s small =
      let (tail, e) = s.sextets 0x78 0x9c x rest in
      rw e (ground (arith, third (x / 64) (omega arith)))

  -- A text without the header is decoded once more, to the stream, which is no text in UTF-8.
  headless-refused :
      IsStandard k
      → starts_with header (k.encode_b64url (0x78 ∷ 0x9c ∷ x ∷ rest)) ≡ false
      → ¬ (deserialize_compressed_base64 r k (k.encode_b64url (0x78 ∷ 0x9c ∷ x ∷ rest)) ≡ ok b)
  unfolding deserialize_compressed_base64 inner_text
  headless-refused s headless h =
      let text = k.encode_b64url (0x78 ∷ 0x9c ∷ x ∷ rest) in
      elim (Option-cases (k.decode_b64 text)) [
        | inl refused ↦ absurd (cc (rw (headless, refused) at h))
        | inr (decoded, e) ↦
            let no_text : k.from_utf8 decoded ≡ none =
              ap k.from_utf8 (s.same_bytes (0x78 ∷ 0x9c ∷ x ∷ rest) e)
              ∙ s.utf8 0x78 0x9c (x ∷ rest) (omega arith) (omega arith) (omega arith) in
            absurd (cc (rw (headless, e, no_text) at h))
      ]

  -- With lossless and standard encodings, a bitmap whose bytes are compressed to 78 9c, a byte and more
  -- is read back from the endpoint that it was written to exactly if that byte is between 80 and bf:
  -- only then does the text start with `eJy`.
  pub try_from_endpoint_iff :
      {e : ServiceEndpoint}
      → IsLossless r k
      → IsStandard k
      → IsZlib
      → x < 256
      → to_endpoint r k b ≡ ok e
      → (try_from_endpoint r k e ≡ ok b) ↔ ((0x80 ≤ x) × (x < 0xc0))
  try_from_endpoint_iff {e} law s z small written = (
    λ h. elim (Bool-cases (eqb (x / 64) 2)) [
      | inl there ↦
          let top = (eqb_iff (x / 64) 2).0 there in (omega (arith, top), omega (arith, top))
      | inr other ↦
          let (text, serialized, same) = to_endpoint-text r k b law written in
          let stream = ok-injective (sym serialized ∙ encoded-text z) in
          let read =
            subst (λ t. deserialize_compressed_base64 r k t ≡ ok b) stream
              (sym (read_pattern r k text) ∙ subst (λ e. try_from_endpoint r k e ≡ ok b) same h) in
          absurd (headless-refused s (starts_with-encoded s small ∙ other) read)
    ],
    λ range.
        try_from_endpoint-to_endpoint r k b law
          (λ text serialized.
            subst (λ t. starts_with header t ≡ true)
              (ok-injective (sym (encoded-text z) ∙ serialized))
              (starts_with-encoded s small ∙ ground arith))
          written,
  )
