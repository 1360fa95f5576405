-- ===== src/Iota/StateMetadata/Packed.antt =====
-- `pack` and `unpack` of identity_iota_core/src/state_metadata/document.rs.
use zk_identity.Prelude.{
  ℕ, Bool-cases, ◌+◌, ◌-◌, drop, Text, subst, inl, inr, ◌*◌, ◌/◌, ◌%◌, ◌≤◌, ◌≡◌, refl, sym, ap, ◌∙◌,
  true, List, [], ◌∷◌, ◌++◌, arith, some, leb, length, length-append, take, codes, text_eqb,
}
use zk_identity.Prelude.Outcome.{ok, >>=-eq-ok, ok-injective}
use zk_identity.Iota.StateMetadata.{
  StateMetadataDocument, StateMetadataVersion, StateMetadataEncoding, json, v1, Codec, did_marker,
  get_range, get_byte, version_try_from, encoding_try_from, from_le_bytes, add_flags_to_message,
  unpack_header, unpack_version, unpack_payload, encoded, decoded, without_addresses, pack, unpack,
}

-- the bytes before the message
abbrev pub header : ℕ → ℕ → List ℕ
header lo hi = did_marker ++ 1 ∷ 0 ∷ lo ∷ hi ∷ []

take-append : (xs ys : List ℕ) → take (length xs) (xs ++ ys) ≡ xs
take-append [] ys = refl
take-append (x ∷ xs) ys = ap (λ t. x ∷ t) (take-append xs ys)

get_range-fits :
    (start end' : ℕ) (bytes : List ℕ) (message : Text)
    → end' ≤ length bytes
    → get_range start end' bytes message ≡ ok (take (end' - start) (drop start bytes))
unfolding get_range
get_range-fits start end' bytes message h =
    let fits : leb end' (length bytes) ≡ true = ground arith in rw fits refl

-- With a header, the message is the part of the rest that the length names.
unpack_header-header :
    (lo hi : ℕ) (rest : List ℕ)
    → unpack_header (header lo hi ++ rest)
      ≡ get_range 7
          (7 + (lo + 256 * hi))
          (header lo hi ++ rest)
          (codes "state metadata decoding: encoded document shorter than length prefix")
unfolding unpack_header unpack_version unpack_payload get_byte version_try_from encoding_try_from
    from_le_bytes text_eqb
unpack_header-header lo hi rest =
    let bytes = header lo hi ++ rest in
    let marker =
      get_range-fits 0 3 bytes
        (codes "state metadata decoding: expected DID marker at offset [0..=2]") (omega arith) in
    let packed =
      get_range-fits 5 7 bytes
        (codes "state metadata decoding: expected data length at offset [5..=6]") (omega arith) in
    rw (marker, packed) refl

pub unpack_header-message :
    (message rest : List ℕ) (lo hi : ℕ)
    → lo + 256 * hi ≡ length message
    → unpack_header (header lo hi ++ message ++ rest) ≡ ok message
unpack_header-message message rest lo hi h =
    let len = length-append message rest in
    let bytes = header lo hi ++ message ++ rest in
    unpack_header-header lo hi (message ++ rest)
    ∙ get_range-fits 7 (7 + (lo + 256 * hi)) bytes
        (codes "state metadata decoding: encoded document shorter than length prefix") (omega arith)
    ∙ ap (λ n. ok (take n (message ++ rest))) (omega arith)
    ∙ ap (λ t. ok t) (take-append message rest)

add_flags-read :
    (message : List ℕ) (v : StateMetadataVersion) (e : StateMetadataEncoding) {bytes : List ℕ}
    → add_flags_to_message message v e ≡ ok bytes
    → (length message ≤ 65535)
      × (header (length message % 256) (length message / 256 % 256) ++ message ≡ bytes)
unfolding add_flags_to_message
add_flags-read message v1 json h = elim (Bool-cases (leb (length message) 65535)) [
  | inl fits ↦ (ground arith, ok-injective (sym (rw fits refl) ∙ h))
  | inr long ↦ absurd (ground arith)
]

module _ {X : Type 0} (c : Codec X) where
  encoded-some :
      (d : StateMetadataDocument X) {message : List ℕ}
      → encoded c d ≡ ok message
      → c.to_json d ≡ some message
  encoded-some d h = ground arith

  -- What `pack` answers is the header, with the length of the JSON text, and the text.
  pack-read :
      (d : StateMetadataDocument X) {bytes : List ℕ}
      → pack c d json ≡ ok bytes
      → (message : List ℕ) × (c.to_json (without_addresses d) ≡ some message)
        × (length message ≤ 65535)
        × (header (length message % 256) (length message / 256 % 256) ++ message ≡ bytes)
  unfolding pack
  pack-read d h =
      let (message, written, flagged) = >>=-eq-ok (encoded c (without_addresses d)) _ h in
      let (small, same) = add_flags-read message v1 json flagged in
      (message, encoded-some (without_addresses d) written, small, same)

  decoded-some :
      (message : List ℕ) {d : StateMetadataDocument X}
      → c.from_json message ≡ some d
      → decoded c message ≡ ok d
  decoded-some message h = ground arith

  unpack-message :
      (message rest : List ℕ) (d : StateMetadataDocument X)
      → length message ≤ 65535
      → c.from_json message ≡ some d
      → unpack c (header (length message % 256) (length message / 256 % 256) ++ message ++ rest)
        ≡ ok d
  unfolding unpack
  unpack-message message rest d small read =
      rw
        (
          unpack_header-message message rest (length message % 256) (length message / 256 % 256)
              (omega arith),
          decoded-some message read,
        )
        refl

  -- The bytes that a document is packed into, whatever follows them, are unpacked into the document
  -- without its two addresses, if the JSON codec reads what it writes for that document.
  pub unpack-pack :
      (d : StateMetadataDocument X) (rest : List ℕ) {bytes : List ℕ}
      → ((message : List ℕ)
          → c.to_json (without_addresses d) ≡ some message
          → c.from_json message ≡ some (without_addresses d))
      → pack c d json ≡ ok bytes
      → unpack c (bytes ++ rest) ≡ ok (without_addresses d)
  unpack-pack d rest codec h =
      let (message, written, small, same) = pack-read d h in
      subst (λ bytes. unpack c (bytes ++ rest) ≡ ok (without_addresses d)) same
        (unpack-message message rest (without_addresses d) small (codec message written))
