-- ===== src/Iota/StateMetadata/Header.antt =====
-- `unpack` of identity_iota_core/src/state_metadata/document.rs.
use zk_identity.Prelude.{
  get_elem?, ℕ, zero, suc, ◌+◌, ◌-◌, drop, Text, ◌*◌, ◌≤◌, ◌≡◌, refl, sym, ap, ◌∙◌, ◌↔◌, List, [],
  ◌∷◌, ◌++◌, arith, some, length, take, codes, text_eqb_iff,
}
use zk_identity.Prelude.Outcome.{ok, >>=-eq-ok, ok-injective}
use zk_identity.Iota.StateMetadata.{
  StateMetadataVersion, StateMetadataEncoding, v1, did_marker, get_range, get_byte,
  version_try_from, encoding_try_from, from_le_bytes, unpack_header, unpack_version, unpack_payload,
  supported, marked,
}
use zk_identity.Iota.StateMetadata.Packed.{header, unpack_header-message}

take-split : (n : ℕ) (xs : List ℕ) → xs ≡ take n xs ++ drop n xs
take-split zero xs = refl
take-split (suc n) [] = refl
take-split (suc n) (x ∷ xs) = ap (λ t. x ∷ t) (take-split n xs)

length-take : (n : ℕ) (xs : List ℕ) → n ≤ length xs → length (take n xs) ≡ n
length-take zero xs h = refl
length-take (suc n) [] h = absurd (omega (arith, h))
length-take (suc n) (x ∷ xs) h = ap suc (length-take n xs (omega (arith, h)))

get_range-read :
    (start end' : ℕ) (bytes : List ℕ) (message : Text) {answer : List ℕ}
    → get_range start end' bytes message ≡ ok answer
    → (end' ≤ length bytes) × (take (end' - start) (drop start bytes) ≡ answer)
unfolding get_range
get_range-read start end' bytes message h = ground arith

-- a version and an encoding that are read
version-read : (b : ℕ) {v : StateMetadataVersion} → version_try_from b ≡ ok v → b ≡ 1
unfolding version_try_from
version-read b h = ground arith

encoding-read : (b : ℕ) {e : StateMetadataEncoding} → encoding_try_from b ≡ ok e → b ≡ 0
unfolding encoding_try_from
encoding-read b h = ground arith

get_byte-read :
    (i : ℕ) (bytes : List ℕ) (message : Text) {b : ℕ}
    → get_byte i bytes message ≡ ok b
    → get_elem? bytes i ≡ some b
unfolding get_byte
get_byte-read i bytes message h = ground arith

marked-read :
    (marker bytes : List ℕ) {message : List ℕ}
    → marked marker bytes ≡ ok message
    → (marker ≡ did_marker) × (unpack_version bytes ≡ ok message)
marked-read marker bytes h = ground (arith, text_eqb_iff marker did_marker)

supported-read :
    (version : StateMetadataVersion) (bytes : List ℕ) {message : List ℕ}
    → supported version bytes ≡ ok message
    → unpack_payload bytes ≡ ok message
supported-read v1 bytes h = h

-- two bytes that are a length
length-read :
    (packed : List ℕ) {len : ℕ}
    → from_le_bytes packed ≡ ok len
    → (lo hi : ℕ) × (packed ≡ lo ∷ hi ∷ []) × (lo + 256 * hi ≡ len)
unfolding from_le_bytes
length-read [] h = absurd (cc h)
length-read (lo ∷ []) h = absurd (cc h)
length-read (lo ∷ hi ∷ []) h = (lo, hi, refl, ok-injective h)
length-read (a ∷ b ∷ c ∷ rest) h = absurd (cc h)

-- What the steps of `unpack_header` found in the bytes.
record Found (bytes message : List ℕ) : Type 0 where
  marker : take 3 bytes ≡ did_marker
  version : get_elem? bytes 3 ≡ some 1
  encoding : get_elem? bytes 4 ≡ some 0
  lo : ℕ
  hi : ℕ
  packed : take 2 (drop 5 bytes) ≡ lo ∷ hi ∷ []
  fits : 7 + (lo + 256 * hi) ≤ length bytes
  payload : take (lo + 256 * hi) (drop 7 bytes) ≡ message

found : (bytes : List ℕ) {message : List ℕ} → unpack_header bytes ≡ ok message → Found bytes message
unfolding unpack_header unpack_version unpack_payload
found bytes h =
    let (m, em, h1) =
      >>=-eq-ok
        (get_range 0 3 bytes
          (codes "state metadata decoding: expected DID marker at offset [0..=2]"))
        _ h in
    let (same, h2) = marked-read m bytes h1 in
    let (b, eb, h3) =
      >>=-eq-ok (get_byte 3 bytes (codes "state metadata decoding: expected version at offset 3")) _
        h2 in
    let (v, ev, h4) = >>=-eq-ok (version_try_from b) _ h3 in
    let (e, ee, h5) =
      >>=-eq-ok (get_byte 4 bytes (codes "state metadata decoding: expected encoding at offset 4"))
        _ (supported-read v bytes h4) in
    let (w, ew, h6) = >>=-eq-ok (encoding_try_from e) _ h5 in
    let (p, ep, h7) =
      >>=-eq-ok
        (get_range 5 7 bytes
          (codes "state metadata decoding: expected data length at offset [5..=6]"))
        _ h6 in
    let (n, en, h8) = >>=-eq-ok (from_le_bytes p) _ h7 in
    let (lo, hi, bytes_of, value) = length-read p en in
    let (fits, payload) = get_range-read 7 (7 + n) bytes _ h8 in
    record {
      marker = (get_range-read 0 3 bytes _ em).1 ∙ same;
      version = get_byte-read 3 bytes _ eb ∙ ap some (version-read b ev);
      encoding = get_byte-read 4 bytes _ ee ∙ ap some (encoding-read e ew);
      lo = lo;
      hi = hi;
      packed = (get_range-read 5 7 bytes _ ep).1 ∙ bytes_of;
      fits = omega (arith, value, fits);
      payload = ap (λ k. take k (drop 7 bytes)) (omega (arith, value)) ∙ payload;
    }

-- seven bytes that are a header
header-bytes :
    (a b c v e x y lo hi : ℕ) (rest : List ℕ)
    → a ∷ b ∷ c ∷ [] ≡ did_marker
    → some v ≡ some 1
    → some e ≡ some 0
    → x ∷ y ∷ [] ≡ lo ∷ hi ∷ []
    → a ∷ b ∷ c ∷ v ∷ e ∷ x ∷ y ∷ rest ≡ header lo hi ++ rest
header-bytes a b c v e x y lo hi rest m hv he p = cc (m, hv, he, p)

header-found :
    (bytes : List ℕ) {message : List ℕ} (f : Found bytes message)
    → bytes ≡ header f.lo f.hi ++ drop 7 bytes
header-found [] f = absurd (omega (arith, f.fits))
header-found (a ∷ []) f = absurd (omega (arith, f.fits))
header-found (a ∷ b ∷ []) f = absurd (omega (arith, f.fits))
header-found (a ∷ b ∷ c ∷ []) f = absurd (omega (arith, f.fits))
header-found (a ∷ b ∷ c ∷ v ∷ []) f = absurd (omega (arith, f.fits))
header-found (a ∷ b ∷ c ∷ v ∷ e ∷ []) f = absurd (omega (arith, f.fits))
header-found (a ∷ b ∷ c ∷ v ∷ e ∷ x ∷ []) f = absurd (omega (arith, f.fits))
header-found (a ∷ b ∷ c ∷ v ∷ e ∷ x ∷ y ∷ rest) f =
    header-bytes a b c v e x y f.lo f.hi rest f.marker f.version f.encoding f.packed

length-drop : (n : ℕ) (xs : List ℕ) → length (drop n xs) ≡ length xs - n
length-drop zero xs = omega arith
length-drop (suc n) [] = omega arith
length-drop (suc n) (x ∷ xs) = omega (arith, length-drop n xs)

-- `unpack_header` accepts exactly the bytes that start with `DID`, the version 1, the encoding 0 and
-- two bytes that give the length of the message, low byte first, and that go on with the message;
-- what follows the message is ignored.
pub unpack_header_iff :
    (bytes message : List ℕ)
    → (unpack_header bytes ≡ ok message) ↔ (
        (lo : ℕ) × (hi : ℕ) × (rest : List ℕ) × (bytes ≡ header lo hi ++ message ++ rest)
        × (lo + 256 * hi ≡ length message))
unpack_header_iff bytes message = (
  λ h.
      let f = found bytes h in
      let n = f.lo + 256 * f.hi in
      let body = drop 7 bytes in
      let fits : n ≤ length body = omega (arith, length-drop 7 bytes, f.fits) in
      (
        f.lo,
        f.hi,
        drop n body,
        header-found bytes f
            ∙ ap (λ t. header f.lo f.hi ++ t)
                (take-split n body ∙ ap (λ t. t ++ drop n body) f.payload),
        sym (length-take n body fits) ∙ ap length f.payload,
      ),
  λ (lo, hi, rest, e, len). rw e (unpack_header-message message rest lo hi len),
)
