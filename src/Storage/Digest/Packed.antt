-- ===== src/Storage/Digest/Packed.antt =====
-- `pack` and `unpack` of method_digest.rs.
use zk_identity.Prelude.{
  ℕ, zero, suc, ◌+◌, ◌*◌, ◌/◌, ◌%◌, ◌^◌, ◌<◌, ◌≡◌, refl, ap, sym, subst, ◌∙◌, ◌↔◌, List, [], ◌∷◌,
  All, arith, length,
}
use native.Mathlib.Nat.{pow-suc}
use zk_identity.Prelude.Outcome.{ok}
use zk_identity.Storage.Traits.{MethodDigest}
use zk_identity.Storage.Digest.{to_le_bytes, from_le_bytes, pack, unpack}

length-to_le_bytes : (n v : ℕ) → length (to_le_bytes n v) ≡ n
unfolding to_le_bytes
length-to_le_bytes zero v = refl
length-to_le_bytes (suc n) v = ap suc (length-to_le_bytes n (v / 256))

from_le_bytes-to_le_bytes : (n v : ℕ) → v < 256 ^ n → from_le_bytes (to_le_bytes n v) ≡ v
unfolding to_le_bytes from_le_bytes
from_le_bytes-to_le_bytes zero v h = omega arith
from_le_bytes-to_le_bytes (suc n) v h =
    let below : v < 256 ^ n * 256 = rw pow-suc at h in
    omega (arith, from_le_bytes-to_le_bytes n (v / 256) (omega arith))

to_le_bytes-from_le_bytes :
    (bs : List ℕ) → All (λ b. b < 256) bs → to_le_bytes (length bs) (from_le_bytes bs) ≡ bs
unfolding to_le_bytes from_le_bytes
to_le_bytes-from_le_bytes [] h = refl
to_le_bytes-from_le_bytes (b ∷ bs) h =
    let first : (b + 256 * from_le_bytes bs) % 256 ≡ b = omega (arith, h.0) in
    let rest : (b + 256 * from_le_bytes bs) / 256 ≡ from_le_bytes bs = omega (arith, h.0) in
    rw (first, rest) (ap (λ cs. b ∷ cs) (to_le_bytes-from_le_bytes bs h.1))

pack_lem : (d : MethodDigest) → pack d ≡ d.version ∷ to_le_bytes 8 d.value
unfolding pack
pack_lem d = refl

unpack-read :
    (version : ℕ) (bs : List ℕ) (d : MethodDigest)
    → unpack (version ∷ bs) ≡ ok d
    → (length bs ≡ 8) × (version ≡ 0) × (d.version ≡ version) × (d.value ≡ from_le_bytes bs)
unfolding unpack
unpack-read version bs d h = ground arith

unpack-written :
    (version : ℕ) (bs : List ℕ) (d : MethodDigest)
    → length bs ≡ 8
    → version ≡ 0
    → d.version ≡ version
    → from_le_bytes bs ≡ d.value
    → unpack (version ∷ bs) ≡ ok d
unfolding unpack
unpack-written version bs d h k e f = ground arith

unpack-pack : (d : MethodDigest) → d.version ≡ 0 → d.value < 2 ^ 64 → unpack (pack d) ≡ ok d
unpack-pack d h small = rw (pack_lem d) (
    unpack-written d.version (to_le_bytes 8 d.value) d (length-to_le_bytes 8 d.value) h refl
      (from_le_bytes-to_le_bytes 8 d.value small))

unpack_empty : (d : MethodDigest) → ¬ (unpack [] ≡ ok d)
unfolding unpack
unpack_empty d h = cc h

pack-unpack :
    (bytes : List ℕ) (d : MethodDigest)
    → All (λ b. b < 256) bytes
    → unpack bytes ≡ ok d
    → (d.version ≡ 0) × (bytes ≡ pack d)
pack-unpack [] d all h = absurd (unpack_empty d h)
pack-unpack (version ∷ bs) d all h =
    let (size, zeroth, same, value) = unpack-read version bs d h in
    (
      same ∙ zeroth,
      rw (pack_lem d, same, value)
          (ap (λ cs. version ∷ cs)
            (subst (λ n. bs ≡ to_le_bytes n (from_le_bytes bs)) size
              (sym (to_le_bytes-from_le_bytes bs all.1)))),
    )

-- Bytes are read as a digest whose value is a `u64` exactly if the digest has version 0 and they are
-- the nine bytes that it is packed into.
pub unpack_iff :
    (bytes : List ℕ) (d : MethodDigest)
    → All (λ b. b < 256) bytes
    → d.value < 2 ^ 64
    → (unpack bytes ≡ ok d) ↔ ((d.version ≡ 0) × (bytes ≡ pack d))
unpack_iff bytes d all small = (
  pack-unpack bytes d all,
  λ h. subst (λ bs. unpack bs ≡ ok d) (sym h.1) (unpack-pack d h.0 small),
)
