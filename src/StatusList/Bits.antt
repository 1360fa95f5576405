-- ===== src/StatusList/Bits.antt =====
-- The masks that `get_unchecked` and `set_unchecked` of status_list.rs apply to a byte.
use Prim.Native.Nat.{bit_and, bit_or}
use zk_identity.Prelude.{
  ℕ, zero, suc, ◌/◌, ◌^◌, ◌<◌, ◌≡◌, refl, Bool, true, false, arith, not, ◌&&◌, ◌||◌, eqb, ltb,
  if◌then◌else◌,
}

-- `byte & (0b1000_0000 >> offset) != 0`
unfoldable pub test_bit : ℕ → ℕ → Bool
test_bit byte offset = not (eqb (bit_and byte (0b1000_0000 / 2 ^ offset)) 0)

-- `byte | 0b1000_0000 >> offset`
unfoldable pub raise_bit : ℕ → ℕ → ℕ
raise_bit byte offset = bit_or byte (0b1000_0000 / 2 ^ offset)

-- `byte & (0b0111_1111 >> offset)`
unfoldable pub lower_bit : ℕ → ℕ → ℕ
lower_bit byte offset = bit_and byte (0b0111_1111 / 2 ^ offset)

-- a law is tested at every number under a bound
unfoldable pub holds_under : (ℕ → Bool) → ℕ → Bool
holds_under law zero = true
holds_under law (suc top) = let rest = holds_under law top in if law top then rest else false

pub holds_at :
    (law : ℕ → Bool) (bound n : ℕ) → n < bound → holds_under law bound ≡ true → law n ≡ true
unfolding holds_under
holds_at law zero n lt tested = elim lt [ ]
holds_at law (suc top) n lt tested = ground (arith, holds_at law top n)

same : Bool → Bool → Bool
same true b = b
same false b = not b

same_sound : (a b : Bool) → same a b ≡ true → a ≡ b
unfolding same
same_sound true b h = ground arith
same_sound false b h = ground arith

law_raise : ℕ → ℕ → ℕ → Bool
law_raise b o p =
    same (test_bit (raise_bit b o) p) (eqb o p || test_bit b p) && ltb (raise_bit b o) 256

law_lower : ℕ → ℕ → ℕ → Bool
law_lower b o p =
    same (test_bit (lower_bit b o) p) (ltb o p && test_bit b p) && ltb (lower_bit b o) 256

table_raise : holds_under (λ b. holds_under (λ o. holds_under (law_raise b o) 8) 8) 256 ≡ true
unfolding holds_under law_raise same test_bit raise_bit
table_raise = refl

table_lower : holds_under (λ b. holds_under (λ o. holds_under (law_lower b o) 8) 8) 256 ≡ true
unfolding holds_under law_lower same test_bit lower_bit
table_lower = refl

module _ (b o p : ℕ) (hb : b < 256) (ho : o < 8) (hp : p < 8) where
  pointwise :
      (law : ℕ → ℕ → ℕ → Bool)
      → holds_under (λ b. holds_under (λ o. holds_under (law b o) 8) 8) 256 ≡ true
      → law b o p ≡ true
  pointwise law tested = holds_at (law b o) 8 p hp (
      holds_at (λ o. holds_under (law b o) 8) 8 o ho
        (holds_at (λ b. holds_under (λ o. holds_under (law b o) 8) 8) 256 b hb tested))

  raise_at : law_raise b o p ≡ true
  raise_at = pointwise law_raise table_raise

  lower_at : law_lower b o p ≡ true
  lower_at = pointwise law_lower table_lower

  -- Raising a bit raises that one alone.
  pub test_bit-raise_bit : test_bit (raise_bit b o) p ≡ (eqb o p || test_bit b p)
  unfolding law_raise
  test_bit-raise_bit = same_sound _ _ (ground (arith, raise_at))

  -- The mask for clearing a bit clears it and every bit on its left.
  pub test_bit-lower_bit : test_bit (lower_bit b o) p ≡ (ltb o p && test_bit b p)
  unfolding law_lower
  test_bit-lower_bit = same_sound _ _ (ground (arith, lower_at))

pub raise_bit-lt : (b o : ℕ) → b < 256 → o < 8 → raise_bit b o < 256
unfolding law_raise
raise_bit-lt b o hb ho = ground (arith, raise_at b o 0 hb ho (omega arith))

pub lower_bit-lt : (b o : ℕ) → b < 256 → o < 8 → lower_bit b o < 256
unfolding law_lower
lower_bit-lt b o hb ho = ground (arith, lower_at b o 0 hb ho (omega arith))
