-- ===== src/StatusList/Creation.antt =====
-- `StatusList2021::new` of status_list_2021/status_list.rs.
use zk_identity.Prelude.{
  ℕ, zero, suc, ◌+◌, ◌/◌, ◌%◌, ◌≤◌, ◌<◌, ◌≡◌, refl, false, none, some, arith, eqb, not,
  if◌then◌else◌, get_elem?, All, replicate, length-replicate,
}
use zk_identity.Prelude.Outcome.{ok}
use zk_identity.StatusList.{StatusList2021, minimum_list_size, list_len, new}
use zk_identity.StatusList.Bits.{test_bit, holds_under, holds_at}
use zk_identity.StatusList.Access.{IsBytes, status}

abbrev store_size : ℕ → ℕ
store_size n = n / 8 + (if eqb (n % 8) 0 then 0 else 1)

zero_bytes : (n : ℕ) → All (λ b. b < 256) (replicate n 0)
unfolding replicate
zero_bytes zero = tt
zero_bytes (suc n) = (ground arith, zero_bytes n)

zero_bit : (k : ℕ) → k < 8 → test_bit 0 k ≡ false
unfolding test_bit holds_under
zero_bit k h = let checked = holds_at (λ k. not (test_bit 0 k)) 8 k h refl in ground arith

zero_status_at :
    (n j k : ℕ)
    → k < 8
    → (elim (get_elem? {A = ℕ} (replicate n 0) j) [ none ↦ false | some b ↦ test_bit b k ]) ≡ false
unfolding replicate
zero_status_at zero j k h = refl
zero_status_at (suc n) zero k h = zero_bit k h
zero_status_at (suc n) (suc j) k h = zero_status_at n j k h

zero_status : (n i : ℕ) → status (record { store = replicate n 0 }) i ≡ false
unfolding status
zero_status n i = zero_status_at n (i / 8) (i % 8) (omega arith)

-- `new` with at least the minimum of entries makes a list with room for all of them, in as few
-- bytes as hold them, in which no entry is set.
pub new_lem :
    (n : ℕ)
    → minimum_list_size ≤ n
    → (s : StatusList2021) × (new n ≡ ok s)
      × (n ≤ list_len s)
      × (list_len s < n + 8)
      × IsBytes s
      × ((i : ℕ) → status s i ≡ false)
unfolding new
new_lem n h = (
  record { store = replicate (store_size n) 0 },
  ground arith,
  ground (arith, length-replicate {A = ℕ} (store_size n) 0),
  ground (arith, length-replicate {A = ℕ} (store_size n) 0),
  zero_bytes (store_size n),
  zero_status (store_size n),
)
