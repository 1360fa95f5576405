-- ===== src/StatusList/Access.antt =====
-- `get` and `set` of status_list_2021/status_list.rs, in and out of bounds.
use zk_identity.Prelude.{
  ℕ, zero, suc, ◌*◌, ◌/◌, ◌%◌, ◌≤◌, ◌<◌, ◌≡◌, refl, ap, Bool, true, false, none, some, List, [],
  ◌∷◌, arith, eqb, ltb, if◌then◌else◌, ◌&&◌, ◌||◌, length, get_elem?, set, All, length-set,
}
use zk_identity.Prelude.Outcome.{ok, panic}
use zk_identity.StatusList.Bits.{
  test_bit, raise_bit, lower_bit, test_bit-raise_bit, test_bit-lower_bit, raise_bit-lt,
  lower_bit-lt,
}
use zk_identity.StatusList.{StatusList2021, list_len, byte_at, get, set_status}

-- every element of the store is a byte
abbrev pub IsBytes : StatusList2021 → Type 0
IsBytes s = All (λ b. b < 256) s.store

-- the status that is stored for an entry; entries past the end have none
unfoldable pub status : StatusList2021 → ℕ → Bool
status s index = elim (get_elem? s.store (index / 8)) [
  | none ↦ false
  | some b ↦ test_bit b (index % 8)
]

module _ {ℓ} {A : Type ℓ} where
  get_elem?-some : (xs : List A) (i : ℕ) → i < length xs → (a : A) × (get_elem? xs i ≡ some a)
  get_elem?-some [] i h = elim h [ ]
  get_elem?-some (x ∷ xs) zero h = (x, refl)
  get_elem?-some (x ∷ xs) (suc i) h = get_elem?-some xs i (omega arith)

  get_elem?-none : (xs : List A) (i : ℕ) → length xs ≤ i → get_elem? xs i ≡ none
  get_elem?-none [] i h = refl
  get_elem?-none (x ∷ xs) zero h = elim h [ ]
  get_elem?-none (x ∷ xs) (suc i) h = get_elem?-none xs i (omega arith)

  get_elem?-set :
      (xs : List A) (i j : ℕ) (v : A)
      → i < length xs
      → get_elem? (set xs i v) j ≡ (if eqb i j then some v else get_elem? xs j)
  get_elem?-set [] i j v h = elim h [ ]
  get_elem?-set (x ∷ xs) zero zero v h = refl
  get_elem?-set (x ∷ xs) zero (suc j) v h = ground arith
  get_elem?-set (x ∷ xs) (suc i) zero v h = ground arith
  get_elem?-set (x ∷ xs) (suc i) (suc j) v h = ground (arith, get_elem?-set xs i j v)

byte_lt : (xs : List ℕ) (i b : ℕ) → All (λ b. b < 256) xs → get_elem? xs i ≡ some b → b < 256
byte_lt [] i b h e = cc
byte_lt (x ∷ xs) zero b h e = ground arith
byte_lt (x ∷ xs) (suc i) b h e = byte_lt xs i b h.1 e

All-set :
    (xs : List ℕ) (i v : ℕ) → v < 256 → All (λ b. b < 256) xs → All (λ b. b < 256) (set xs i v)
All-set [] i v hv h = tt
All-set (x ∷ xs) zero v hv h = (hv, h.1)
All-set (x ∷ xs) (suc i) v hv h = (h.0, All-set xs i v hv h.1)

-- In bounds, `get` answers the stored status.
pub get_in_bounds : (s : StatusList2021) (i : ℕ) → i < list_len s → get s i ≡ ok (status s i)
unfolding get status
get_in_bounds s i h = let (b, e) = get_elem?-some s.store (i / 8) (omega arith) in ground arith

-- Past the end, `get` panics: it reads the store before it tests the index.
pub get_out_of_bounds : (s : StatusList2021) (i : ℕ) → list_len s ≤ i → get s i ≡ panic
unfolding get
get_out_of_bounds s i h = rw (get_elem?-none s.store (i / 8) (omega arith), byte_at) refl

-- What is stored for the entry `j` after the entry `i` has been set to `value`.
abbrev pub written : StatusList2021 → ℕ → Bool → ℕ → Bool
written s i value j =
    if value
    then eqb i j || status s j
    else status s j && (if eqb (i / 8) (j / 8) then ltb (i % 8) (j % 8) else true)

written_at :
    (s : StatusList2021) (i j : ℕ) (value : Bool) (b : ℕ)
    → i < list_len s
    → b < 256
    → get_elem? s.store (i / 8) ≡ some b
    → status
        (record {
          store = set s.store (i / 8) (if value then raise_bit b (i % 8) else lower_bit b (i % 8));
        })
        j
      ≡ written s i value j
unfolding status
written_at s i j value b h hb e = ground (
  arith,
  get_elem?-set s.store (i / 8) (j / 8) (if value then raise_bit b (i % 8) else lower_bit b (i % 8))
      (omega arith),
  test_bit-raise_bit b (i % 8) (j % 8) hb (omega arith) (omega arith),
  test_bit-lower_bit b (i % 8) (j % 8) hb (omega arith) (omega arith),
)

-- In bounds, setting an entry succeeds, keeps the length, and stores exactly this: to set raises the
-- entry and no other; to clear lowers the entry and every entry before it in the same byte.
pub set_in_bounds :
    (s : StatusList2021) (i : ℕ) (value : Bool)
    → IsBytes s
    → i < list_len s
    → (t : StatusList2021) × (set_status s i value ≡ ok t)
      × (list_len t ≡ list_len s)
      × IsBytes t
      × ((j : ℕ) → status t j ≡ written s i value j)
unfolding set_status
set_in_bounds s i value hs h =
    let (b, e) = get_elem?-some s.store (i / 8) (omega arith) in
    let byte : ℕ = if value then raise_bit b (i % 8) else lower_bit b (i % 8) in
    let hb = byte_lt s.store (i / 8) b hs e in
    (
      record { store = set s.store (i / 8) byte },
      ground arith,
      ap (λ n. n * 8) (length-set s.store (i / 8) byte),
      All-set s.store (i / 8) byte
          (ground (
            arith,
            raise_bit-lt b (i % 8) hb (omega arith),
            lower_bit-lt b (i % 8) hb (omega arith),
          ))
          hs,
      λ j. written_at s i j value b h hb e,
    )
