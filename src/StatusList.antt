-- ===== src/StatusList.antt =====
-- `StatusList2021` of identity_credential/src/revocation/status_list_2021/status_list.rs.
pub mod Bits
pub mod Access
pub mod Creation
pub mod Credential
use zk_identity.Prelude.{
  ℕ, ◌+◌, ◌*◌, ◌/◌, ◌%◌, ◌≡◌, Bool, true, false, Option, none, some, List, eqb, ltb, if◌then◌else◌,
  length, get_elem?, set, replicate,
}
use zk_identity.Prelude.Outcome.{Outcome, ok, err, panic, ◌>>=◌}
use Bits.{test_bit, raise_bit, lower_bit}

-- `MINIMUM_LIST_SIZE`
abbrev pub minimum_list_size : ℕ
minimum_list_size = 16 * 1024 * 8

-- The payload of `InvalidEncoding`, the text that was refused, is left out.
pub data StatusListError : Type 0 where
  index_out_of_bounds invalid_encoding invalid_list_size : StatusListError

pub record StatusList2021 : Type 0 where
  pub store : List ℕ

abbrev pub Fallible : Type 0 → Type 0
Fallible A = Outcome StatusListError A

unfoldable pub new : ℕ → Fallible StatusList2021
new num_entries =
    if ltb num_entries minimum_list_size
    then err invalid_list_size
    else let size = num_entries / 8 + (if eqb (num_entries % 8) 0 then 0 else 1) in
      ok (record { store = replicate size 0 })

abbrev pub list_len : StatusList2021 → ℕ
list_len s = length s.store * 8

abbrev pub entry_index_to_store_index : ℕ → ℕ × ℕ
entry_index_to_store_index index = (index / 8, index % 8)

-- `self.0[i]`, which panics out of bounds
unfoldable pub byte_at : StatusList2021 → ℕ → Fallible ℕ
byte_at s i = elim (get_elem? s.store i) [ none ↦ panic | some byte ↦ ok byte ]

unfoldable pub get_unchecked : StatusList2021 → ℕ → Fallible Bool
unfolding byte_at
get_unchecked s index =
    let (i, offset) = entry_index_to_store_index index in
    do byte ← byte_at s i; ok (test_bit byte offset)

unfoldable pub set_unchecked : StatusList2021 → ℕ → Bool → Fallible StatusList2021
unfolding byte_at
set_unchecked s index value =
    let (i, offset) = entry_index_to_store_index index in
    do
      byte ← byte_at s i
      ok (record {
        store = set s.store i (if value then raise_bit byte offset else lower_bit byte offset);
      })

-- The argument of `then_some` is computed before the test on the index is read.
unfoldable pub get : StatusList2021 → ℕ → Fallible Bool
unfolding get_unchecked
get s index = do
  status ← get_unchecked s index
  if ltb index (list_len s) then ok status else err index_out_of_bounds

-- A list on which this does not answer `ok` is left as it was.
unfoldable pub set_status : StatusList2021 → ℕ → Bool → Fallible StatusList2021
unfolding set_unchecked
set_status s index value =
    if ltb index (list_len s) then set_unchecked s index value else err index_out_of_bounds
