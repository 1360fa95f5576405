-- ===== src/Tests/StatusLists.antt =====
-- Status lists at concrete inputs.
use zk_identity.Prelude.{
  ℕ, ◌+◌, ◌/◌, ◌≤◌, ◌<◌, ◌≡◌, refl, false, none, some, List, [], ◌∷◌, arith, not, ◌||◌, eqb, ltb,
  if◌then◌else◌,
}
use zk_identity.Prelude.Outcome.{ok, panic}
use zk_identity.StatusList.{StatusList2021, list_len, new, get, set_status}
use zk_identity.StatusList.Bits.{test_bit, lower_bit}
use zk_identity.StatusList.Access.{IsBytes, status, written, get_out_of_bounds, set_in_bounds}
use zk_identity.StatusList.Creation.{new_lem}
use zk_identity.StatusList.Credential.{
  Encoding, revocation, revoked, valid, StatusList2021Credential, try_from_encoded_str, set_entry,
  entry,
}
use zk_identity.StatusList.Credential.Entries.{IsLossless, Carries, revoked-set_entry}

-- two bytes, the entries 0, 2 and 8 set
abbrev sixteen : StatusList2021
sixteen = record { store = 0b1010_0000 ∷ 0b1000_0000 ∷ [] }

get_out_of_bounds_example : get sixteen 16 ≡ panic
get_out_of_bounds_example = get_out_of_bounds sixteen 16 (omega arith)

set_in_bounds_example :
    (t : StatusList2021) × (set_status sixteen 2 false ≡ ok t)
    × (list_len t ≡ list_len sixteen)
    × IsBytes t
    × ((j : ℕ) → status t j ≡ written sixteen 2 false j)
set_in_bounds_example =
    set_in_bounds sixteen 2 false (ground arith, (ground arith, tt)) (omega arith)

-- The entry 0 was set, and clearing the entry 2 clears it.
cleared_before : written sixteen 2 false 0 ≡ false
unfolding status
cleared_before = ground arith

new_lem_example :
    (s : StatusList2021) × (new 131072 ≡ ok s)
    × (131072 ≤ list_len s)
    × (list_len s < 131072 + 8)
    × IsBytes s
    × ((i : ℕ) → status s i ≡ false)
new_lem_example = new_lem 131072 (omega arith)

-- an encoding for the tests: the bytes themselves
abbrev plain : Encoding
plain = record { decode = λ s. some s; encode = λ bytes. bytes }

plain-IsLossless : IsLossless plain
plain-IsLossless bytes h = refl

abbrev revocations : List ℕ → StatusList2021Credential (Unit {0})
revocations bytes = record {
  inner = tt;
  subject = record { status_purpose = revocation; encoded_list = bytes; id = none };
}

revocations_carry : Carries plain (revocations sixteen.store) sixteen
unfolding try_from_encoded_str
revocations_carry = record { decoded = refl; bytes = (ground arith, (ground arith, tt)) }

-- The entry 1 is valid. Clearing it clears the entry 0, which was revoked.
cleared :
    set_entry plain (revocations sixteen.store) 1 false
    ≡ ok (revocations (0b0010_0000 ∷ 0b1000_0000 ∷ []))
unfolding set_entry try_from_encoded_str get set_status test_bit lower_bit
cleared = refl

was_revoked : entry plain (revocations sixteen.store) 0 ≡ ok revoked
unfolding entry try_from_encoded_str get test_bit
was_revoked = refl

revoked-set_entry_example :
    entry plain (revocations (0b0010_0000 ∷ 0b1000_0000 ∷ [])) 0
    ≡ ok (if false || (not (eqb (1 / 8) (0 / 8)) || ltb 1 0) then revoked else valid)
revoked-set_entry_example =
    revoked-set_entry plain (revocations sixteen.store) sixteen revocations_carry plain-IsLossless
      refl 1 0 false (omega arith) (omega arith) was_revoked cleared
