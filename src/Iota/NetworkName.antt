-- ===== src/Iota/NetworkName.antt =====
-- identity_iota_core/src/network/network_name.rs. A name is a text of code points: one that has a
-- character beyond ASCII is refused whatever its length in bytes is.
use zk_identity.Prelude.{
  ℕ, ◌≤◌, ◌∷◌, true, arith, ◌≡◌, ◌≢◌, ◌↔◌, Bool, [], ◌&&◌, ◌||◌, not, leb, length, Text,
  if◌then◌else◌,
}
use zk_identity.Prelude.Outcome.{Outcome, ok, err, panic, ◌>>◌}
use zk_identity.Did.Chars.{in_range, all_chars, is_empty}

pub record NetworkName : Type 0 where
  pub name : Text

-- `Error::InvalidNetworkName`
pub data NetworkError : Type 0 where
  invalid_network_name : Text → NetworkError

abbrev pub max_length : ℕ
max_length = 6

abbrev pub is_name_char : ℕ → Bool
is_name_char c = in_range b'a' b'z' c || in_range b'0' b'9' c

unfoldable pub validate_network_name : Text → Outcome NetworkError (Unit {0})
validate_network_name name =
    if not (is_empty name) && (leb (length name) max_length && all_chars is_name_char name)
    then ok tt
    else err (invalid_network_name name)

-- `NetworkName::try_from`
unfoldable pub try_from : Text → Outcome NetworkError NetworkName
try_from name = do validate_network_name name; ok (record { name = name })

-- A name is valid exactly if it has one to six characters, all of them digits or lower-case letters.
pub validate_network_name_iff :
    (name : Text)
    → (validate_network_name name ≡ ok tt)
      ↔ ((1 ≤ length name) × (length name ≤ max_length) × (all_chars is_name_char name ≡ true))
unfolding validate_network_name
validate_network_name_iff [] = ground arith
validate_network_name_iff (c ∷ s) = ground arith

pub validate_network_name-total : (name : Text) → validate_network_name name ≢ panic
unfolding validate_network_name
validate_network_name-total name h = ground arith
