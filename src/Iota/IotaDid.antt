-- ===== src/Iota/IotaDid.antt =====
-- `IotaDID` of identity_iota_core/src/did/iota_did.rs, over the answers of the crates
-- did_url_parser and prefix_hex.
pub mod Canonical
pub mod Accepted
use zk_identity.Prelude.{
  ◌≡◌, Bool, true, false, not, ◌||◌, Option, none, some, List, ℕ, take, drop, length, eqb, Text,
  text_eqb, if◌then◌else◌, codes,
}
use zk_identity.Prelude.Outcome.{Outcome, ok, err, panic, ◌>>=◌, ◌>>◌, map_err}
use zk_identity.Did.Chars.{find_char}
use zk_identity.Did.RelativeUrl.{DidError, invalid_method_name, invalid_method_id, other}
use zk_identity.Did.CoreDid.{BaseDidUrl, set_method_id}
use zk_identity.Iota.NetworkName.{validate_network_name}

-- What the two crates do: `prefix_hex::decode` for 32 bytes, and the setter of a parsed DID.
pub record Crates : Type 0 where
  pub decode : Text → Option (List ℕ)
  pub set_base : BaseDidUrl → Text → BaseDidUrl

pub record IotaDid : Type 0 where
  pub core : BaseDidUrl

abbrev pub method_name : Text
method_name = codes "iota"

abbrev pub default_network : Text
default_network = codes "iota"

abbrev pub placeholder_tag : Text
placeholder_tag = codes "0x0000000000000000000000000000000000000000000000000000000000000000"

-- the components of a method-specific id: the network and the tag
pub record Components : Type 0 where
  pub network : Text
  pub tag : Text

unfoldable pub denormalized_components : Text → Components
denormalized_components input = elim (find_char b':' input) [
  | some idx ↦ record { network = take idx input; tag = drop 1 (drop idx input) }
  | none ↦ record { network = default_network; tag = input }
]

-- `network_str`, `tag_str` and `is_placeholder`
abbrev pub network_str : IotaDid → Text
network_str did = (denormalized_components did.core.method_id).network

abbrev pub tag_str : IotaDid → Text
tag_str did = (denormalized_components did.core.method_id).tag

unfoldable pub is_placeholder : IotaDid → Bool
is_placeholder did = text_eqb (tag_str did) placeholder_tag

-- `check_method`, `check_tag` and `check_network`
unfoldable pub check_method : BaseDidUrl → Outcome DidError (Unit {0})
check_method did = if text_eqb did.method method_name then ok tt else err invalid_method_name

unfoldable pub check_network : BaseDidUrl → Outcome DidError (Unit {0})
check_network did =
    map_err (λ e. other) (validate_network_name (denormalized_components did.method_id).network)

-- whether `normalize` leaves the method-specific id alone
unfoldable pub keeps_id : BaseDidUrl → Bool
keeps_id did =
    let parts = denormalized_components did.method_id in
    eqb (length parts.tag) (length did.method_id) || not (text_eqb parts.network default_network)

-- `expect`: an error of the setter is a panic
abbrev pub expected : Outcome DidError BaseDidUrl → Outcome DidError BaseDidUrl
expected (ok did) = ok did
expected (err e) = panic
expected panic = panic

module _ (c : Crates) where
  unfoldable pub check_tag : BaseDidUrl → Outcome DidError (Unit {0})
  check_tag did = elim (c.decode (denormalized_components did.method_id).tag) [
    | none ↦ err invalid_method_id
    | some bytes ↦ ok tt
  ]

  unfoldable pub check_validity : BaseDidUrl → Outcome DidError (Unit {0})
  check_validity did = check_method did >> (check_tag did >> check_network did)

  unfoldable pub normalize : BaseDidUrl → Outcome DidError BaseDidUrl
  normalize did =
      if keeps_id did
      then ok did
      else expected (set_method_id c.set_base did (denormalized_components did.method_id).tag)

  unfoldable pub try_from_core : BaseDidUrl → Outcome DidError IotaDid
  try_from_core did = do check_validity did; core ← normalize did; ok (record { core = core })
