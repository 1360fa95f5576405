-- ===== src/Credential/BitmapStatus.antt =====
-- `RevocationBitmapStatus` of identity_credential/src/credential/revocation_bitmap_status.rs.
use zk_identity.Prelude.{
  ℕ, ◌+◌, ◌*◌, ◌-◌, not, Option, none, some, List, [], ◌∷◌, ◌&&◌, Text, codes, text_eqb,
  if◌then◌else◌, leb, eqb,
}
use zk_identity.Prelude.Outcome.{Outcome, ok, err, panic, ◌>>=◌}
use zk_identity.Did.DidUrl.{DidUrl}
use zk_identity.Did.DidUrl.Join.{Parser, parse_url}
use zk_identity.Credential.Types.{
  Value, string, other, property, Status, CredentialError, invalid_status,
}
use zk_identity.Credential.RevocationBitmap.{bitmap_type}

-- The crate url: the pairs of a Url's query. The crate did_url_parser: the text of a DID that it accepts.
pub record Urls : Type 0 where
  pub query_pairs : Text → List (Text × Text)
  pub did_text : Text → Option Text

abbrev pub index_property : Text
index_property = codes "revocationBitmapIndex"

-- `u32::from_str` on the digits, with the value of those before
unfoldable pub parse_digits : ℕ → Text → Option ℕ
parse_digits value [] = some value
parse_digits value (c ∷ s) =
    let next = 10 * value + (c - b'0') in
    let rest = parse_digits next s in
    if leb b'0' c && (leb c b'9' && leb next 4_294_967_295) then rest else none

-- `u32::from_str`: digits, which a plus sign may stand before
unfoldable pub parse_u32 : Text → Option ℕ
unfolding parse_digits
parse_u32 [] = none
parse_u32 (c ∷ []) = parse_digits 0 (c ∷ [])
parse_u32 (c ∷ (d ∷ s)) =
    if eqb c b'+' then parse_digits 0 (d ∷ s) else parse_digits 0 (c ∷ (d ∷ s))

unfoldable pub try_index_to_u32 : Text → Outcome CredentialError ℕ
unfolding parse_u32
try_index_to_u32 index = elim (parse_u32 index) [ none ↦ err invalid_status | some i ↦ ok i ]

-- what `index` and `try_from` read from the property
abbrev index_of : Option Value → Outcome CredentialError ℕ
index_of none = err invalid_status
index_of (some (other v)) = err invalid_status
index_of (some (string index)) = try_index_to_u32 index

unfoldable pub status_index : Status → Outcome CredentialError ℕ
unfolding property try_index_to_u32
status_index s = index_of (property s.properties index_property)

-- the loop on the pairs of the query
unfoldable pub check_pairs : ℕ → List (Text × Text) → Outcome CredentialError (Unit {0})
unfolding try_index_to_u32
check_pairs bitmap_index [] = ok tt
check_pairs bitmap_index ((key, value) ∷ pairs) =
    let rest = check_pairs bitmap_index pairs in
    if text_eqb key (codes "index")
    then (do
      index ← try_index_to_u32 value
      if eqb index bitmap_index then rest else err invalid_status)
    else rest

-- `TryFrom<Status>`
unfoldable pub bitmap_status : Urls → Status → Outcome CredentialError (Unit {0})
unfolding status_index check_pairs
bitmap_status urls s =
    if not (text_eqb s.type_ bitmap_type)
    then err invalid_status
    else status_index s >>= λ index. check_pairs index (urls.query_pairs s.id)

-- `id`
unfoldable pub status_id : Parser → Status → Outcome CredentialError DidUrl
unfolding parse_url
status_id p s = elim (parse_url p s.id) [ ok u ↦ ok u | err e ↦ err invalid_status | panic ↦ panic ]
