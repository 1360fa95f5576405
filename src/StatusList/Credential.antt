-- ===== src/StatusList/Credential.antt =====
-- `StatusList2021Credential` of identity_credential/src/revocation/status_list_2021/credential.rs:
-- a credential that carries an encoded status list.
pub mod Entries
use zk_identity.Prelude.{
  ◌≡◌, refl, [], ◌∷◌, text_eqb, ℕ, ◌≡◌, ◌<◌, Bool, true, false, Option, none, some, List, All, Text,
  if◌then◌else◌, ◌&&◌, not,
}
use zk_identity.Prelude.Outcome.{Outcome, ok, err, ◌>>=◌, map_err}
use zk_identity.StatusList.{
  StatusList2021, StatusListError, invalid_encoding, Fallible, get, set_status,
}

-- `try_from_encoded_str` and `into_encoded_str` without their first and last steps: base64 and gzip,
-- which are third-party crates. `none` stands for a text that one of the two refuses.
pub record Encoding : Type 0 where
  pub decode : Text → Option (List ℕ)
  pub encode : List ℕ → Text

pub data StatusPurpose : Type 0 where
  revocation suspension : StatusPurpose

-- `Display` and `FromStr`
abbrev revocation_text : Text
revocation_text = b'r' ∷ b'e' ∷ b'v' ∷ b'o' ∷ b'c' ∷ b'a' ∷ b't' ∷ b'i' ∷ b'o' ∷ b'n' ∷ []

abbrev suspension_text : Text
suspension_text = b's' ∷ b'u' ∷ b's' ∷ b'p' ∷ b'e' ∷ b'n' ∷ b's' ∷ b'i' ∷ b'o' ∷ b'n' ∷ []

unfoldable pub purpose_to_string : StatusPurpose → Text
purpose_to_string revocation = revocation_text
purpose_to_string suspension = suspension_text

unfoldable pub purpose_from_str : Text → Option StatusPurpose
purpose_from_str s =
    if text_eqb s revocation_text
    then some revocation
    else if text_eqb s suspension_text
    then some suspension
    else none

purpose_from_str-purpose_to_string :
    (p : StatusPurpose) → purpose_from_str (purpose_to_string p) ≡ some p
unfolding purpose_from_str purpose_to_string text_eqb
purpose_from_str-purpose_to_string revocation = refl
purpose_from_str-purpose_to_string suspension = refl

pub data CredentialStatus : Type 0 where
  revoked suspended valid : CredentialStatus

-- `StatusList2021CredentialError`
pub data CredentialError : Type 0 where
  multiple_credential_subject unreferenceable unreversible_revocation : CredentialError
  invalid_property missing_property : Text → CredentialError
  status_list_error : StatusListError → CredentialError

-- `StatusList2021CredentialSubject`; an `Url` is its text
pub record CredentialSubject : Type 0 where
  pub status_purpose : StatusPurpose
  pub encoded_list : Text
  pub id : Option Text

pub record StatusList2021Credential (C : Type 0) : Type 0 where
  pub inner : C
  pub subject : CredentialSubject

-- `MutStatusList`
pub record MutStatusList : Type 0 where
  pub list : StatusList2021
  pub purpose : StatusPurpose

pub record StatusList2021Entry : Type 0 where
  pub id : Text
  pub type_ : Text
  pub status_purpose : StatusPurpose
  pub status_list_index : ℕ
  pub status_list_credential : Text

-- `StatusList2021Entry::new`; `without_fragment` is `set_fragment(None)` of the crate url
unfoldable pub new_entry :
    (Text → Text) → Text → Text → StatusPurpose → ℕ → Option Text → StatusList2021Entry
new_entry without_fragment credential_status_type status_list purpose index id = record {
  id = elim id [ some i ↦ i | none ↦ without_fragment status_list ];
  type_ = credential_status_type;
  status_purpose = purpose;
  status_list_index = index;
  status_list_credential = status_list;
}

-- the part of a `Credential` that is written here; a `Status` is the entry that it is made from
pub record Credential (C : Type 0) : Type 0 where
  pub credential_status : Option StatusList2021Entry
  pub content : C

abbrev pub is_revocation : StatusPurpose → Bool
is_revocation revocation = true
is_revocation suspension = false

-- `MutStatusList::set_entry`
unfoldable pub set_list_entry : MutStatusList → ℕ → Bool → Outcome CredentialError MutStatusList
set_list_entry m index value = do
  entry_status ← map_err status_list_error (get m.list index)
  if is_revocation m.purpose && (not value && entry_status) then err unreversible_revocation else do
    list ← map_err status_list_error (set_status m.list index value)
    ok (record m { list = list })

-- the status that an entry has by its purpose
abbrev pub status_of : StatusPurpose → Bool → CredentialStatus
status_of revocation true = revoked
status_of suspension true = suspended
status_of purpose false = valid

module _ (e : Encoding) where
  unfoldable pub try_from_encoded_str : Text → Fallible StatusList2021
  try_from_encoded_str s = elim (e.decode s) [
    | none ↦ err invalid_encoding
    | some status_list ↦ ok (record { store = status_list })
  ]

  abbrev pub into_encoded_str : StatusList2021 → Text
  into_encoded_str s = e.encode s.store

module _ {C : Type 0} (e : Encoding) where
  abbrev pub status_list : StatusList2021Credential C → Fallible StatusList2021
  status_list c = try_from_encoded_str e c.subject.encoded_list

  abbrev pub with_list : StatusList2021Credential C → StatusList2021 → StatusList2021Credential C
  with_list c list = record c {
    subject = record (c.subject) { encoded_list = into_encoded_str e list };
  }

  unfoldable pub set_entry :
      StatusList2021Credential C → ℕ → Bool → Outcome CredentialError (StatusList2021Credential C)
  set_entry c index value = do
    list ← map_err status_list_error (status_list c)
    entry_status ← map_err status_list_error (get list index)
    if is_revocation c.subject.status_purpose && (not value && entry_status)
        then err unreversible_revocation
        else do
          list' ← map_err status_list_error (set_status list index value)
          ok (with_list c list')

  unfoldable pub entry : StatusList2021Credential C → ℕ → Outcome CredentialError CredentialStatus
  entry c index = do
    list ← map_err status_list_error (status_list c)
    entry_status ← map_err status_list_error (get list index)
    ok (status_of c.subject.status_purpose entry_status)

  unfoldable pub update :
      StatusList2021Credential C
      → (MutStatusList → Outcome CredentialError MutStatusList)
      → Outcome CredentialError (StatusList2021Credential C)
  update c update_fn = do
    list ← map_err status_list_error (status_list c)
    encapsulated ← update_fn (record { list = list; purpose = c.subject.status_purpose })
    ok (with_list c encapsulated.list)

  -- The list and the credential are changed together; the answer is the entry.
  unfoldable pub set_credential_status :
      {D : Type 0}
      → (Text → Text)
      → Text
      → StatusList2021Credential C
      → Credential D
      → ℕ
      → Bool
      → Outcome CredentialError (StatusList2021Credential C × Credential D × StatusList2021Entry)
  unfolding set_entry new_entry
  set_credential_status without_fragment credential_status_type c credential index value =
      elim (c.subject.id) [
        | none ↦ err unreferenceable
        | some id ↦
            let status =
              new_entry without_fragment credential_status_type id c.subject.status_purpose index
                none in
            do
              c' ← set_entry c index value
              ok (c', record credential { credential_status = some status }, status)
      ]
