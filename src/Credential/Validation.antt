-- ===== src/Credential/Validation.antt =====
-- The validation of decoded credentials: jwt_credential_validator.rs and
-- jwt_credential_validator_utils.rs of identity_credential/src/validator/jwt_credential_validation, with
-- credential/revocation_bitmap_status.rs.
pub mod Decides
pub mod Revoked
use zk_identity.Prelude.{
  ℕ, ◌+◌, ◌*◌, ◌-◌, Bool, true, false, not, Option, none, some, List, [], ◌∷◌, ◌++◌, ◌&&◌, ◌||◌,
  Text, codes, text_eqb, if◌then◌else◌, leb, eqb, find,
}
use zk_identity.Prelude.Outcome.{Outcome, ok, err, panic, ◌>>=◌, ◌>>◌, map_err}
use zk_identity.Core.OneOrMany.{OneOrMany, one, many}
use zk_identity.Core.Timestamp.{Timestamp, Time, timestamp_leb}
use zk_identity.Did.DidUrl
use zk_identity.Did.DidUrl.{CoreDid, DidUrl, did_eqb}
use zk_identity.Did.DidUrl.Join.{Parser, parse_url}
use zk_identity.Document.CoreDocument.{CoreDocument}
use zk_identity.Credential.Types.{
  Subject, Issuer, Status, Credential, CredentialError, invalid_status, check_structure, issuer_url,
  or_now,
}
use zk_identity.Credential.BitmapStatus.{Urls, bitmap_status, status_id, status_index}
use zk_identity.Credential.RevocationBitmap.{
  Roaring, Codec, Services, bitmap_type, is_revoked, resolve_revocation_bitmap, RevocationError,
}

-- `JwtValidationError`, the variants that the validation of a decoded credential returns
pub data JwtValidationError : Type 0 where
  credential_structure : CredentialError → JwtValidationError
  expiration_date issuance_date subject_holder_relationship revoked issuer_document_mismatch
        issuer_url_error service_lookup_error :
      JwtValidationError
  status_error : CredentialError → JwtValidationError

pub data StatusCheck : Type 0 where
  strict skip_unsupported skip_all : StatusCheck

pub data SubjectHolderRelationship : Type 0 where
  always_subject subject_on_non_transferable any_holder : SubjectHolderRelationship

pub data FailFast : Type 0 where
  all_errors first_error : FailFast

-- `JwtCredentialValidationOptions`, without those on the signature
pub record ValidationOptions : Type 0 where
  pub earliest_expiry_date : Option Timestamp
  pub latest_issuance_date : Option Timestamp
  pub status : StatusCheck
  pub subject_holder_relationship : Option (Text × SubjectHolderRelationship)

abbrev pub Checked : Type 0
Checked = Outcome JwtValidationError (Unit {0})

-- `then_some(()).ok_or(e)`
abbrev pub require : Bool → JwtValidationError → Checked
require test e = if test then ok tt else err e

abbrev pub same_text : Option Text → Text → Bool
same_text none t = false
same_text (some s) t = text_eqb s t

abbrev pub expires_late : Option Timestamp → Timestamp → Bool
expires_late none timestamp = true
expires_late (some t) timestamp = timestamp_leb timestamp t

-- `url_matches`
unfoldable pub url_matches : OneOrMany Subject → Text → Bool
url_matches (one s) holder = same_text s.id holder
url_matches (many (s ∷ [])) holder = same_text s.id holder
url_matches (many _) holder = false

-- `unwrap_or(false)`
abbrev pub is_non_transferable : Option Bool → Bool
is_non_transferable none = false
is_non_transferable (some b) = b

-- the `match` on the relationship
abbrev pub is_related : SubjectHolderRelationship → Bool → Bool → Bool
is_related always_subject matches' non_transferable = matches'
is_related subject_on_non_transferable matches' non_transferable = matches' || not non_transferable
is_related any_holder matches' non_transferable = true

module _ {X : Type 0} where
  unfoldable pub check_expires_on_or_after : Credential X → Timestamp → Checked
  unfolding timestamp_leb
  check_expires_on_or_after c timestamp =
      require (expires_late c.expiration_date timestamp) expiration_date

  unfoldable pub check_issued_on_or_before : Credential X → Timestamp → Checked
  unfolding timestamp_leb
  check_issued_on_or_before c timestamp =
      require (timestamp_leb c.issuance_date timestamp) issuance_date

  unfoldable pub check_subject_holder_relationship :
      Credential X → Text → SubjectHolderRelationship → Checked
  unfolding url_matches
  check_subject_holder_relationship c holder relationship =
      require
        (is_related relationship (url_matches c.credential_subject holder)
          (is_non_transferable c.non_transferable))
        subject_holder_relationship

  -- `.map(…).unwrap_or(Ok(()))`
  unfoldable pub check_holder : Credential X → Option (Text × SubjectHolderRelationship) → Checked
  unfolding check_subject_holder_relationship
  check_holder c none = ok tt
  check_holder c (some (holder, relationship)) =
      check_subject_holder_relationship c holder relationship

abbrev pub extract_issuer : Urls → Issuer → Outcome JwtValidationError CoreDid
extract_issuer urls i = elim (urls.did_text (issuer_url i)) [
  | none ↦ err issuer_url_error
  | some text ↦ ok (record { as_str = text })
]

abbrev pub unsupported : StatusCheck → Checked
unsupported skip_unsupported = ok tt
unsupported _ = err (status_error invalid_status)

-- What reads documents and their bitmaps.
pub record Reader (D : Type 0) : Type 1 where
  pub roaring : Roaring
  pub codec : Codec
  pub services : Services D
  pub parser : Parser
  pub urls : Urls

module _ {D : Type 0} (x : Reader D) where
  -- `map_err(|_| ServiceLookupError)`
  unfoldable pub issuer_bitmap :
      CoreDocument D → DidUrl → Outcome JwtValidationError x.roaring.Bitmap
  unfolding resolve_revocation_bitmap
  issuer_bitmap issuer url =
      map_err (λ e. service_lookup_error)
        (resolve_revocation_bitmap x.roaring x.codec x.services issuer (DidUrl.to_string url))

  unfoldable pub check_revocation_bitmap_status : CoreDocument D → Status → Checked
  unfolding issuer_bitmap status_id status_index
  check_revocation_bitmap_status issuer status = do
    url ← map_err status_error (status_id x.parser status)
    bitmap ← issuer_bitmap issuer url
    index ← map_err status_error (status_index status)
    if is_revoked x.roaring bitmap index then err revoked else ok tt

abbrev pub found :
    {D : Type 0} → Option (CoreDocument D) → Outcome JwtValidationError (CoreDocument D)
found none = err issuer_document_mismatch
found (some d) = ok d

module _ {D X : Type 0} (x : Reader D) where
  -- the part of `check_status` on a status of the supported type
  unfoldable pub check_supported : Credential X → List (CoreDocument D) → Status → Checked
  unfolding bitmap_status find did_eqb check_revocation_bitmap_status
  check_supported c trusted_issuers status = do
    map_err status_error (bitmap_status x.urls status)
    issuer_did ← extract_issuer x.urls c.issuer
    issuer ← found (find (λ (d : CoreDocument D). did_eqb d.id issuer_did) trusted_issuers)
    check_revocation_bitmap_status x issuer status

  abbrev pub on_status :
      Credential X → List (CoreDocument D) → StatusCheck → Option Status → Checked
  on_status c trusted_issuers check none = ok tt
  on_status c trusted_issuers check (some status) =
      if not (text_eqb status.type_ bitmap_type)
      then unsupported check
      else check_supported c trusted_issuers status

  unfoldable pub check_status : Credential X → List (CoreDocument D) → StatusCheck → Checked
  unfolding check_supported
  check_status c trusted_issuers skip_all = ok tt
  check_status c trusted_issuers strict = on_status c trusted_issuers strict c.credential_status
  check_status c trusted_issuers skip_unsupported =
      on_status c trusted_issuers skip_unsupported c.credential_status

  -- the iterator of validations
  unfoldable pub validation_units :
      Time → Credential X → List (CoreDocument D) → ValidationOptions → List Checked
  unfolding check_issued_on_or_before check_expires_on_or_after check_structure check_holder
      check_status
  validation_units time c issuers options =
      check_issued_on_or_before c (or_now time options.latest_issuance_date)
      ∷ check_expires_on_or_after c (or_now time options.earliest_expiry_date)
      ∷ map_err credential_structure (check_structure c)
      ∷ check_holder c options.subject_holder_relationship
      ∷ check_status c issuers options.status
      ∷ []

-- `filter_map(|result| result.err())`, collected, or stopped at the first error
unfoldable pub collect_all : List Checked → Outcome (Unit {0}) (List JwtValidationError)
collect_all [] = ok []
collect_all (ok done ∷ units) = collect_all units
collect_all (err e ∷ units) = collect_all units >>= λ es. ok (e ∷ es)
collect_all (panic ∷ units) = panic

unfoldable pub collect_first : List Checked → Outcome (Unit {0}) (List JwtValidationError)
collect_first [] = ok []
collect_first (ok done ∷ units) = collect_first units
collect_first (err e ∷ units) = ok (e ∷ [])
collect_first (panic ∷ units) = panic

unfoldable pub validation_errors :
    FailFast → List Checked → Outcome (Unit {0}) (List JwtValidationError)
unfolding collect_all collect_first
validation_errors all_errors units = collect_all units
validation_errors first_error units = collect_first units

abbrev pub conclude :
    {A : Type 0}
    → A
    → Outcome (Unit {0}) (List JwtValidationError)
    → Outcome (List JwtValidationError) A
conclude token (ok []) = ok token
conclude token (ok (e ∷ es)) = err (e ∷ es)
conclude token (err e) = panic
conclude token panic = panic

unfoldable pub validate_decoded_credential :
    {D X : Type 0}
    → Reader D
    → Time
    → Credential X
    → List (CoreDocument D)
    → ValidationOptions
    → FailFast
    → Outcome (List JwtValidationError) (Credential X)
unfolding validation_units validation_errors
validate_decoded_credential x time token issuers options fail_fast =
    conclude token (validation_errors fail_fast (validation_units x time token issuers options))
