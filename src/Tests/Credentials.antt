-- ===== src/Tests/Credentials.antt =====
-- Credentials at concrete inputs.
use zk_identity.Prelude.{
  ℕ, ◌≡◌, ◌≤◌, ◌<◌, refl, arith, ◌↔◌, true, ◌||◌, none, some, List, [], ◌∷◌, ◌++◌, Text, codes, any,
  eqb, ap, sym, ◌∙◌, text_eqb, pos, find, int_leb, position, reject,
}
use zk_identity.Prelude.Outcome.{ok, err, ok-injective}
use zk_identity.Core.Timestamp.{from_unix}
use zk_identity.Did.Chars.{starts_with, all_chars, is_char_fragment, rfind_char, strip_prefix}
use zk_identity.Did.DidUrl
use zk_identity.Did.RelativeUrl
use zk_identity.Did.RelativeUrl.{fragment_of, set_fragment, set_path, set_query}
use zk_identity.Document.CoreDocument.{query}
use zk_identity.Document.Query
use zk_identity.Document.Query.{did_str, matches, same_fragment}
use zk_identity.Credential.BitmapStatus.{bitmap_status, status_id}
use zk_identity.Credential.Claims
use zk_identity.Credential.Claims.{
  CredentialJwtClaims, claims_of, check_consistency, try_into_credential,
}
use zk_identity.Credential.Claims.Consistency.{IsConsistent, check_consistency_iff}
use zk_identity.Credential.Claims.RoundTrip.{HasDates, try_into_credential-new}
use zk_identity.Credential.RevocationBitmap.{
  one_url, data_url_pattern, header, revoke_all, unrevoke_all, revoke_credentials,
  unrevoke_credentials, resolve_revocation_bitmap, to_endpoint, try_from_endpoint,
  serialize_compressed_base64,
}
use zk_identity.Credential.RevocationBitmap.Encoding.{HasHeader}
use zk_identity.Credential.RevocationBitmap.Encoding.Readable.{try_from_endpoint_iff}
use zk_identity.Credential.RevocationBitmap.Update.{revoke_credentials-resolve}
use zk_identity.Credential.Validation.{
  ValidationOptions, strict, all_errors, first_error, always_subject, issuance_date, revoked,
  check_status, validate_decoded_credential,
}
use zk_identity.Credential.Validation.Decides.{
  IsAccepted, validate_decoded_credential_iff, validate_decoded_credential-first,
}
use zk_identity.Credential.Validation.Revoked.{
  PointsAt, check_status-revoke_credentials, check_status-unrevoke_credentials,
}
use zk_identity.Tests.Bitmaps.{
  zlib_codec, zlib_text, zlib_codec-IsLossless, zlib_codec-IsStandard, number_set, sample_reader,
  sample_reader-IsReader, issuer_with, status_five, sample_credential, sample_time,
}
use zk_identity.Tests.Data.{url_at}

abbrev query_s : Text
query_s = codes "did:a:1#s"

starts_with-append : (p s : Text) → starts_with p (p ++ s) ≡ true
unfolding starts_with
starts_with-append [] s = refl
starts_with-append (c ∷ p) s = ground (arith, starts_with-append p s)

every_header : (b : List ℕ) → HasHeader number_set sample_reader.codec b
unfolding serialize_compressed_base64
every_header b text h = ap (starts_with header) (sym (ok-injective h)) ∙ starts_with-append header b

points : PointsAt sample_reader sample_credential (issuer_with []) query_s 5
unfolding text_eqb bitmap_status status_id set_path set_query set_fragment strip_prefix all_chars
    is_char_fragment DidUrl.to_string RelativeUrl.to_string revoke_credentials
points = record {
  status = status_five;
  url = url_at b's';
  has_status = refl;
  is_bitmap = refl;
  is_readable = refl;
  has_url = refl;
  is_queried = refl;
  has_index = refl;
  is_issuer = refl;
}

revokes :
    revoke_credentials number_set sample_reader.codec sample_reader.services
      (issuer_with [])
      query_s
      (5 ∷ [])
    ≡ ok (issuer_with (5 ∷ []))
unfolding revoke_credentials query find matches did_str text_eqb position same_fragment
    Query.fragment rfind_char fragment_of strip_prefix
revokes = refl

is_member : any (λ i. eqb i 5) (5 ∷ []) ≡ true
unfolding any
is_member = refl

check_status-revoke_credentials_example :
    check_status sample_reader sample_credential (issuer_with (5 ∷ []) ∷ []) strict ≡ err revoked
check_status-revoke_credentials_example =
    check_status-revoke_credentials sample_reader sample_credential (issuer_with []) query_s 5
      (5 ∷ []) sample_reader-IsReader points
      (λ b e. every_header (revoke_all number_set (5 ∷ []) b)) revokes is_member

unrevokes :
    unrevoke_credentials number_set sample_reader.codec sample_reader.services
      (issuer_with [])
      query_s
      (5 ∷ [])
    ≡ ok (issuer_with [])
unfolding unrevoke_credentials query find matches did_str text_eqb position same_fragment
    Query.fragment rfind_char fragment_of strip_prefix reject any
unrevokes = refl

check_status-unrevoke_credentials_example :
    check_status sample_reader sample_credential (issuer_with [] ∷ []) strict ≡ ok tt
check_status-unrevoke_credentials_example =
    check_status-unrevoke_credentials sample_reader sample_credential (issuer_with []) query_s 5
      (5 ∷ []) sample_reader-IsReader points
      (λ b e. every_header (unrevoke_all number_set (5 ∷ []) b)) unrevokes is_member

revoke_credentials-resolve_example :
    (before : List ℕ) × (after : List ℕ) × (resolve_revocation_bitmap number_set sample_reader.codec
        sample_reader.services
        (issuer_with [])
        query_s
      ≡ ok before)
    × (resolve_revocation_bitmap number_set sample_reader.codec sample_reader.services
          (issuer_with (5 ∷ []))
          query_s
        ≡ ok after)
    × ((j : ℕ)
        → number_set.contains after j
          ≡ (any (λ i. eqb i j) (5 ∷ []) || number_set.contains before j))
revoke_credentials-resolve_example =
    revoke_credentials-resolve number_set sample_reader.codec sample_reader.services
      (issuer_with []) query_s (5 ∷ []) sample_reader-IsReader.roaring
      sample_reader-IsReader.lossless sample_reader-IsReader.services
      (λ b e. every_header (revoke_all number_set (5 ∷ []) b)) revokes

-- the witness of a bitmap that is not read back: deflate starts it with the byte 237
written_large :
    to_endpoint number_set zlib_codec (237 ∷ [])
    ≡ ok (one_url (data_url_pattern ++ zlib_text (237 ∷ [])))
unfolding serialize_compressed_base64 to_endpoint
written_large = refl

try_from_endpoint_iff_example :
    (try_from_endpoint number_set zlib_codec (one_url (data_url_pattern ++ zlib_text (237 ∷ [])))
      ≡ ok (237 ∷ []))
    ↔ ((0x80 ≤ 237) × (237 < 0xc0))
try_from_endpoint_iff_example =
    try_from_endpoint_iff number_set zlib_codec (237 ∷ []) 237 [] zlib_codec-IsLossless
      zlib_codec-IsStandard (record { bytes = 237 ∷ []; serialized = refl; compressed = refl })
      (omega arith) written_large

abbrev sample_options : ValidationOptions
sample_options = record {
  earliest_expiry_date = none;
  latest_issuance_date = some (record { unix = pos 60 });
  status = strict;
  subject_holder_relationship = some (codes "h", always_subject);
}

validate_decoded_credential_iff_example :
    (validate_decoded_credential sample_reader sample_time sample_credential
        (issuer_with [] ∷ [])
        sample_options
        first_error
      ≡ ok sample_credential)
    ↔ (IsAccepted sample_reader sample_time sample_credential (issuer_with [] ∷ []) sample_options
        × (sample_credential ≡ sample_credential))
validate_decoded_credential_iff_example =
    validate_decoded_credential_iff sample_reader sample_time sample_credential sample_credential
      (issuer_with [] ∷ []) sample_options first_error

-- the credential is too young, and revoked
abbrev early_options : ValidationOptions
early_options = record sample_options { latest_issuance_date = some (record { unix = pos 40 }) }

fails_twice :
    validate_decoded_credential sample_reader sample_time sample_credential
      (issuer_with (5 ∷ []) ∷ [])
      early_options
      all_errors
    ≡ err (issuance_date ∷ revoked ∷ [])
unfolding validate_decoded_credential int_leb text_eqb set_path set_query set_fragment strip_prefix
    all_chars is_char_fragment query matches did_str DidUrl.to_string position RelativeUrl.to_string
    same_fragment Query.fragment rfind_char fragment_of from_unix
fails_twice = refl

validate_decoded_credential-first_example :
    validate_decoded_credential sample_reader sample_time sample_credential
      (issuer_with (5 ∷ []) ∷ [])
      early_options
      first_error
    ≡ err (issuance_date ∷ [])
validate_decoded_credential-first_example =
    validate_decoded_credential-first sample_reader sample_time sample_credential
      (issuer_with (5 ∷ []) ∷ []) early_options fails_twice

sample_dates : HasDates sample_time sample_credential
unfolding from_unix
sample_dates = record { issued = refl; expires = λ t e. refl }

sample_claims :
    Claims.new sample_credential none
    ≡ ok (claims_of sample_credential (record { id = some (codes "h"); properties = [] }) none)
unfolding Claims.new
sample_claims = refl

try_into_credential-new_example :
    try_into_credential sample_time
      (claims_of sample_credential (record { id = some (codes "h"); properties = [] }) none)
    ≡ ok sample_credential
try_into_credential-new_example =
    try_into_credential-new sample_time sample_credential none sample_dates sample_claims

check_consistency_iff_example :
    (check_consistency sample_time
        (claims_of sample_credential (record { id = some (codes "h"); properties = [] }) none)
      ≡ ok tt)
    ↔ IsConsistent sample_time
        (claims_of sample_credential (record { id = some (codes "h"); properties = [] }) none)
check_consistency_iff_example =
    check_consistency_iff sample_time
      (claims_of sample_credential (record { id = some (codes "h"); properties = [] }) none)
