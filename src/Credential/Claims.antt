-- ===== src/Credential/Claims.antt =====
-- `CredentialJwtClaims` of identity_credential/src/credential/jwt_serialization.rs: a credential as the
-- claims of a token, and back.
pub mod RoundTrip
pub mod Consistency
use zk_identity.Prelude.{
  Bool, true, false, not, Option, none, some, Text, text_eqb, if◌then◌else◌, ℤ, int_eqb, is_some,
}
use zk_identity.Prelude.Outcome.{Outcome, ok, err, ◌>>=◌, ◌>>◌}
use zk_identity.Core.OneOrMany.{OneOrMany, one, many}
use zk_identity.Core.Timestamp.{Timestamp, Time, from_unix, to_unix, timestamp_eqb}
use zk_identity.Credential.Types.{
  Object, Context, Subject, Issuer, issuer_eqb, Status, Credential, CredentialError,
  more_than_one_subject_in_jwt, timestamp_conversion_error, inconsistent_issuer,
  inconsistent_issuance_date, inconsistent_expiration_date, inconsistent_id, missing_sub,
  inconsistent_subject,
}

pub record IssuanceDateClaims : Type 0 where
  pub iat : Option ℤ
  pub nbf : Option ℤ

pub record InnerCredentialSubject : Type 0 where
  pub id : Option Text
  pub properties : Object

pub record InnerCredential (X : Type 0) : Type 0 where
  pub context : OneOrMany Context
  pub id : Option Text
  pub types : OneOrMany Text
  pub issuer : Option Issuer
  pub credential_subject : InnerCredentialSubject
  pub issuance_date : Option Timestamp
  pub expiration_date : Option Timestamp
  pub credential_status : Option Status
  pub non_transferable : Option Bool
  pub content : X

pub record CredentialJwtClaims (X : Type 0) : Type 0 where
  pub exp : Option ℤ
  pub iss : Issuer
  pub issuance_date : IssuanceDateClaims
  pub jti : Option Text
  pub sub : Option Text
  pub vc : InnerCredential X
  pub custom : Option Object

-- `Option::map` on a date
abbrev pub unix_of : Option Timestamp → Option ℤ
unix_of none = none
unix_of (some t) = some (to_unix t)

-- the claims of a credential with one subject
abbrev pub claims_of : {X : Type 0} → Credential X → Subject → Option Object → CredentialJwtClaims X
claims_of c subject custom = record {
  exp = unix_of c.expiration_date;
  iss = c.issuer;
  issuance_date = record { iat = none; nbf = some (to_unix c.issuance_date) };
  jti = c.id;
  sub = subject.id;
  vc = record {
    context = c.context;
    id = none;
    types = c.types;
    issuer = none;
    credential_subject = record { id = none; properties = subject.properties };
    issuance_date = none;
    expiration_date = none;
    credential_status = c.credential_status;
    non_transferable = c.non_transferable;
    content = c.content;
  };
  custom = custom;
}

-- `CredentialJwtClaims::new`
unfoldable pub new :
    {X : Type 0} → Credential X → Option Object → Outcome CredentialError (CredentialJwtClaims X)
new c custom = elim c.credential_subject [
  | one subject ↦ ok (claims_of c subject custom)
  | many subjects ↦ err more_than_one_subject_in_jwt
]

-- `map(|value| …).unwrap_or(true)`
abbrev pub absent_or : {A : Type 0} → (A → Bool) → Option A → Bool
absent_or test none = true
absent_or test (some a) = test a

-- `filter(…).is_some()`
abbrev pub is_there_and : {A : Type 0} → (A → Bool) → Option A → Bool
is_there_and test none = false
is_there_and test (some a) = test a

abbrev pub ensure : Bool → CredentialError → Outcome CredentialError (Unit {0})
ensure test e = if test then ok tt else err e

module _ (time : Time) where
  -- `from_unix` with `map_err`
  unfoldable pub converted : ℤ → Outcome CredentialError Timestamp
  unfolding from_unix
  converted seconds = elim (from_unix time seconds) [
    | none ↦ err timestamp_conversion_error
    | some t ↦ ok t
  ]

  abbrev from_iat : Option ℤ → Outcome CredentialError Timestamp
  from_iat none = err timestamp_conversion_error
  from_iat (some seconds) = converted seconds

  unfoldable pub to_issuance_date : IssuanceDateClaims → Outcome CredentialError Timestamp
  unfolding converted
  to_issuance_date d = elim d.nbf [ some seconds ↦ converted seconds | none ↦ from_iat d.iat ]

  -- `exp.map(from_unix).transpose()`
  unfoldable pub to_expiration_date : Option ℤ → Outcome CredentialError (Option Timestamp)
  unfolding converted
  to_expiration_date none = ok none
  to_expiration_date (some seconds) = converted seconds >>= λ t. ok (some t)

-- the last check
unfoldable pub check_subject : Option Text → Option Text → Outcome CredentialError (Unit {0})
check_subject none sub = ok tt
check_subject (some id) none = err missing_sub
check_subject (some id) (some sub) = ensure (text_eqb sub id) inconsistent_subject

module _ {X : Type 0} where
  -- the tests of the first four checks
  unfoldable pub issuer_agrees : CredentialJwtClaims X → Bool
  unfolding issuer_eqb
  issuer_agrees c = absent_or (λ value. issuer_eqb value c.iss) c.vc.issuer

  unfoldable pub issuance_agrees : CredentialJwtClaims X → Timestamp → Bool
  unfolding timestamp_eqb
  issuance_agrees c date = absent_or (λ value. timestamp_eqb value date) c.vc.issuance_date

  unfoldable pub expiration_agrees : CredentialJwtClaims X → Bool
  unfolding int_eqb
  expiration_agrees c =
      absent_or (λ value. is_there_and (λ exp. int_eqb exp (to_unix value)) c.exp)
        c.vc.expiration_date

  unfoldable pub id_agrees : CredentialJwtClaims X → Bool
  id_agrees c = absent_or (λ value. is_there_and (λ jti. text_eqb jti value) c.jti) c.vc.id

module _ {X : Type 0} (time : Time) where
  unfoldable pub check_consistency : CredentialJwtClaims X → Outcome CredentialError (Unit {0})
  unfolding issuer_agrees issuance_agrees expiration_agrees id_agrees to_issuance_date check_subject
  check_consistency c = do
    ensure (issuer_agrees c) inconsistent_issuer
    issuance_date ← to_issuance_date time c.issuance_date
    ensure (issuance_agrees c issuance_date) inconsistent_issuance_date
    ensure (expiration_agrees c) inconsistent_expiration_date
    ensure (id_agrees c) inconsistent_id
    check_subject c.vc.credential_subject.id c.sub

  -- the record at the end of `try_into_credential`
  abbrev pub credential_with : CredentialJwtClaims X → Timestamp → Option Timestamp → Credential X
  credential_with c issuance_date expiration_date = record {
    context = c.vc.context;
    id = c.jti;
    types = c.vc.types;
    credential_subject =
        one (record { id = c.sub; properties = c.vc.credential_subject.properties });
    issuer = c.iss;
    issuance_date = issuance_date;
    expiration_date = expiration_date;
    credential_status = c.vc.credential_status;
    non_transferable = c.vc.non_transferable;
    content = c.vc.content;
  }

  unfoldable pub try_into_credential :
      CredentialJwtClaims X → Outcome CredentialError (Credential X)
  unfolding check_consistency to_issuance_date to_expiration_date
  try_into_credential c = do
    check_consistency c
    issuance_date ← to_issuance_date time c.issuance_date
    expiration_date ← to_expiration_date time c.exp
    ok (credential_with c issuance_date expiration_date)
