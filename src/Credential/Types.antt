-- ===== src/Credential/Types.antt =====
-- `Credential` of identity_credential/src/credential/credential.rs, with the types of that folder and
-- builder.rs.
use zk_identity.Prelude.{
  Bool, true, false, not, Option, none, some, List, [], ◌∷◌, ◌&&◌, Text, codes, text_eqb,
  if◌then◌else◌, any, is_some,
}
use zk_identity.Prelude.Outcome.{Outcome, ok, err, ◌>>=◌, ◌>>◌}
use zk_identity.Core.OneOrMany
use zk_identity.Core.OneOrMany.{OneOrMany, one, many}
use zk_identity.Core.Timestamp.{Timestamp, Time, now_utc}

-- a JSON value: a string, or the text of another one
pub data Value : Type 0 where
  string : Text → Value
  other : Text → Value

-- `Object`, in the order of its keys
abbrev pub Object : Type 0
Object = List (Text × Value)

unfoldable pub value_eqb : Value → Value → Bool
value_eqb (string a) (string b) = text_eqb a b
value_eqb (other a) (other b) = text_eqb a b
value_eqb _ _ = false

unfoldable pub object_eqb : Object → Object → Bool
unfolding value_eqb
object_eqb [] [] = true
object_eqb ((k, v) ∷ o) ((l, w) ∷ p) = text_eqb k l && (value_eqb v w && object_eqb o p)
object_eqb _ _ = false

-- `Object::get`
unfoldable pub property : Object → Text → Option Value
property [] key = none
property ((k, v) ∷ o) key = let rest = property o key in if text_eqb k key then some v else rest

-- an `Url` is its text
pub data Context : Type 0 where
  url_context : Text → Context
  object_context : Object → Context

pub record Subject : Type 0 where
  pub id : Option Text
  pub properties : Object

-- `Issuer`, with `IssuerData`
pub data Issuer : Type 0 where
  url : Text → Issuer
  obj : Text → Object → Issuer

abbrev pub issuer_url : Issuer → Text
issuer_url (url u) = u
issuer_url (obj id properties) = id

unfoldable pub issuer_eqb : Issuer → Issuer → Bool
unfolding object_eqb
issuer_eqb (url a) (url b) = text_eqb a b
issuer_eqb (obj a o) (obj b p) = text_eqb a b && object_eqb o p
issuer_eqb _ _ = false

pub record Status : Type 0 where
  pub id : Text
  pub type_ : Text
  pub properties : Object

-- `content` stands for the schema, refresh service, terms of use, evidence, properties and proof, which
-- nothing here reads
pub record Credential (X : Type 0) : Type 0 where
  pub context : OneOrMany Context
  pub id : Option Text
  pub types : OneOrMany Text
  pub credential_subject : OneOrMany Subject
  pub issuer : Issuer
  pub issuance_date : Timestamp
  pub expiration_date : Option Timestamp
  pub credential_status : Option Status
  pub non_transferable : Option Bool
  pub content : X

-- `Error` of identity_credential/src/error.rs: the variants that these operations return, and the
-- messages of `InconsistentCredentialJwtClaims`
pub data CredentialError : Type 0 where
  missing_base_context missing_base_type missing_subject invalid_subject missing_issuer
        more_than_one_subject_in_jwt timestamp_conversion_error invalid_status inconsistent_issuer
        inconsistent_issuance_date inconsistent_expiration_date inconsistent_id missing_sub
        inconsistent_subject :
      CredentialError

abbrev pub base_context : Text
base_context = codes "https://www.w3.org/2018/credentials/v1"

abbrev pub base_type : Text
base_type = codes "VerifiableCredential"

-- `context == Self::base_context()`
abbrev pub is_base_context : Option Context → Bool
is_base_context (some (url_context u)) = text_eqb u base_context
is_base_context (some (object_context o)) = false
is_base_context none = false

abbrev no_property : Object → Bool
no_property [] = true
no_property (p ∷ o) = false

-- a subject with no identifier and no property
abbrev pub is_blank : Subject → Bool
is_blank s = not (is_some s.id) && no_property s.properties

-- `CredentialBuilder`
pub record CredentialBuilder (X : Type 0) : Type 0 where
  pub context : List Context
  pub id : Option Text
  pub types : List Text
  pub subject : List Subject
  pub issuer : Option Issuer
  pub issuance_date : Option Timestamp
  pub expiration_date : Option Timestamp
  pub status : Option Status
  pub non_transferable : Option Bool
  pub content : X

abbrev issuer_of : Option Issuer → Outcome CredentialError Issuer
issuer_of none = err missing_issuer
issuer_of (some i) = ok i

-- `unwrap_or_default`
abbrev pub or_now : Time → Option Timestamp → Timestamp
or_now time none = now_utc time
or_now time (some t) = t

module _ {X : Type 0} where
  -- The four checks, in order; the loop on subjects stops at the first blank one.
  unfoldable pub check_structure : Credential X → Outcome CredentialError (Unit {0})
  unfolding any
  check_structure c =
      if not (is_base_context (OneOrMany.get c.context 0))
      then err missing_base_context
      else if not (any (λ t. text_eqb t base_type) (OneOrMany.into_vec c.types))
      then err missing_base_type
      else if OneOrMany.is_empty c.credential_subject
      then err missing_subject
      else if any is_blank (OneOrMany.into_vec c.credential_subject)
      then err invalid_subject
      else ok tt

  unfoldable pub from_builder : Time → CredentialBuilder X → Outcome CredentialError (Credential X)
  unfolding check_structure
  from_builder time b = do
    issuer ← issuer_of b.issuer
    let this : Credential X = record {
      context = OneOrMany.from_vec b.context;
      id = b.id;
      types = OneOrMany.from_vec b.types;
      credential_subject = OneOrMany.from_vec b.subject;
      issuer = issuer;
      issuance_date = or_now time b.issuance_date;
      expiration_date = b.expiration_date;
      credential_status = b.status;
      non_transferable = b.non_transferable;
      content = b.content;
    } in
        check_structure this >> ok this
