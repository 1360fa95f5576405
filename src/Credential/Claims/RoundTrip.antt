-- ===== src/Credential/Claims/RoundTrip.antt =====
-- The round trip of jwt_serialization.rs: a credential is read back from its claims.
use zk_identity.Prelude.{◌≡◌, refl, ap, sym, subst, Option, none, some}
use zk_identity.Prelude.Outcome.{ok, ok-injective}
use zk_identity.Core.OneOrMany.{OneOrMany, one, many}
use zk_identity.Core.Timestamp.{Timestamp, Time, from_unix}
use zk_identity.Credential.Types.{Object, Subject, Credential}
use zk_identity.Credential.Claims.{
  CredentialJwtClaims, claims_of, unix_of, check_subject, new, converted, to_issuance_date,
  to_expiration_date, check_consistency, try_into_credential,
}

-- a timestamp that the constructors of `Timestamp` make
abbrev pub IsTimed : Time → Timestamp → Type 0
IsTimed time t = from_unix time t.unix ≡ some t

pub record HasDates {X : Type 0} (time : Time) (c : Credential X) : Type 0 where
  pub issued : IsTimed time c.issuance_date
  pub expires : (t : Timestamp) → c.expiration_date ≡ some t → IsTimed time t

converted-unix : (time : Time) (t : Timestamp) → IsTimed time t → converted time t.unix ≡ ok t
unfolding converted
converted-unix time t h = rw (converted, h) refl

expiration-unix :
    (time : Time) (o : Option Timestamp)
    → ((t : Timestamp) → o ≡ some t → IsTimed time t)
    → to_expiration_date time (unix_of o) ≡ ok o
unfolding to_expiration_date
expiration-unix time none h = refl
expiration-unix time (some t) h = rw (converted-unix time t (h t refl)) refl

module _ {X : Type 0} (time : Time) where
  consistent :
      (c : Credential X) (s : Subject) (custom : Option Object)
      → HasDates time c
      → check_consistency time (claims_of c s custom) ≡ ok tt
  unfolding check_consistency to_issuance_date check_subject
  consistent c s custom dates = rw (converted-unix time c.issuance_date dates.issued) refl

  read_back :
      (c : Credential X) (s : Subject) (custom : Option Object)
      → HasDates time c
      → c.credential_subject ≡ one s
      → try_into_credential time (claims_of c s custom) ≡ ok c
  unfolding try_into_credential to_issuance_date
  read_back c s custom dates h =
      rw
        (
          consistent c s custom dates,
          converted-unix time c.issuance_date dates.issued,
          expiration-unix time c.expiration_date dates.expires,
        )
        (ap (λ subjects. ok (record c { credential_subject = subjects })) (sym h))

  new-ok :
      (c : Credential X) (custom : Option Object) {claims : CredentialJwtClaims X}
      → new c custom ≡ ok claims
      → (s : Subject) × (c.credential_subject ≡ one s) × (claims_of c s custom ≡ claims)
  unfolding new
  new-ok c custom {claims} h = go c.credential_subject refl
    where
      go :
          (subjects : OneOrMany Subject)
          → c.credential_subject ≡ subjects
          → (s : Subject) × (c.credential_subject ≡ one s) × (claims_of c s custom ≡ claims)
      go (one s) e = (s, e, ok-injective (rw (e, new) at h))
      go (many ss) e = absurd (cc (rw (e, new) at h))

  -- A credential whose dates are within the range of timestamps is read back, as it was, from the
  -- claims it was turned into, whatever custom claims are added.
  pub try_into_credential-new :
      (c : Credential X) (custom : Option Object) {claims : CredentialJwtClaims X}
      → HasDates time c
      → new c custom ≡ ok claims
      → try_into_credential time claims ≡ ok c
  try_into_credential-new c custom dates h =
      let (s, e, same) = new-ok c custom h in
      subst (λ claims. try_into_credential time claims ≡ ok c) same (read_back c s custom dates e)
