-- ===== src/Credential/Claims/Consistency.antt =====
-- `check_consistency` of jwt_serialization.rs against what it means.
use zk_identity.Prelude.{
  ◌≡◌, refl, ◌∙◌, ap, sym, ◌↔◌, Bool, true, Option, none, some, Text, text_eqb, text_eqb_iff, arith,
  int_eqb, int_eqb_iff,
}
use zk_identity.Prelude.Outcome.{ok, >>=-eq-ok, ok-injective}
use mathlib.Core.Option.{some-injective}
use zk_identity.Core.OneOrMany.{one}
use zk_identity.Core.Timestamp.{Timestamp, Time, timestamp_eqb, to_unix}
use zk_identity.Credential.Types.{
  Issuer, issuer_eqb, Credential, CredentialError, inconsistent_expiration_date, inconsistent_id,
  inconsistent_issuance_date, inconsistent_issuer,
}
use zk_identity.Credential.Claims.{
  CredentialJwtClaims, to_issuance_date, to_expiration_date, check_subject, issuer_agrees,
  issuance_agrees, expiration_agrees, id_agrees, check_consistency, try_into_credential, ensure,
  absent_or, is_there_and,
}

-- The claims that stand in `vc` too agree with the registered claims.
pub record IsConsistent {X : Type 0} (time : Time) (c : CredentialJwtClaims X) : Type 0 where
  pub issuer : (i : Issuer) → c.vc.issuer ≡ some i → issuer_eqb i c.iss ≡ true
  pub issuance_date :
      (t : Timestamp) × (to_issuance_date time c.issuance_date ≡ ok t)
      × ((u : Timestamp) → c.vc.issuance_date ≡ some u → u.unix ≡ t.unix)
  pub expiration_date : (u : Timestamp) → c.vc.expiration_date ≡ some u → c.exp ≡ some u.unix
  pub id : (i : Text) → c.vc.id ≡ some i → c.jti ≡ some i
  pub subject : (i : Text) → c.vc.credential_subject.id ≡ some i → c.sub ≡ some i

ensure-ok : (test : Bool) (e : CredentialError) → (ensure test e ≡ ok tt) ↔ (test ≡ true)
ensure-ok test e = ground arith

absent_or_iff :
    {A : Type 0} (test : A → Bool) (o : Option A)
    → (absent_or test o ≡ true) ↔ ((a : A) → o ≡ some a → test a ≡ true)
absent_or_iff test none = (λ h a e. absurd (cc e), λ h. refl)
absent_or_iff test (some a) = (λ h b e. rw (← some-injective a b e) h, λ h. h a refl)

is_there_and_iff :
    {A : Type 0} (test : A → Bool) (o : Option A) (b : A)
    → ((a : A) → (test a ≡ true) ↔ (a ≡ b))
    → (is_there_and test o ≡ true) ↔ (o ≡ some b)
is_there_and_iff test none b same = (λ h. absurd (cc h), λ h. absurd (cc h))
is_there_and_iff test (some a) b same =
    (λ h. ap some ((same a).0 h), λ h. (same a).1 (some-injective a b h))

timestamp_eqb_iff : (a b : Timestamp) → (timestamp_eqb a b ≡ true) ↔ (a.unix ≡ b.unix)
unfolding timestamp_eqb
timestamp_eqb_iff a b = int_eqb_iff a.unix b.unix

check_subject_iff :
    (id sub : Option Text)
    → (check_subject id sub ≡ ok tt) ↔ ((i : Text) → id ≡ some i → sub ≡ some i)
unfolding check_subject
check_subject_iff none sub = (λ h i e. absurd (cc e), λ h. refl)
check_subject_iff (some i) none = (λ h. absurd (cc h), λ h. absurd (cc (h i refl)))
check_subject_iff (some i) (some j) = (
  λ h k e. ap some ((text_eqb_iff j i).0 ((ensure-ok (text_eqb j i) _).0 h) ∙ some-injective i k e),
  λ h. (ensure-ok (text_eqb j i) _).1 ((text_eqb_iff j i).1 (some-injective j i (h i refl))),
)

module _ {X : Type 0} (time : Time) (c : CredentialJwtClaims X) where
  issuer_agrees_iff :
      (issuer_agrees c ≡ true) ↔ ((i : Issuer) → c.vc.issuer ≡ some i → issuer_eqb i c.iss ≡ true)
  unfolding issuer_agrees
  issuer_agrees_iff = absent_or_iff (λ value. issuer_eqb value c.iss) c.vc.issuer

  issuance_agrees_iff :
      (t : Timestamp)
      → (issuance_agrees c t ≡ true)
        ↔ ((u : Timestamp) → c.vc.issuance_date ≡ some u → u.unix ≡ t.unix)
  unfolding issuance_agrees
  issuance_agrees_iff t =
      let (f, g) = absent_or_iff (λ value. timestamp_eqb value t) c.vc.issuance_date in
      (
        λ h u e. (timestamp_eqb_iff u t).0 (f h u e),
        λ h. g (λ u e. (timestamp_eqb_iff u t).1 (h u e)),
      )

  expires_at :
      (u : Timestamp)
      → (is_there_and (λ exp. int_eqb exp (to_unix u)) c.exp ≡ true) ↔ (c.exp ≡ some u.unix)
  expires_at u =
      is_there_and_iff (λ exp. int_eqb exp (to_unix u)) c.exp u.unix (λ a. int_eqb_iff a u.unix)

  identified : (i : Text) → (is_there_and (λ jti. text_eqb jti i) c.jti ≡ true) ↔ (c.jti ≡ some i)
  identified i = is_there_and_iff (λ jti. text_eqb jti i) c.jti i (λ a. text_eqb_iff a i)

  expiration_agrees_iff :
      (expiration_agrees c ≡ true)
      ↔ ((u : Timestamp) → c.vc.expiration_date ≡ some u → c.exp ≡ some u.unix)
  unfolding expiration_agrees
  expiration_agrees_iff =
      let (f, g) =
        absent_or_iff (λ value. is_there_and (λ exp. int_eqb exp (to_unix value)) c.exp)
          c.vc.expiration_date in
      (λ h u e. (expires_at u).0 (f h u e), λ h. g (λ u e. (expires_at u).1 (h u e)))

  id_agrees_iff : (id_agrees c ≡ true) ↔ ((i : Text) → c.vc.id ≡ some i → c.jti ≡ some i)
  unfolding id_agrees
  id_agrees_iff =
      let (f, g) =
        absent_or_iff (λ value. is_there_and (λ jti. text_eqb jti value) c.jti) c.vc.id in
      (λ h u e. (identified u).0 (f h u e), λ h. g (λ u e. (identified u).1 (h u e)))

  check_consistency_sound : check_consistency time c ≡ ok tt → IsConsistent time c
  unfolding check_consistency
  check_consistency_sound h =
      let (a, issuer, h₁) = >>=-eq-ok (ensure (issuer_agrees c) inconsistent_issuer) _ h in
      let (date, converts, h₂) = >>=-eq-ok (to_issuance_date time c.issuance_date) _ h₁ in
      let (b, issuance, h₃) =
        >>=-eq-ok (ensure (issuance_agrees c date) inconsistent_issuance_date) _ h₂ in
      let (d, expiration, h₄) =
        >>=-eq-ok (ensure (expiration_agrees c) inconsistent_expiration_date) _ h₃ in
      let (e, id, subject) = >>=-eq-ok (ensure (id_agrees c) inconsistent_id) _ h₄ in
      record {
        issuer = issuer_agrees_iff.0 ((ensure-ok _ _).0 issuer);
        issuance_date = (date, converts, (issuance_agrees_iff date).0 ((ensure-ok _ _).0 issuance));
        expiration_date = expiration_agrees_iff.0 ((ensure-ok _ _).0 expiration);
        id = id_agrees_iff.0 ((ensure-ok _ _).0 id);
        subject = (check_subject_iff c.vc.credential_subject.id c.sub).0 subject;
      }

  check_consistency_complete : IsConsistent time c → check_consistency time c ≡ ok tt
  unfolding check_consistency
  check_consistency_complete i =
      let (date, converts, issuance) = i.issuance_date in
      rw
        (
          issuer_agrees_iff.1 i.issuer,
          converts,
          (issuance_agrees_iff date).1 issuance,
          expiration_agrees_iff.1 i.expiration_date,
          id_agrees_iff.1 i.id,
          (check_subject_iff c.vc.credential_subject.id c.sub).1 i.subject,
        )
        refl

  -- The claims pass the check exactly if their issuance date can be converted and what `vc` repeats,
  -- its issuer, dates, identifier and subject, agrees with the registered claims.
  pub check_consistency_iff : (check_consistency time c ≡ ok tt) ↔ IsConsistent time c
  check_consistency_iff = (check_consistency_sound, check_consistency_complete)

  -- What is read from claims is a credential of one subject, whose issuer, identifiers and dates are
  -- those of the registered claims, with which `vc` agrees.
  pub try_into_credential-IsConsistent :
      {credential : Credential X}
      → try_into_credential time c ≡ ok credential
      → IsConsistent time c
        × (credential.issuer ≡ c.iss)
        × (credential.id ≡ c.jti)
        × (credential.credential_subject
            ≡ one (record { id = c.sub; properties = c.vc.credential_subject.properties }))
        × (to_issuance_date time c.issuance_date ≡ ok credential.issuance_date)
        × (to_expiration_date time c.exp ≡ ok credential.expiration_date)
  unfolding try_into_credential
  try_into_credential-IsConsistent {credential} h =
      let (a, checked, h₁) = >>=-eq-ok (check_consistency time c) _ h in
      let (date, converts, h₂) = >>=-eq-ok (to_issuance_date time c.issuance_date) _ h₁ in
      let (expiry, expires, h₃) = >>=-eq-ok (to_expiration_date time c.exp) _ h₂ in
      let same = ok-injective h₃ in
      (
        check_consistency_sound checked,
        ap (λ (d : Credential X). d.issuer) (sym same),
        ap (λ (d : Credential X). d.id) (sym same),
        ap (λ (d : Credential X). d.credential_subject) (sym same),
        converts ∙ ap (λ (d : Credential X). ok d.issuance_date) same,
        expires ∙ ap (λ (d : Credential X). ok d.expiration_date) same,
      )
