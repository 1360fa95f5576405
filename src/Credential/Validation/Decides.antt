-- ===== src/Credential/Validation/Decides.antt =====
-- `validate_decoded_credential` of jwt_credential_validator.rs against what it means.
use mathlib.Core.Option.{some-injective}
use zk_identity.Prelude.{
  ◌≡◌, refl, ◌∙◌, ap, sym, subst, ◌↔◌, Bool, true, false, not, ◌||◌, Option, none, some, List, [],
  ◌∷◌, Text, text_eqb_iff, arith, All,
}
use zk_identity.Prelude.Outcome.{Outcome, ok, err, panic, map_err, >>=-eq-ok, ok-injective}
use zk_identity.Core.OneOrMany
use zk_identity.Core.OneOrMany.{OneOrMany, one, many}
use zk_identity.Core.Timestamp.{Timestamp, Time, timestamp_leb}
use zk_identity.Document.CoreDocument.{CoreDocument}
use zk_identity.Credential.Types.{Subject, Credential, check_structure, or_now}
use zk_identity.Credential.Structure.{IsStructured, check_structure_iff}
use zk_identity.Credential.Validation.{
  JwtValidationError, credential_structure, issuance_date, always_subject,
  subject_on_non_transferable, any_holder, Checked, ValidationOptions, FailFast, all_errors,
  first_error, SubjectHolderRelationship, Reader, require, expires_late, same_text, url_matches,
  is_non_transferable, check_expires_on_or_after, check_issued_on_or_before,
  check_subject_holder_relationship, check_holder, check_status, validation_units, collect_all,
  collect_first, validation_errors, conclude, validate_decoded_credential,
}

-- `Vec` and `Iterator::take`
abbrev pub take_one : List JwtValidationError → List JwtValidationError
take_one [] = []
take_one (e ∷ es) = e ∷ []

collect_all_iff : (units : List Checked) → (collect_all units ≡ ok []) ↔ All (λ u. u ≡ ok tt) units
unfolding collect_all
collect_all_iff [] = (λ h. tt, λ h. refl)
collect_all_iff (ok done ∷ units) =
    (λ h. (refl, (collect_all_iff units).0 h), λ h. (collect_all_iff units).1 h.1)
collect_all_iff (err e ∷ units) = (λ h. absurd (ground arith), λ h. absurd (cc h.0))
collect_all_iff (panic ∷ units) = (λ h. absurd (cc h), λ h. absurd (cc h.0))

collect_first_iff :
    (units : List Checked) → (collect_first units ≡ ok []) ↔ All (λ u. u ≡ ok tt) units
unfolding collect_first
collect_first_iff [] = (λ h. tt, λ h. refl)
collect_first_iff (ok done ∷ units) =
    (λ h. (refl, (collect_first_iff units).0 h), λ h. (collect_first_iff units).1 h.1)
collect_first_iff (err e ∷ units) = (λ h. absurd (ground arith), λ h. absurd (cc h.0))
collect_first_iff (panic ∷ units) = (λ h. absurd (cc h), λ h. absurd (cc h.0))

errors_iff :
    (mode : FailFast) (units : List Checked)
    → (validation_errors mode units ≡ ok []) ↔ All (λ u. u ≡ ok tt) units
unfolding validation_errors
errors_iff all_errors units = collect_all_iff units
errors_iff first_error units = collect_first_iff units

conclude_iff :
    {A : Type 0} (token d : A) (errors : Outcome (Unit {0}) (List JwtValidationError))
    → (conclude token errors ≡ ok d) ↔ ((errors ≡ ok []) × (token ≡ d))
conclude_iff token d (ok []) = (λ h. (refl, ok-injective h), λ h. ap ok h.1)
conclude_iff token d (ok (e ∷ es)) = (λ h. absurd (cc h), λ h. absurd (ground arith))
conclude_iff token d (err e) = (λ h. absurd (cc h), λ h. absurd (cc h.0))
conclude_iff token d panic = (λ h. absurd (cc h), λ h. absurd (cc h.0))

collect-first-all :
    (units : List Checked) {es : List JwtValidationError}
    → collect_all units ≡ ok es
    → collect_first units ≡ ok (take_one es)
unfolding collect_all collect_first
collect-first-all [] h = ap (λ es. ok (take_one es)) (ok-injective h)
collect-first-all (ok done ∷ units) h = collect-first-all units h
collect-first-all (err e ∷ units) h =
    let (es, k, same) = >>=-eq-ok (collect_all units) _ h in
    ap (λ es. ok (take_one es)) (ok-injective same)
collect-first-all (panic ∷ units) h = absurd (cc h)

require_iff : (test : Bool) (e : JwtValidationError) → (require test e ≡ ok tt) ↔ (test ≡ true)
require_iff test e = ground arith

expires_late_iff :
    (o : Option Timestamp) (at : Timestamp)
    → (expires_late o at ≡ true) ↔ ((t : Timestamp) → o ≡ some t → timestamp_leb at t ≡ true)
expires_late_iff none at = (λ h t e. absurd (cc e), λ h. refl)
expires_late_iff (some u) at =
    (λ h t e. subst (λ v. timestamp_leb at v ≡ true) (some-injective u t e) h, λ h. h u refl)

map_err_iff :
    {E F A : Type 0} (f : E → F) (o : Outcome E A) (a : A) → (map_err f o ≡ ok a) ↔ (o ≡ ok a)
map_err_iff f (ok b) a = (λ h. ap ok (ok-injective h), λ h. ap ok (ok-injective h))
map_err_iff f (err e) a = (λ h. absurd (cc h), λ h. absurd (cc h))
map_err_iff f panic a = (λ h. absurd (cc h), λ h. absurd (cc h))

-- The holder is the only subject.
abbrev pub IsOnlySubject : OneOrMany Subject → Text → Type 0
IsOnlySubject subjects holder =
    (s : Subject) × (OneOrMany.into_vec subjects ≡ s ∷ []) × (s.id ≡ some holder)

same_text_iff : (o : Option Text) (t : Text) → (same_text o t ≡ true) ↔ (o ≡ some t)
same_text_iff none t = (λ h. absurd (cc h), λ h. absurd (cc h))
same_text_iff (some s) t =
    (λ h. ap some ((text_eqb_iff s t).0 h), λ h. (text_eqb_iff s t).1 (some-injective s t h))

cons-tail : {A : Type 0} {a b : A} {as' : List A} → a ∷ as' ≡ b ∷ [] → a ≡ b
cons-tail h = cc

url_matches_iff :
    (subjects : OneOrMany Subject) (holder : Text)
    → (url_matches subjects holder ≡ true) ↔ IsOnlySubject subjects holder
unfolding url_matches
url_matches_iff (one s) holder = (
  λ h. (s, refl, (same_text_iff s.id holder).0 h),
  λ h.
      let (t, e, k) = h in
      subst (λ (u : Subject). same_text u.id holder ≡ true) (sym (cons-tail e))
        ((same_text_iff t.id holder).1 k),
)
url_matches_iff (many []) holder = (λ h. absurd (cc h), λ h. absurd (cc h.1))
url_matches_iff (many (s ∷ [])) holder = (
  λ h. (s, refl, (same_text_iff s.id holder).0 h),
  λ h.
      let (t, e, k) = h in
      subst (λ (u : Subject). same_text u.id holder ≡ true) (sym (cons-tail e))
        ((same_text_iff t.id holder).1 k),
)
url_matches_iff (many (s ∷ (t ∷ ss))) holder = (λ h. absurd (cc h), λ h. absurd (cc h.1))

-- The holder is the only subject, where the relationship asks for it.
abbrev pub IsHolder : {X : Type 0} → Credential X → Text → SubjectHolderRelationship → Type 0
IsHolder c holder always_subject = IsOnlySubject c.credential_subject holder
IsHolder c holder subject_on_non_transferable =
    c.non_transferable ≡ some true → IsOnlySubject c.credential_subject holder
IsHolder c holder any_holder = Unit

non_transferable_iff :
    (o : Option Bool) (b : Bool) {P : Type 0}
    → ((b ≡ true) ↔ P)
    → ((b || not (is_non_transferable o)) ≡ true) ↔ (o ≡ some true → P)
non_transferable_iff none b p = (λ h e. absurd (cc e), λ h. ground arith)
non_transferable_iff (some false) b p = (λ h e. absurd (ground arith), λ h. ground arith)
non_transferable_iff (some true) b p = (λ h e. p.0 (ground arith), λ h. rw (p.1 (h refl)) refl)

module _ {X : Type 0} (c : Credential X) where
  -- The check on the holder passes exactly if the holder is the only subject, where the relationship
  -- asks for it: always, or of a credential that is not transferable.
  pub check_subject_holder_relationship_iff :
      (holder : Text) (relationship : SubjectHolderRelationship)
      → (check_subject_holder_relationship c holder relationship ≡ ok tt)
        ↔ IsHolder c holder relationship
  unfolding check_subject_holder_relationship
  check_subject_holder_relationship_iff holder always_subject =
      let (f, g) = url_matches_iff c.credential_subject holder in
      (λ h. f ((require_iff _ _).0 h), λ h. (require_iff _ _).1 (g h))
  check_subject_holder_relationship_iff holder subject_on_non_transferable =
      let (f, g) =
        non_transferable_iff c.non_transferable (url_matches c.credential_subject holder)
          (url_matches_iff c.credential_subject holder) in
      (λ h. f ((require_iff _ _).0 h), λ h. (require_iff _ _).1 (g h))
  check_subject_holder_relationship_iff holder any_holder = (λ h. tt, λ h. refl)

  check_holder_iff :
      (o : Option (Text × SubjectHolderRelationship))
      → (check_holder c o ≡ ok tt) ↔ (
          (holder : Text) (relationship : SubjectHolderRelationship)
          → o ≡ some (holder, relationship)
          → IsHolder c holder relationship)
  unfolding check_holder
  check_holder_iff none = (λ h holder r e. absurd (cc e), λ h. refl)
  check_holder_iff (some (holder, r)) =
      let (f, g) = check_subject_holder_relationship_iff holder r in
      (
        λ h holder' r' e.
            subst (λ (p : Text × SubjectHolderRelationship). IsHolder c p.0 p.1)
              (some-injective (holder, r) (holder', r') e) (f h),
        λ h. g (h holder r refl),
      )

  check_expires_iff :
      (at : Timestamp)
      → (check_expires_on_or_after c at ≡ ok tt)
        ↔ ((t : Timestamp) → c.expiration_date ≡ some t → timestamp_leb at t ≡ true)
  unfolding check_expires_on_or_after
  check_expires_iff at =
      let (f, g) = expires_late_iff c.expiration_date at in
      (λ h. f ((require_iff _ _).0 h), λ h. (require_iff _ _).1 (g h))

  check_issued_iff :
      (at : Timestamp)
      → (check_issued_on_or_before c at ≡ ok tt) ↔ (timestamp_leb c.issuance_date at ≡ true)
  unfolding check_issued_on_or_before
  check_issued_iff at = require_iff (timestamp_leb c.issuance_date at) issuance_date

module _ {D X : Type 0} (x : Reader D) (time : Time) where
  -- What a valid credential is: issued in time, not expired, structured, held by the right holder, and
  -- of no status that speaks against it.
  pub record IsAccepted (c : Credential X) (issuers : List (CoreDocument D))
      (options : ValidationOptions) : Type 0 where
    pub issued : timestamp_leb c.issuance_date (or_now time options.latest_issuance_date) ≡ true
    pub not_expired :
        (t : Timestamp)
        → c.expiration_date ≡ some t
        → timestamp_leb (or_now time options.earliest_expiry_date) t ≡ true
    pub structured : IsStructured c
    pub held :
        (holder : Text) (relationship : SubjectHolderRelationship)
        → options.subject_holder_relationship ≡ some (holder, relationship)
        → IsHolder c holder relationship
    pub status : check_status x c issuers options.status ≡ ok tt

  units_iff :
      (c : Credential X) (issuers : List (CoreDocument D)) (options : ValidationOptions)
      → All (λ u. u ≡ ok tt) (validation_units x time c issuers options)
        ↔ IsAccepted c issuers options
  unfolding validation_units
  units_iff c issuers options =
      let issued = check_issued_iff c (or_now time options.latest_issuance_date) in
      let expires = check_expires_iff c (or_now time options.earliest_expiry_date) in
      let structure = map_err_iff credential_structure (check_structure c) tt in
      let holder = check_holder_iff c options.subject_holder_relationship in
      (
        λ h.
            let (a, (b, (d, (e, (f, done))))) = h in
            record {
              issued = issued.0 a;
              not_expired = expires.0 b;
              structured = (check_structure_iff c).0 (structure.0 d);
              held = holder.0 e;
              status = f;
            },
        λ i. (
          issued.1 i.issued,
          (
            expires.1 i.not_expired,
            (
              structure.1 ((check_structure_iff c).1 i.structured),
              (holder.1 i.held, (i.status, tt)),
            ),
          ),
        ),
      )

  -- In either mode, a credential passes the validation, which returns it as it was, exactly if it is
  -- issued no later and expires no earlier than asked, is structured, is held as the relationship asks,
  -- and its status passes its check.
  pub validate_decoded_credential_iff :
      (c d : Credential X) (issuers : List (CoreDocument D)) (options : ValidationOptions)
      → (mode : FailFast)
      → (validate_decoded_credential x time c issuers options mode ≡ ok d)
        ↔ (IsAccepted c issuers options × (c ≡ d))
  unfolding validate_decoded_credential
  validate_decoded_credential_iff c d issuers options mode =
      let units = validation_units x time c issuers options in
      let concluded = conclude_iff c d (validation_errors mode units) in
      let (f, g) = errors_iff mode units in
      let (p, q) = units_iff c issuers options in
      (λ h. (p (f (concluded.0 h).0), (concluded.0 h).1), λ h. concluded.1 (g (q h.0), h.1))

  -- Stopping at the first error gives the first of all errors.
  pub validate_decoded_credential-first :
      (c : Credential X) (issuers : List (CoreDocument D)) (options : ValidationOptions)
      → {es : List JwtValidationError}
      → validate_decoded_credential x time c issuers options all_errors ≡ err es
      → validate_decoded_credential x time c issuers options first_error ≡ err (take_one es)
  unfolding validate_decoded_credential validation_errors
  validate_decoded_credential-first c issuers options h =
      first (collect_all (validation_units x time c issuers options)) refl h
    where
      first :
          (o : Outcome (Unit {0}) (List JwtValidationError)) {es : List JwtValidationError}
          → collect_all (validation_units x time c issuers options) ≡ o
          → conclude c o ≡ err es
          → conclude c (collect_first (validation_units x time c issuers options))
            ≡ err (take_one es)
      first (ok []) e k = absurd (cc k)
      first (ok (a ∷ as')) {es} e k =
          let same : a ∷ as' ≡ es = cc k in
          ap (conclude c) (collect-first-all (validation_units x time c issuers options) e)
          ∙ ap (λ es. err (take_one es)) same
      first (err a) e k = absurd (cc k)
      first panic e k = absurd (cc k)
