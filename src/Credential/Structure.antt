-- ===== src/Credential/Structure.antt =====
-- `check_structure` of credential.rs against what it means.
use mathlib.Core.Option.{some-injective}
use zk_identity.Prelude.{
  ◌≡◌, refl, ap, ◌↔◌, Bool, true, false, not, Option, none, some, List, [], ◌∷◌, text_eqb,
  text_eqb_iff, arith, any, All, if◌then◌else◌,
}
use zk_identity.Prelude.Outcome.{ok, err}
use zk_identity.Core.OneOrMany
use zk_identity.Core.OneOrMany.{OneOrMany, one, many}
use zk_identity.Credential.Types.{
  Context, url_context, object_context, Subject, Credential, is_base_context, is_blank,
  base_context, base_type, check_structure, missing_base_context, missing_base_type,
  missing_subject, invalid_subject,
}

-- A subject has an identifier or a property.
abbrev pub IsDescribed : Subject → Type 0
IsDescribed s = is_blank s ≡ false

-- The base context comes first, the base type is among the types, and there are subjects, each with an
-- identifier or a property.
pub record IsStructured {X : Type 0} (c : Credential X) : Type 0 where
  pub context : OneOrMany.get c.context 0 ≡ some (url_context base_context)
  pub types : any (λ t. text_eqb t base_type) (OneOrMany.into_vec c.types) ≡ true
  pub subjects : OneOrMany.is_empty c.credential_subject ≡ false
  pub described : All IsDescribed (OneOrMany.into_vec c.credential_subject)

is_base_context_iff :
    (o : Option Context) → (is_base_context o ≡ true) ↔ (o ≡ some (url_context base_context))
is_base_context_iff none = (λ h. absurd (cc h), λ h. absurd (cc h))
is_base_context_iff (some (object_context o)) =
    (λ h. absurd (cc h), λ h. absurd (cc (some-injective _ _ h)))
is_base_context_iff (some (url_context u)) = (
  λ h. ap (λ v. some (url_context v)) ((text_eqb_iff u base_context).0 h),
  λ h. (text_eqb_iff u base_context).1 (cc h),
)

any-All : (ss : List Subject) → (any is_blank ss ≡ false) ↔ All IsDescribed ss
unfolding any
any-All [] = (λ h. tt, λ h. refl)
any-All (s ∷ ss) = (
  λ h. (ground arith, (any-All ss).0 (ground arith)),
  λ h. let rest = (any-All ss).1 h.1 in let first = h.0 in ground arith,
)

four_tests :
    (a b c d : Bool)
    → ((if not a
          then err missing_base_context
          else if not b
          then err missing_base_type
          else if c
          then err missing_subject
          else if d
          then err invalid_subject
          else ok tt)
        ≡ ok tt)
      ↔ ((a ≡ true) × (b ≡ true) × (c ≡ false) × (d ≡ false))
four_tests a b c d = ground arith

module _ {X : Type 0} (c : Credential X) where
  check_structure_tests : (check_structure c ≡ ok tt) ↔ (
      (is_base_context (OneOrMany.get c.context 0) ≡ true)
      × (any (λ t. text_eqb t base_type) (OneOrMany.into_vec c.types) ≡ true)
      × (OneOrMany.is_empty c.credential_subject ≡ false)
      × (any is_blank (OneOrMany.into_vec c.credential_subject) ≡ false))
  unfolding check_structure
  check_structure_tests =
      four_tests (is_base_context (OneOrMany.get c.context 0))
        (any (λ t. text_eqb t base_type) (OneOrMany.into_vec c.types))
        (OneOrMany.is_empty c.credential_subject)
        (any is_blank (OneOrMany.into_vec c.credential_subject))

  -- A credential passes the structure check exactly if the base context comes first, the base type is
  -- among its types, and it has subjects, each with an identifier or a property.
  pub check_structure_iff : (check_structure c ≡ ok tt) ↔ IsStructured c
  check_structure_iff = (
    λ h.
        let (context, types, subjects, described) = check_structure_tests.0 h in
        record {
          context = (is_base_context_iff (OneOrMany.get c.context 0)).0 context;
          types = types;
          subjects = subjects;
          described = (any-All (OneOrMany.into_vec c.credential_subject)).0 described;
        },
    λ s. check_structure_tests.1 (
      (is_base_context_iff (OneOrMany.get c.context 0)).1 s.context,
      s.types,
      s.subjects,
      (any-All (OneOrMany.into_vec c.credential_subject)).1 s.described,
    ),
  )
