-- ===== src/StatusList/Credential/Entries.antt =====
-- `set_entry` of status_list_2021/credential.rs, as `entry` of the same file reads it.
use zk_identity.Prelude.{
  ℕ, ◌≡◌, ◌<◌, ◌/◌, refl, sym, ap, ◌∙◌, subst, Bool, true, false, some, List, All, if◌then◌else◌,
  ◌&&◌, ◌||◌, not, eqb, ltb, arith, Bool-cases, inl, inr,
}
use zk_identity.Prelude.Outcome.{ok, err, ok-injective}
use zk_identity.StatusList.{StatusList2021, list_len, set_status}
use zk_identity.StatusList.Access.{IsBytes, status, written, get_in_bounds, set_in_bounds}
use zk_identity.StatusList.Credential.{
  Encoding, StatusPurpose, revocation, suspension, revoked, valid, unreversible_revocation,
  StatusList2021Credential, is_revocation, status_of, try_from_encoded_str, status_list, with_list,
  set_entry, entry, update, set_list_entry,
}

-- Bytes that were encoded are decoded to themselves.
abbrev pub IsLossless : Encoding → Type 0
IsLossless e = (bytes : List ℕ) → All (λ b. b < 256) bytes → e.decode (e.encode bytes) ≡ some bytes

-- the credential carries this list
pub record Carries {C : Type 0} (e : Encoding) (c : StatusList2021Credential C) (l : StatusList2021)
    : Type 0 where
  pub decoded : status_list e c ≡ ok l
  pub bytes : IsBytes l

module _ {C : Type 0} (e : Encoding) (c : StatusList2021Credential C) (l : StatusList2021)
    (carries : Carries e c l) where
  entry_in_bounds :
      (j : ℕ) → j < list_len l → entry e c j ≡ ok (status_of c.subject.status_purpose (status l j))
  unfolding entry
  entry_in_bounds j h = ground (arith, carries.decoded, get_in_bounds l j h)

  abbrev refused : ℕ → Bool → Bool
  refused i value = is_revocation c.subject.status_purpose && (not value && status l i)

  set_entry-refuse :
      (i : ℕ) (value : Bool)
      → i < list_len l
      → refused i value ≡ true
      → set_entry e c i value ≡ err unreversible_revocation
  unfolding set_entry
  set_entry-refuse i value h r = ground (arith, carries.decoded, get_in_bounds l i h)

  set_entry-store :
      (i : ℕ) (value : Bool) {l' : StatusList2021}
      → i < list_len l
      → refused i value ≡ false
      → set_status l i value ≡ ok l'
      → set_entry e c i value ≡ ok (with_list e c l')
  unfolding set_entry
  set_entry-store i value h r s = ground (arith, carries.decoded, get_in_bounds l i h)

  with_list-Carries :
      (l' : StatusList2021) → IsLossless e → IsBytes l' → Carries e (with_list e c l') l'
  unfolding try_from_encoded_str
  with_list-Carries l' lossless b = record {
    decoded = ground (arith, lossless l'.store b);
    bytes = b;
  }

  -- On a credential that carries a list, `set_entry` within the list either refuses, for a revocation
  -- list with the entry set that should be cleared, or stores a list of the same length in which just
  -- the entries differ that clearing or setting in the list changes.
  pub set_entry_lem :
      IsLossless e
      → (i : ℕ) (value : Bool) → i < list_len l
      → (l' : StatusList2021) × (set_entry e c i value ≡ (
          if is_revocation c.subject.status_purpose && (not value && status l i)
          then err unreversible_revocation
          else ok (with_list e c l')))
        × Carries e (with_list e c l') l'
        × (list_len l' ≡ list_len l)
        × ((j : ℕ) → status l' j ≡ written l i value j)
  set_entry_lem lossless i value h =
      let (l', s, same, b, stored) = set_in_bounds l i value carries.bytes h in
      (
        l',
        ground (arith, set_entry-refuse i value h, set_entry-store i value {l' = l'} h),
        with_list-Carries l' lossless b,
        same,
        stored,
      )

status_of_revoked : (p : StatusPurpose) (b : Bool) → status_of p b ≡ revoked → b ≡ true
status_of_revoked revocation true h = refl
status_of_revoked suspension true h = absurd (cc h)
status_of_revoked p false h = absurd (cc h)

status_of-revocation : (b : Bool) → status_of revocation b ≡ (if b then revoked else valid)
status_of-revocation true = refl
status_of-revocation false = refl

-- what is written over an entry that is set
written_over :
    (l : StatusList2021) (i j : ℕ) (value : Bool)
    → status l j ≡ true
    → (value ≡ false → status l i ≡ false)
    → written l i value j ≡ (value || (not (eqb (i / 8) (j / 8)) || ltb i j))
written_over l i j true set unset = ground arith
written_over l i j false set unset =
    let other : eqb i j ≡ false = elim (Bool-cases (eqb i j)) [
      | inl same ↦ let e : i ≡ j = ground arith in absurd (cc (set, ap (status l) e, unset refl))
      | inr other ↦ other
    ] in
    ground arith

module _ {C : Type 0} (e : Encoding) where
  -- On a credential that carries a list, after `set_entry` within it, `entry` answers for every entry
  -- of the list what clearing or setting in the list has stored, by the purpose of the list.
  pub entry-set_entry :
      (c : StatusList2021Credential C) (l : StatusList2021)
      → Carries e c l
      → IsLossless e
      → (i j : ℕ) (value : Bool) {c' : StatusList2021Credential C} → i < list_len l
      → j < list_len l
      → set_entry e c i value ≡ ok c'
      → entry e c' j ≡ ok (status_of c.subject.status_purpose (written l i value j))
  entry-set_entry c l carries lossless i j value {c'} hi hj h =
      let (l', s, carries', same, stored) = set_entry_lem e c l carries lossless i value hi in
      let changed : with_list e c l' ≡ c' = ground arith in
      subst (λ d. entry e d j ≡ ok (status_of c.subject.status_purpose (written l i value j)))
        changed
        (entry_in_bounds e (with_list e c l') l' carries' j (ground arith)
          ∙ ap (λ b. ok (status_of c.subject.status_purpose b)) (stored j))

  -- a revocation list is cleared only where it is clear
  unset_before :
      (c : StatusList2021Credential C) (l : StatusList2021)
      → Carries e c l
      → c.subject.status_purpose ≡ revocation
      → (i : ℕ) (value : Bool) {c' : StatusList2021Credential C} → i < list_len l
      → set_entry e c i value ≡ ok c'
      → value ≡ false
      → status l i ≡ false
  unset_before c l carries purpose i value hi h off = elim (Bool-cases (status l i)) [
    | inl on ↦ absurd (ground (arith, set_entry-refuse e c l carries i value hi))
    | inr clear ↦ clear
  ]

  -- On a revocation list, a revoked entry `j` stays revoked by a call of `set_entry`, unless the call
  -- clears an entry after it in the same byte: then it is valid.
  pub revoked-set_entry :
      (c : StatusList2021Credential C) (l : StatusList2021)
      → Carries e c l
      → IsLossless e
      → c.subject.status_purpose ≡ revocation
      → (i j : ℕ) (value : Bool) {c' : StatusList2021Credential C} → i < list_len l
      → j < list_len l
      → entry e c j ≡ ok revoked
      → set_entry e c i value ≡ ok c'
      → entry e c' j
        ≡ ok (if value || (not (eqb (i / 8) (j / 8)) || ltb i j) then revoked else valid)
  revoked-set_entry c l carries lossless purpose i j value {c'} hi hj was h =
      let set =
        status_of_revoked _ _ (ok-injective (sym (entry_in_bounds e c l carries j hj) ∙ was)) in
      entry-set_entry c l carries lossless i j value hi hj h
      ∙ ap (λ b. ok (status_of c.subject.status_purpose b))
          (written_over l i j value set (unset_before c l carries purpose i value hi h))
      ∙ ap (λ p. ok (status_of p (value || (not (eqb (i / 8) (j / 8)) || ltb i j)))) purpose
      ∙ ap ok (status_of-revocation (value || (not (eqb (i / 8) (j / 8)) || ltb i j)))

  -- `update` with a function that sets one entry of the list does what `set_entry` does, errors and
  -- panics included.
  pub update-set_list_entry :
      (c : StatusList2021Credential C) (i : ℕ) (value : Bool)
      → update e c (λ m. set_list_entry m i value) ≡ set_entry e c i value
  unfolding update set_list_entry set_entry
  update-set_list_entry c i value = ground arith
