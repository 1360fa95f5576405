-- ===== src/Core/OrderedSet/FromVec.antt =====
-- `TryFrom<Vec<T>>` of identity_core/src/common/ordered_set.rs.
use mathlib.Core.List.{append-nil, append_assoc}
use zk_identity.Prelude.{
  ◌≡◌, refl, ◌∙◌, ◌↔◌, ap, sym, false, some, List, [], ◌∷◌, ◌++◌, arith, Bool-cases, inl, inr, any,
  any-append,
}
use zk_identity.Core.OrderedSet.{
  KeyComparable, OrderedSet, new, has_key, contains, append, try_append_all, try_from,
}
use zk_identity.Core.OrderedSet.Keys.{has, Distinct, Distinct-snoc}
use zk_identity.Core.OrderedSet.Unique.{IsUnique}

module _ {T : Type 0} ⦃c : KeyComparable T⦄ where
  pub fresh_of_Distinct :
      (ys : List T) (x : T) (xs : List T) → Distinct (ys ++ x ∷ xs) → has ys (c.key x) ≡ false
  unfolding any
  fresh_of_Distinct [] x xs d = refl
  fresh_of_Distinct (y ∷ ys) x xs d = ground (
    arith,
    fresh_of_Distinct ys x xs d.1,
    any-append (λ other. has_key other (c.key y)) ys (x ∷ xs),
    c.key_eq.eq_sym (c.key y) (c.key x),
  )

  try_append_all_complete :
      (s : OrderedSet T) (xs : List T)
      → Distinct (s.items ++ xs)
      → try_append_all s xs ≡ some (record { items = s.items ++ xs })
  unfolding try_append_all append contains
  try_append_all_complete s [] d = rw append-nil refl
  try_append_all_complete s (x ∷ xs) d = rw (fresh_of_Distinct s.items x xs d) (
      rw (append_assoc s.items (x ∷ []) xs) at (
        try_append_all_complete (record { items = s.items ++ x ∷ [] }) xs
          (rw (append_assoc s.items (x ∷ []) xs) d)))

  try_append_all_sound :
      (s : OrderedSet T) (xs : List T) {t : OrderedSet T}
      → IsUnique s
      → try_append_all s xs ≡ some t
      → (t.items ≡ s.items ++ xs) × IsUnique t
  unfolding try_append_all append contains
  try_append_all_sound s [] {t} d h = rw append-nil (ground arith)
  try_append_all_sound s (x ∷ xs) {t} d h = elim (Bool-cases (has s.items (c.key x))) [
    | inl old ↦ absurd (ground arith)
    | inr fresh ↦ rw (append_assoc s.items (x ∷ []) xs) at (
        try_append_all_sound (record { items = s.items ++ x ∷ [] }) xs
          (Distinct-snoc s.items x d fresh) (rw fresh at h))
  ]

  -- The conversion succeeds exactly on a vector of distinct keys, and keeps its entries in order.
  pub try_from_iff :
      (xs : List T) (s : OrderedSet T) → (try_from xs ≡ some s) ↔ ((s.items ≡ xs) × Distinct xs)
  unfolding try_from
  try_from_iff xs s = (
    (λ h. let (e, d) = try_append_all_sound new xs tt h in (e, rw e at d)),
    (λ h. try_append_all_complete new xs h.1 ∙ ap (λ i. some (record { items = i })) (sym h.0)),
  )
