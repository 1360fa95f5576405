-- ===== src/Core/OrderedSet/Unique.antt =====
-- The uniqueness of keys in `OrderedSet` of identity_core/src/common/ordered_set.rs.
use zk_identity.Prelude.{◌≡◌, Bool, List, [], ◌∷◌, arith, Sub}
use zk_identity.Core.OrderedSet.{
  KeyComparable, OrderedSet, new, change, contains, append, prepend, replace, update, remove,
  append_all, from_iter,
}
use zk_identity.Core.OrderedSet.Keys.{
  Distinct, is_one, is_either, is_one-ByKey, is_either-ByKey, splice, splice_of_position,
  Distinct-splice, Distinct-snoc, without_first, without_first_of_position, Distinct-without_first,
  Sub-without_first,
}

module _ {T : Type 0} where
  pub change-items :
      (s : OrderedSet T) (d : T) (f : T → T → Bool)
      → (change s d f).0.items ≡ splice (λ item. f item d) d s.items
  unfolding change
  change-items s d f = ground (arith, splice_of_position (λ item. f item d) d s.items)

module _ {T : Type 0} ⦃c : KeyComparable T⦄ where
  abbrev pub IsUnique : OrderedSet T → Type 0
  IsUnique s = Distinct s.items

  pub append-IsUnique : (s : OrderedSet T) (x : T) → IsUnique s → IsUnique (append s x).0
  unfolding append contains
  append-IsUnique s x d = ground (arith, Distinct-snoc s.items x d)

  pub prepend-IsUnique : (s : OrderedSet T) (x : T) → IsUnique s → IsUnique (prepend s x).0
  unfolding prepend contains
  prepend-IsUnique s x d = ground arith

  pub update-IsUnique : (s : OrderedSet T) (u : T) → IsUnique s → IsUnique (update s u).0
  unfolding update
  update-IsUnique s u d = rw change-items (
      Distinct-splice (is_one c.key_eq (c.key u)) u s.items (is_one-ByKey c.key_eq (c.key u))
        (c.key_eq.eq_refl (c.key u)) d)

  pub replace-IsUnique :
      (s : OrderedSet T) (k : c.Key) (u : T) → IsUnique s → IsUnique (replace s k u).0
  unfolding replace
  replace-IsUnique s k u d = rw change-items (
      Distinct-splice (is_either c.key_eq k (c.key u)) u s.items
        (is_either-ByKey c.key_eq k (c.key u)) (ground (arith, c.key_eq.eq_refl (c.key u))) d)

  pub remove-items : (s : OrderedSet T) (k : c.Key) → (remove s k).0.items ≡ without_first s.items k
  unfolding remove
  remove-items s k = ground (arith, without_first_of_position s.items k)

  pub Sub-remove : (s : OrderedSet T) (k : c.Key) → Sub (remove s k).0.items s.items
  Sub-remove s k = rw remove-items (Sub-without_first s.items k)

  pub remove-IsUnique : (s : OrderedSet T) (k : c.Key) → IsUnique s → IsUnique (remove s k).0
  remove-IsUnique s k d = rw remove-items (Distinct-without_first s.items k d)

  append_all-IsUnique : (s : OrderedSet T) (xs : List T) → IsUnique s → IsUnique (append_all s xs)
  unfolding append_all
  append_all-IsUnique s [] d = d
  append_all-IsUnique s (x ∷ xs) d = append_all-IsUnique (append s x).0 xs (append-IsUnique s x d)

  pub from_iter-IsUnique : (xs : List T) → IsUnique (from_iter xs)
  unfolding from_iter
  from_iter-IsUnique xs = append_all-IsUnique new xs tt
