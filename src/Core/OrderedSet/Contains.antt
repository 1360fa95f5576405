-- ===== src/Core/OrderedSet/Contains.antt =====
-- `contains` of ordered_set.rs after each of the operations that change the set.
use zk_identity.Prelude.{
  ◌≡◌, refl, ◌∙◌, Bool, true, List, [], ◌∷◌, arith, not, ◌&&◌, ◌||◌, if◌then◌else◌, any, any-append,
  find, position, get_elem?, none, some,
}
use zk_identity.Core.OrderedSet.{
  KeyComparable, OrderedSet, new, change, has_key, contains, append, prepend, replace, update,
  remove, append_all, from_iter,
}
use zk_identity.Core.OrderedSet.Keys.{
  has, is_one, is_either, is_one-ByKey, is_either-ByKey, has-splice, splice_no_match,
  any-eq-position, has-cong, has-without_first,
}
use zk_identity.Core.OrderedSet.Unique.{change-items, IsUnique, remove-items}

module _ {T : Type 0} where
  find_of_position :
      (p : T → Bool) (xs : List T)
      → (elim (position p xs) [ none ↦ none | some i ↦ get_elem? xs i ]) ≡ find p xs
  unfolding position find
  find_of_position p [] = refl
  find_of_position p (x ∷ xs) = ground (arith, find_of_position p xs)

module _ {T : Type 0} ⦃c : KeyComparable T⦄ where
  -- `append` adds the key of its item and no other.
  pub contains-append :
      (s : OrderedSet T) (x : T) (k : c.Key)
      → contains (append s x).0 k ≡ (contains s k || has_key x k)
  unfolding append contains any
  contains-append s x k =
      ground (
        arith,
        any-append (λ other. has_key other k) s.items (x ∷ []),
        has-cong s.items (c.key x) k,
      )

  pub contains-prepend :
      (s : OrderedSet T) (x : T) (k : c.Key)
      → contains (prepend s x).0 k ≡ (contains s k || has_key x k)
  unfolding prepend contains any
  contains-prepend s x k = ground (arith, has-cong s.items (c.key x) k)

  -- the flag that `append` and `prepend` return
  pub append-flag : (s : OrderedSet T) (x : T) → (append s x).1 ≡ not (contains s (c.key x))
  unfolding append
  append-flag s x = ground arith

  change-flag :
      (s : OrderedSet T) (d : T) (f : T → T → Bool)
      → (change s d f).1 ≡ any (λ item. f item d) s.items
  unfolding change
  change-flag s d f = ground (arith, any-eq-position (λ item. f item d) s.items)

  any_either :
      (xs : List T) (j k : c.Key)
      → any (λ x. if has_key x j then true else has_key x k) xs ≡ (has xs j || has xs k)
  unfolding any
  any_either [] j k = refl
  any_either (x ∷ xs) j k = ground (arith, any_either xs j k)

  pub update-flag : (s : OrderedSet T) (u : T) → (update s u).1 ≡ contains s (c.key u)
  unfolding update contains
  update-flag s u = change-flag s u (λ item v. has_key item (c.key v))

  pub replace-flag :
      (s : OrderedSet T) (k : c.Key) (u : T)
      → (replace s k u).1 ≡ (contains s k || contains s (c.key u))
  unfolding replace contains
  replace-flag s k u = rw change-flag (any_either s.items k (c.key u))

  -- `update` leaves the keys as they are.
  pub contains-update :
      (s : OrderedSet T) (u : T) (k : c.Key) → contains (update s u).0 k ≡ contains s k
  unfolding update contains
  contains-update s u k = rw change-items (
      ground (
        arith,
        has-splice (is_one c.key_eq (c.key u)) u s.items k (is_one-ByKey c.key_eq (c.key u)),
        splice_no_match (λ item. has_key item (c.key u)) u s.items,
        has-cong s.items (c.key u) k,
        c.key_eq.eq_sym k (c.key u),
      ))

  -- If `replace` finds the key `k` or that of the new item, then afterwards the key of the new item is
  -- there, and of the others those that are neither; else nothing changes.
  pub contains-replace :
      (s : OrderedSet T) (k : c.Key) (u : T) (j : c.Key)
      → contains (replace s k u).0 j ≡ (
          if contains s k || contains s (c.key u)
          then has_key u j || (contains s j && not (is_either c.key_eq k (c.key u) j))
          else contains s j)
  unfolding replace contains
  contains-replace s k u j = rw change-items (
      ground (
        arith,
        has-splice (is_either c.key_eq k (c.key u)) u s.items j
            (is_either-ByKey c.key_eq k (c.key u)),
        splice_no_match (λ item. if has_key item k then true else has_key item (c.key u)) u s.items,
        any_either s.items k (c.key u),
      ))

  -- `remove` takes its key away and no other.
  pub contains-remove :
      (s : OrderedSet T) (k j : c.Key)
      → IsUnique s
      → contains (remove s k).0 j ≡ (contains s j && not (c.key_eq.eq k j))
  unfolding contains
  contains-remove s k j d = rw remove-items (has-without_first s.items k j d)

  -- `remove` returns the first entry with its key.
  pub removed-eq-find :
      (s : OrderedSet T) (k : c.Key) → (remove s k).1 ≡ find (λ x. has_key x k) s.items
  unfolding remove
  removed-eq-find s k = ground (arith, find_of_position (λ x. has_key x k) s.items)

  pub contains-append_all :
      (s : OrderedSet T) (xs : List T) (k : c.Key)
      → contains (append_all s xs) k ≡ (contains s k || has xs k)
  unfolding append_all any
  contains-append_all s [] k = ground arith
  contains-append_all s (x ∷ xs) k =
      ground (arith, contains-append_all (append s x).0 xs k, contains-append s x k)

  -- Collecting a list into a set ignores duplicates and loses no key.
  pub contains-from_iter : (xs : List T) (k : c.Key) → contains (from_iter xs) k ≡ has xs k
  unfolding from_iter
  contains-from_iter xs k = contains-append_all new xs k ∙ (unfold contains any in refl)
