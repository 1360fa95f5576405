-- ===== src/Core/OneOrSet.antt =====
-- `OneOrSet` of identity_core/src/common/one_or_set.rs: one item, or a set of at least one.
use zk_identity.Prelude.{
  ℕ, zero, suc, ◌≤◌, ◌≡◌, refl, ap, ◌∙◌, Bool, true, false, Option, none, some, List, [], ◌∷◌, ◌||◌,
  map, arith, if◌then◌else◌, length, length-append, get_elem?, any, Bool-cases, inl, inr, subst,
  sym,
}
use zk_identity.Prelude.Outcome.{Outcome, ok, ◌>>=◌, traverse, >>=-eq-ok, ok-injective}
use zk_identity.Core.OrderedSet
use zk_identity.Core.OrderedSet.{KeyComparable, OrderedSet, has_key, contains, append_all}
use zk_identity.Core.OrderedSet.Keys.{has}
use zk_identity.Core.OrderedSet.Unique.{IsUnique, append-IsUnique, from_iter-IsUnique}
use zk_identity.Core.OrderedSet.Contains.{contains-append, contains-from_iter}

-- `OneOrSetInner`
pub data OneOrSet (T : Type 0) : Type 0 where
  one : T → OneOrSet T
  set : OrderedSet T → OneOrSet T

module _ {T : Type 0} where
  abbrev pub new_one : T → OneOrSet T
  new_one item = one item

  -- `if set.len() == 1 { One(set.into_vec().pop()) } else { Set(set) }`
  abbrev pub collapsed : List T → OneOrSet T
  collapsed [] = set (record { items = [] })
  collapsed (item ∷ []) = one item
  collapsed (item ∷ next ∷ rest) = set (record { items = item ∷ next ∷ rest })

  abbrev pub collapse : OrderedSet T → OneOrSet T
  collapse s = collapsed s.items

  -- `none` is `Error::OneOrSetEmpty`
  unfoldable pub new_set : OrderedSet T → Option (OneOrSet T)
  new_set s = if OrderedSet.is_empty s then none else some (collapse s)

  abbrev pub len : OneOrSet T → ℕ
  len (one item) = 1
  len (set inner) = OrderedSet.len inner

  abbrev pub get : OneOrSet T → ℕ → Option T
  get (one inner) zero = some inner
  get (one inner) (suc index) = none
  get (set inner) index = get_elem? inner.items index

  abbrev pub into_vec : OneOrSet T → List T
  into_vec (one inner) = inner ∷ []
  into_vec (set inner) = inner.items

module _ {T : Type 0} ⦃c : KeyComparable T⦄ where
  -- `TryFrom<Vec<T>>`; `none` is `Error::OrderedSetDuplicate` or `Error::OneOrSetEmpty`
  unfoldable pub try_from_vec : List T → Option (OneOrSet T)
  unfolding new_set
  try_from_vec other = elim (OrderedSet.try_from other) [ none ↦ none | some s ↦ new_set s ]

module _ {T S : Type 0} where
  unfoldable pub map_items : ⦃c : KeyComparable S⦄ → (T → S) → OneOrSet T → OneOrSet S
  map_items f (one item) = one (f item)
  map_items f (set s) = collapse (OrderedSet.from_iter (map f s.items))

  unfoldable pub try_map_items :
      {E : Type 0} ⦃c : KeyComparable S⦄ → (T → Outcome E S) → OneOrSet T → Outcome E (OneOrSet S)
  try_map_items f (one item) = do s ← f item; ok (one s)
  try_map_items f (set s) = do
    items ← traverse f s.items
    ok (collapse (OrderedSet.from_iter items))

module _ {T : Type 0} ⦃c : KeyComparable T⦄ where
  abbrev pub contains_item : OneOrSet T → c.Key → Bool
  contains_item (one inner) k = has_key inner k
  contains_item (set inner) k = contains inner k

  unfoldable pub append : OneOrSet T → T → OneOrSet T × Bool
  append (one inner) item =
      if has_key inner (c.key item)
      then (one inner, false)
      else (set (OrderedSet.from_iter (inner ∷ item ∷ [])), true)
  append (set inner) item =
      let (inner', appended) = OrderedSet.append inner item in (set inner', appended)

  -- a set has at least two items, with distinct keys
  abbrev pub IsCanonical : OneOrSet T → Type 0
  IsCanonical (one item) = Unit
  IsCanonical (set inner) = (2 ≤ OrderedSet.len inner) × IsUnique inner

  collapsed-IsCanonical :
      (xs : List T) → IsUnique (record { items = xs }) → 1 ≤ length xs → IsCanonical (collapsed xs)
  collapsed-IsCanonical [] u n = elim n [ ]
  collapsed-IsCanonical (x ∷ []) u n = tt
  collapsed-IsCanonical (x ∷ y ∷ zs) u n = (ground arith, u)

  has_some : (xs : List T) (k : c.Key) → has xs k ≡ true → 1 ≤ length xs
  unfolding any
  has_some [] k h = absurd (cc h)
  has_some (x ∷ xs) k h = ground arith

  -- collecting an item or more gives an item or more
  from_iter_some : (xs : List T) → 1 ≤ length xs → 1 ≤ OrderedSet.len (OrderedSet.from_iter xs)
  unfolding contains any
  from_iter_some [] n = elim n [ ]
  from_iter_some (x ∷ xs) n =
      has_some (OrderedSet.from_iter (x ∷ xs)).items (c.key x)
        (contains-from_iter (x ∷ xs) (c.key x) ∙ ground (arith, c.key_eq.eq_refl (c.key x)))

  collected-IsCanonical :
      (xs : List T) → 1 ≤ length xs → IsCanonical (collapse (OrderedSet.from_iter xs))
  collected-IsCanonical xs n =
      collapsed-IsCanonical (OrderedSet.from_iter xs).items (from_iter-IsUnique xs)
        (from_iter_some xs n)

  new_set-collapsed :
      (xs : List T) {o : OneOrSet T}
      → IsUnique (record { items = xs })
      → new_set (record { items = xs }) ≡ some o
      → IsCanonical o
  unfolding new_set
  new_set-collapsed [] u h = absurd (cc h)
  new_set-collapsed (x ∷ xs) {o} u h =
      let same : collapsed (x ∷ xs) ≡ o = cc h in
      subst IsCanonical same (collapsed-IsCanonical (x ∷ xs) u (ground arith))

  -- When a set of distinct keys is accepted, it makes one item, or a set of at least two with distinct keys.
  pub new_set-IsCanonical :
      (s : OrderedSet T) {o : OneOrSet T} → IsUnique s → new_set s ≡ some o → IsCanonical o
  new_set-IsCanonical s u h = new_set-collapsed s.items u h

  append_some :
      (s : OrderedSet T) (x : T)
      → 2 ≤ OrderedSet.len s
      → 2 ≤ OrderedSet.len (OrderedSet.append s x).0
  unfolding OrderedSet.append
  append_some s x h = ground (arith, length-append s.items (x ∷ []))

  two_items :
      (x y : T)
      → has_key x (c.key y) ≡ false
      → OrderedSet.from_iter (x ∷ y ∷ []) ≡ record { items = x ∷ y ∷ [] }
  unfolding OrderedSet.from_iter append_all OrderedSet.append contains any
  two_items x y h = ground arith

  -- Appending to one item, or to a set of at least two items with distinct keys, makes one item or
  -- such a set.
  pub append-IsCanonical : (o : OneOrSet T) (x : T) → IsCanonical o → IsCanonical (append o x).0
  unfolding append any
  append-IsCanonical (one y) x h = elim (Bool-cases (has_key y (c.key x))) [
    | inl same ↦ rw same tt
    | inr other ↦
        rw (other, two_items y x other)
          (omega arith, (ground (arith, c.key_eq.eq_sym (c.key x) (c.key y)), (refl, tt)))
  ]
  append-IsCanonical (set s) x h = (append_some s x h.0, append-IsUnique s x h.1)

  -- After appending, the keys that are there are those from before and the key of the item.
  pub contains_item-append :
      (o : OneOrSet T) (x : T) (k : c.Key)
      → contains_item (append o x).0 k ≡ (contains_item o k || has_key x k)
  unfolding append contains any
  contains_item-append (one y) x k =
      ground (arith, contains-from_iter (y ∷ x ∷ []) k, c.key_eq.eq_trans (c.key y) (c.key x) k)
  contains_item-append (set s) x k = contains-append s x k

module _ {T S E : Type 0} ⦃c : KeyComparable S⦄ where
  length-traverse :
      (f : T → Outcome E S) (xs : List T) {ys : List S}
      → traverse f xs ≡ ok ys
      → length ys ≡ length xs
  length-traverse f [] {ys} h = ap length (sym (ok-injective h))
  length-traverse f (x ∷ xs) {ys} h =
      let (y, a, b) = >>=-eq-ok (f x) (λ y. traverse f xs >>= λ zs. ok (y ∷ zs)) h in
      let (zs, a', b') = >>=-eq-ok (traverse f xs) (λ zs. ok (y ∷ zs)) b in
      ap length (sym (ok-injective b')) ∙ ap suc (length-traverse f xs a')

  -- When `try_map` of one item, or a set of at least one, succeeds, it makes one item, or a set of at
  -- least two with distinct keys, whatever the function does to the keys.
  pub try_map_items-IsCanonical :
      (f : T → Outcome E S) (o : OneOrSet T) {p : OneOrSet S}
      → 1 ≤ len o
      → try_map_items f o ≡ ok p
      → IsCanonical p
  unfolding try_map_items
  try_map_items-IsCanonical f (one x) {p} n h =
      let (y, a, b) = >>=-eq-ok (f x) (λ y. ok (one y)) h in subst IsCanonical (ok-injective b) tt
  try_map_items-IsCanonical f (set s) {p} n h =
      let (ys, a, b) =
        >>=-eq-ok (traverse f s.items) (λ ys. ok (collapse (OrderedSet.from_iter ys))) h in
      subst IsCanonical (ok-injective b)
        (collected-IsCanonical ys (ground (arith, length-traverse f s.items a)))
