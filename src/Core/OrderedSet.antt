-- ===== src/Core/OrderedSet.antt =====
-- `OrderedSet` of identity_core/src/common/ordered_set.rs, and `KeyComparable`.
pub mod Mapped
pub mod Keys
pub mod Unique
pub mod Contains
pub mod FromVec
pub mod Client
pub mod Undo
use zk_identity.Prelude.{
  ℕ, Bool, true, false, Option, none, some, List, [], ◌∷◌, ◌++◌, PartialEq, Text, text_eq,
  if◌then◌else◌, length, get_elem?, take, drop, insert_at, remove_at, last?, position, reject, any,
}

-- `trait KeyComparable`, with its associated type `Key`
pub record KeyComparable (T : Type 0) : Type 1 where
  pub Key : Type 0
  pub key_eq : PartialEq Key
  pub key : T → Key

pub record OrderedSet {ℓ} (T : Type ℓ) : Type ℓ where
  pub items : List T

module _ {ℓ} {T : Type ℓ} where
  abbrev pub new : OrderedSet T
  new = record { items = [] }

  abbrev pub len : OrderedSet T → ℕ
  len s = length s.items

  abbrev pub is_empty : OrderedSet T → Bool
  is_empty s = elim s.items [ [] ↦ true | x ∷ xs ↦ false ]

  unfoldable pub head : OrderedSet T → Option T
  head s = get_elem? s.items 0

  unfoldable pub tail : OrderedSet T → Option T
  tail s = last? s.items

  unfoldable pub change : OrderedSet T → T → (T → T → Bool) → OrderedSet T × Bool
  change s data' f = elim (position (λ item. f item data') s.items) [
    | none ↦ (s, false)
    | some index ↦ (
      record {
        items =
            insert_at index data'
              (take index s.items ++ reject (λ item. f item data') (drop index s.items));
      },
      true,
    )
  ]

module _ {T : Type 0} ⦃c : KeyComparable T⦄ where
  -- `entry.key() == k`
  abbrev pub has_key : T → c.Key → Bool
  has_key entry k = c.key_eq.eq (c.key entry) k

  -- The arguments `item : &U` of the source are read through `item.key()` alone: they are keys here.
  unfoldable pub contains : OrderedSet T → c.Key → Bool
  contains s item = any (λ other. has_key other item) s.items

  unfoldable pub append : OrderedSet T → T → OrderedSet T × Bool
  append s item =
      if contains s (c.key item)
      then (s, false)
      else (record { items = s.items ++ item ∷ [] }, true)

  unfoldable pub prepend : OrderedSet T → T → OrderedSet T × Bool
  prepend s item =
      if contains s (c.key item)
      then (s, false)
      else (record { items = insert_at 0 item s.items }, true)

  unfoldable pub replace : OrderedSet T → c.Key → T → OrderedSet T × Bool
  replace s current upd =
      change s upd (λ item u. if has_key item current then true else has_key item (c.key u))

  unfoldable pub update : OrderedSet T → T → OrderedSet T × Bool
  update s upd = change s upd (λ item u. has_key item (c.key u))

  unfoldable pub remove : OrderedSet T → c.Key → OrderedSet T × Option T
  remove s item = elim (position (λ entry. has_key entry item) s.items) [
    | none ↦ (s, none)
    | some idx ↦ (record { items = remove_at idx s.items }, get_elem? s.items idx)
  ]

  unfoldable pub append_all : OrderedSet T → List T → OrderedSet T
  append_all this [] = this
  append_all this (item ∷ rest) = append_all (append this item).0 rest

  -- `FromIterator::from_iter`: duplicates are ignored
  unfoldable pub from_iter : List T → OrderedSet T
  unfolding append_all
  from_iter iter = append_all new iter

  try_append_all : OrderedSet T → List T → Option (OrderedSet T)
  try_append_all this [] = some this
  try_append_all this (item ∷ rest) =
      let (this', appended) = append this item in
      let more = try_append_all this' rest in if appended then more else none

  -- `TryFrom<Vec<T>>`; `none` is `Error::OrderedSetDuplicate`
  unfoldable pub try_from : List T → Option (OrderedSet T)
  unfolding try_append_all
  try_from other = try_append_all new other

-- the key of an `Url` is the `Url`
instance abbrev pub text_key : KeyComparable Text
text_key = record { Key = Text; key_eq = text_eq; key = λ s. s }
