-- ===== src/Core/OneOrMany.antt =====
-- `OneOrMany` of identity_core/src/common/one_or_many.rs: one item, or a vector of any length.
use zk_identity.Prelude.{
  ℕ, zero, suc, ◌≡◌, refl, ap, ◌∙◌, Bool, true, false, Option, none, some, List, [], ◌∷◌, ◌++◌,
  ◌&&◌, ◌||◌, if◌then◌else◌, length, get_elem?, any, ltb, leb, ◌==◌, PartialEq, Bool-cases, inl,
  inr, sym,
}
use mathlib.Core.List.{append-nil, append_assoc}

pub data OneOrMany (T : Type 0) : Type 0 where
  one : T → OneOrMany T
  many : List T → OneOrMany T

module _ {T : Type 0} where
  abbrev pub len : OneOrMany T → ℕ
  len (one inner) = 1
  len (many inner) = length inner

  abbrev pub get : OneOrMany T → ℕ → Option T
  get (one inner) zero = some inner
  get (one inner) (suc index) = none
  get (many inner) index = get_elem? inner index

  abbrev pub push : OneOrMany T → T → OneOrMany T
  push (one inner) value = many (inner ∷ value ∷ [])
  push (many []) value = one value
  push (many (x ∷ xs)) value = many ((x ∷ xs) ++ (value ∷ []))

  abbrev pub into_vec : OneOrMany T → List T
  into_vec (one inner) = inner ∷ []
  into_vec (many inner) = inner

  abbrev pub from_vec : List T → OneOrMany T
  from_vec [] = many []
  from_vec (item ∷ []) = one item
  from_vec (item ∷ next ∷ rest) = many (item ∷ next ∷ rest)

  abbrev pub is_empty : OneOrMany T → Bool
  is_empty (one inner) = false
  is_empty (many []) = true
  is_empty (many (x ∷ xs)) = false

  abbrev pub contains : ⦃e : PartialEq T⦄ → OneOrMany T → T → Bool
  contains (one inner) value = inner == value
  contains (many inner) value = any (λ x. x == value) inner

  abbrev pub default : OneOrMany T
  default = many []

-- `Iterator::size_hint`, which an iterator may get wrong
pub record SizeHint : Type 0 where
  pub lower : ℕ
  pub upper : Option ℕ

-- `size_hint.1.is_some() && (1, Some(1)) >= size_hint`
unfoldable pub at_most_one : SizeHint → Bool
at_most_one h = elim h.upper [ none ↦ false | some u ↦ ltb h.lower 1 || (leb h.lower 1 && leb u 1) ]

module _ {T : Type 0} where
  unfoldable pub push_all : OneOrMany T → List T → OneOrMany T
  push_all this [] = this
  push_all this (next ∷ rest) = push_all (push this next) rest

  abbrev pub from_first : List T → OneOrMany T
  from_first [] = many []
  from_first (first ∷ rest) = push_all (one first) rest

  -- `FromIterator::from_iter`, on the items that the iterator yields and its size hint
  unfoldable pub from_iter : SizeHint → List T → OneOrMany T
  from_iter hint items = if at_most_one hint then from_first items else from_vec items

  push_all-many : (x : T) (xs ys : List T) → push_all (many (x ∷ xs)) ys ≡ many ((x ∷ xs) ++ ys)
  unfolding push_all
  push_all-many x xs [] = ap (λ zs. many (x ∷ zs)) (sym (append-nil xs))
  push_all-many x xs (y ∷ ys) =
      push_all-many x (xs ++ (y ∷ [])) ys ∙ ap (λ zs. many (x ∷ zs)) (append_assoc xs (y ∷ []) ys)

  from_first-from_vec : (items : List T) → from_first items ≡ from_vec items
  unfolding push_all
  from_first-from_vec [] = refl
  from_first-from_vec (x ∷ []) = refl
  from_first-from_vec (x ∷ y ∷ zs) = push_all-many x (y ∷ []) zs

  into_vec-from_vec : (items : List T) → into_vec (from_vec items) ≡ items
  into_vec-from_vec [] = refl
  into_vec-from_vec (x ∷ []) = refl
  into_vec-from_vec (x ∷ y ∷ zs) = refl

  from_iter_eq : (hint : SizeHint) (items : List T) → from_iter hint items ≡ from_vec items
  unfolding from_iter
  from_iter_eq hint items = elim (Bool-cases (at_most_one hint)) [
    | inl h ↦ rw (h, from_first-from_vec items)
    | inr h ↦ rw h
  ]

  -- Whatever size hint an iterator gives, right or wrong, collecting its items gives what the
  -- conversion of the vector of these items gives, and the vector of the result has these items.
  pub from_iter-from_vec :
      (hint : SizeHint) (items : List T)
      → (from_iter hint items ≡ from_vec items) × (into_vec (from_iter hint items) ≡ items)
  from_iter-from_vec hint items =
      (from_iter_eq hint items, ap into_vec (from_iter_eq hint items) ∙ into_vec-from_vec items)
