-- ===== src/Prelude/Search.antt =====
-- The searches of Rust's `Iterator`, quantifiers over the entries of a list, and inclusion.
use Prim.Native.Nat.{ℕ, suc}
use mathlib.Core.Path.{◌≡◌, refl, sym, ap, ◌∙◌, subst}
use mathlib.Core.Bool.{Bool, true, false, ◌||◌}
use mathlib.Core.List.{List, [], ◌∷◌, ◌++◌, map}
use mathlib.Core.Option.{Option, none, some}
use native.Mathlib.Omega.{arith}
use mathlib.Core.Logic.{inl, inr}
use zk_identity.Prelude.Tests.{if◌then◌else◌, is_some, Bool-cases}

module _ {ℓ} {A : Type ℓ} where
  -- `Iterator::position`
  unfoldable pub position : (A → Bool) → List A → Option ℕ
  position p [] = none
  position p (x ∷ xs) =
      let rest = position p xs in
      if p x then some 0 else elim rest [ none ↦ none | some n ↦ some (suc n) ]

  -- `Iterator::filter` with a negated test
  unfoldable pub reject : (A → Bool) → List A → List A
  reject p [] = []
  reject p (x ∷ xs) = let rest = reject p xs in if p x then rest else x ∷ rest

  -- `Iterator::any`
  unfoldable pub any : (A → Bool) → List A → Bool
  any p [] = false
  any p (x ∷ xs) = let rest = any p xs in if p x then true else rest

  -- `Iterator::find`
  unfoldable pub find : (A → Bool) → List A → Option A
  find p [] = none
  find p (x ∷ xs) = let rest = find p xs in if p x then some x else rest

  abbrev pub All {κ} : (A → Type κ) → List A → Type κ
  All P [] = Unit
  All P (x ∷ xs) = P x × All P xs

  pub All-imp {κ ν} :
      {P : A → Type κ} {Q : A → Type ν}
      → ((a : A) → P a → Q a)
      → (xs : List A) → All P xs
      → All Q xs
  All-imp f [] h = tt
  All-imp f (x ∷ xs) h = (f x h.0, All-imp f xs h.1)

  pub any-append :
      (p : A → Bool) (xs ys : List A) → any p (xs ++ ys) ≡ (if any p xs then true else any p ys)
  unfolding any
  any-append p [] ys = refl
  any-append p (x ∷ xs) ys = ground (arith, any-append p xs ys)

module _ {ℓ} {A : Type ℓ} where
  pub is_some-find : (p : A → Bool) (xs : List A) → is_some (find p xs) ≡ any p xs
  unfolding find any
  is_some-find p [] = refl
  is_some-find p (x ∷ xs) = ground (arith, is_some-find p xs)

  -- what `find` returns passes the test, and has whatever all entries have
  pub find-All {κ} :
      (P : A → Type κ) (p : A → Bool) (xs : List A) {a : A}
      → find p xs ≡ some a
      → All P xs
      → (p a ≡ true) × P a
  unfolding find
  find-All P p [] h all = absurd (cc h)
  find-All P p (x ∷ xs) {a} h all = elim (Bool-cases (p x)) [
    | inl yes' ↦ let e : x ≡ a = ground arith in (subst (λ y. p y ≡ true) e yes', subst P e all.0)
    | inr no' ↦ find-All P p xs (rw no' at h) all.1
  ]

  pub All-and {κ ν} :
      (P : A → Type κ) (Q : A → Type ν) (xs : List A)
      → All P xs
      → All Q xs
      → All (λ a. P a × Q a) xs
  All-and P Q [] h k = tt
  All-and P Q (x ∷ xs) h k = ((h.0, k.0), All-and P Q xs h.1 k.1)

  pub any-All : (p : A → Bool) (xs : List A) → any p xs ≡ false → All (λ x. p x ≡ false) xs
  unfolding any
  any-All p [] h = tt
  any-All p (x ∷ xs) h = (ground arith, any-All p xs (ground arith))

  pub All-any : (p : A → Bool) (xs : List A) → All (λ x. p x ≡ false) xs → any p xs ≡ false
  unfolding any
  All-any p [] h = refl
  All-any p (x ∷ xs) h = ground (arith, All-any p xs h.1)

  pub any-imp :
      (p q : A → Bool)
      → ((a : A) → p a ≡ true → q a ≡ true)
      → (xs : List A) → any q xs ≡ false
      → any p xs ≡ false
  unfolding any
  any-imp p q f [] h = refl
  any-imp p q f (x ∷ xs) h = ground (arith, f x, any-imp p q f xs)

  pub any-map {κ} :
      {B : Type κ} (p : A → Bool) (f : B → A) (xs : List B)
      → any p (map f xs) ≡ any (λ x. p (f x)) xs
  unfolding any
  any-map p f [] = refl
  any-map p f (x ∷ xs) = ground (arith, any-map p f xs)

  pub All-snoc {κ} : (P : A → Type κ) (xs : List A) (x : A) → All P xs → P x → All P (xs ++ x ∷ [])
  All-snoc P [] x h k = (k, tt)
  All-snoc P (y ∷ ys) x h k = (h.0, All-snoc P ys x h.1 k)

  -- an entry in the middle
  pub any-insert :
      (p : A → Bool) (xs : List A) (x : A) (ys : List A)
      → any p (xs ++ x ∷ ys) ≡ (p x || any p (xs ++ ys))
  unfolding any
  any-insert p [] x ys = ground arith
  any-insert p (z ∷ zs) x ys = ground (arith, any-insert p zs x ys)

  -- order-preserving inclusion
  pub data Sub : List A → List A → Type ℓ where
    nil : Sub [] []
    keep : {xs ys : List A} (x : A) → Sub xs ys → Sub (x ∷ xs) (x ∷ ys)
    skip : {xs ys : List A} (x : A) → Sub xs ys → Sub xs (x ∷ ys)

  pub Sub-refl : (xs : List A) → Sub xs xs
  Sub-refl [] = nil
  Sub-refl (x ∷ xs) = keep x (Sub-refl xs)

  pub Sub-append : {xs ys us vs : List A} → Sub xs ys → Sub us vs → Sub (xs ++ us) (ys ++ vs)
  Sub-append nil t = t
  Sub-append (keep x s) t = keep x (Sub-append s t)
  Sub-append (skip x s) t = skip x (Sub-append s t)

  pub any-Sub : (p : A → Bool) {xs ys : List A} → Sub xs ys → any p ys ≡ false → any p xs ≡ false
  unfolding any
  any-Sub p nil h = h
  any-Sub p (keep x s) h = ground (arith, any-Sub p s)
  any-Sub p (skip x s) h = ground (arith, any-Sub p s)

  pub All-Sub {κ} : (P : A → Type κ) {xs ys : List A} → Sub xs ys → All P ys → All P xs
  All-Sub P nil h = h
  All-Sub P (keep x s) h = (h.0, All-Sub P s h.1)
  All-Sub P (skip x s) h = All-Sub P s h.1

-- the first of two answers that is there
abbrev pub or_else {ℓ} : {A : Type ℓ} → Option A → Option A → Option A
or_else (some a) b = some a
or_else none b = b

module _ {ℓ} {A : Type ℓ} where
  pub find-append :
      (p : A → Bool) (xs ys : List A) → find p (xs ++ ys) ≡ or_else (find p xs) (find p ys)
  unfolding find
  find-append p [] ys = refl
  find-append p (x ∷ xs) ys = ground (arith, find-append p xs ys)

  -- an entry that passes the test, when no other one does
  pub find-insert :
      (p : A → Bool) (xs : List A) (x : A) (ys : List A)
      → any p (xs ++ ys) ≡ false
      → p x ≡ true
      → find p (xs ++ x ∷ ys) ≡ some x
  unfolding find any
  find-insert p [] x ys h k = ground arith
  find-insert p (z ∷ zs) x ys h k = ground (arith, find-insert p zs x ys)

  pub find-none : (p : A → Bool) (xs : List A) → find p xs ≡ none → any p xs ≡ false
  find-none p xs h = sym (is_some-find p xs) ∙ ap is_some h

  pub any-left : (p : A → Bool) (xs ys : List A) → any p (xs ++ ys) ≡ false → any p xs ≡ false
  any-left p xs ys h = ground (arith, any-append p xs ys)

  pub any-right : (p : A → Bool) (xs ys : List A) → any p (xs ++ ys) ≡ false → any p ys ≡ false
  any-right p xs ys h = ground (arith, any-append p xs ys)

  pub find-absent : (p : A → Bool) (xs : List A) → any p xs ≡ false → find p xs ≡ none
  unfolding find any
  find-absent p [] h = refl
  find-absent p (x ∷ xs) h = ground (arith, find-absent p xs)

  -- an entry that fails the test is passed over
  pub find-skip :
      (p : A → Bool) (xs : List A) (x : A) (ys : List A)
      → p x ≡ false
      → find p (xs ++ x ∷ ys) ≡ find p (xs ++ ys)
  unfolding find
  find-skip p [] x ys h = rw h refl
  find-skip p (z ∷ zs) x ys h = ground (arith, find-skip p zs x ys h)

  pub All-insert {κ} :
      (P : A → Type κ) (xs : List A) (x : A) (ys : List A)
      → P x
      → All P (xs ++ ys)
      → All P (xs ++ x ∷ ys)
  All-insert P [] x ys k h = (k, h)
  All-insert P (z ∷ zs) x ys k h = (h.0, All-insert P zs x ys k h.1)

  pub All-left {κ} : (P : A → Type κ) (xs ys : List A) → All P (xs ++ ys) → All P xs
  All-left P [] ys h = tt
  All-left P (x ∷ xs) ys h = (h.0, All-left P xs ys h.1)

  pub All-right {κ} : (P : A → Type κ) (xs ys : List A) → All P (xs ++ ys) → All P ys
  All-right P [] ys h = h
  All-right P (x ∷ xs) ys h = All-right P xs ys h.1
