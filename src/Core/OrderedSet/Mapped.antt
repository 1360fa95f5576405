-- ===== src/Core/OrderedSet/Mapped.antt =====
-- Items that are mapped and collected into an `OrderedSet` again.
use mathlib.Core.List.{append-nil, append_assoc}
use zk_identity.Prelude.{◌≡◌, refl, ap, ◌∙◌, List, [], ◌∷◌, ◌++◌, map, All, any}
use zk_identity.Prelude.Outcome.{Outcome, ok, ◌>>=◌, traverse}
use zk_identity.Core.OrderedSet.{
  KeyComparable, OrderedSet, has_key, new, append, append_all, contains, from_iter,
}
use zk_identity.Core.OrderedSet.Keys.{has, Distinct}
use zk_identity.Core.OrderedSet.FromVec.{fresh_of_Distinct}
use zk_identity.Core.OrderedSet.Unique.{IsUnique}

module _ {T : Type 0} ⦃c : KeyComparable T⦄ where
  append_all-Distinct :
      (s : OrderedSet T) (xs : List T)
      → Distinct (s.items ++ xs)
      → append_all s xs ≡ record { items = s.items ++ xs }
  unfolding append_all append contains
  append_all-Distinct s [] d = rw append-nil refl
  append_all-Distinct s (x ∷ xs) d = rw (fresh_of_Distinct s.items x xs d) (
      rw (append_assoc s.items (x ∷ []) xs) at (
        append_all-Distinct (record { items = s.items ++ x ∷ [] }) xs
          (rw (append_assoc s.items (x ∷ []) xs) d)))

  pub from_iter-Distinct : (xs : List T) → Distinct xs → from_iter xs ≡ record { items = xs }
  unfolding from_iter
  from_iter-Distinct xs d = append_all-Distinct new xs d

-- a map that keeps apart what it finds apart, among the items that satisfy `P`
abbrev pub KeepsKeys : {T : Type 0} ⦃c : KeyComparable T⦄ → (T → Type 0) → (T → T) → Type 0
KeepsKeys {T} ⦃c = c⦄ P m =
    (x y : T) → P x → P y → has_key (m x) (c.key (m y)) ≡ has_key x (c.key y)

module _ {T : Type 0} ⦃c : KeyComparable T⦄ (P : T → Type 0) (m : T → T) where
  has-map :
      KeepsKeys P m
      → (xs : List T) (y : T) → All P xs
      → P y
      → has (map m xs) (c.key (m y)) ≡ has xs (c.key y)
  unfolding any
  has-map keeps [] y h p = refl
  has-map keeps (x ∷ xs) y h p = rw (keeps x y h.0 p, has-map keeps xs y h.1 p) refl

  pub Distinct-map : KeepsKeys P m → (xs : List T) → All P xs → Distinct xs → Distinct (map m xs)
  Distinct-map keeps [] h d = tt
  Distinct-map keeps (x ∷ xs) h d =
      (has-map keeps xs x h.1 h.0 ∙ d.0, Distinct-map keeps xs h.1 d.1)

module _ {E T : Type 0} where
  pub traverse-map :
      (f : T → Outcome E T) (m : T → T)
      → ((x : T) → f x ≡ ok (m x))
      → (xs : List T) → traverse f xs ≡ ok (map m xs)
  traverse-map f m total [] = refl
  traverse-map f m total (x ∷ xs) = rw (total x, traverse-map f m total xs) refl

  pub traverse-back :
      (g : T → Outcome E T) (m : T → T) {P : T → Type 0}
      → ((x : T) → P x → g (m x) ≡ ok x)
      → (xs : List T) → All P xs
      → traverse g (map m xs) ≡ ok xs
  traverse-back g m back [] h = refl
  traverse-back g m back (x ∷ xs) h = rw (back x h.0, traverse-back g m back xs h.1) refl

-- `into_iter().map(…).collect::<Result<_, _>>()` for a set
abbrev pub collected :
    {E T : Type 0} ⦃c : KeyComparable T⦄
    → (T → Outcome E T)
    → OrderedSet T
    → Outcome E (OrderedSet T)
collected f s = do xs ← traverse f s.items; ok (from_iter xs)

module _ {T : Type 0} ⦃c : KeyComparable T⦄ (P : T → Type 0) (m : T → T) where
  -- the set that collecting makes, and the set that collecting back makes
  pub collected-map :
      {E : Type 0} (f : T → Outcome E T)
      → KeepsKeys P m
      → ((x : T) → f x ≡ ok (m x))
      → (s : OrderedSet T) → All P s.items
      → IsUnique s
      → collected f s ≡ ok (record { items = map m s.items })
  collected-map f keeps total s h d =
      rw (traverse-map f m total s.items)
        (ap (λ t. ok t) (from_iter-Distinct (map m s.items) (Distinct-map P m keeps s.items h d)))

  pub collected-back :
      {E : Type 0} (g : T → Outcome E T)
      → ((x : T) → P x → g (m x) ≡ ok x)
      → (s : OrderedSet T) → All P s.items
      → IsUnique s
      → collected g (record { items = map m s.items }) ≡ ok s
  collected-back g back s h d =
      rw (traverse-back g m back s.items h) (ap (λ t. ok t) (from_iter-Distinct s.items d))
