-- ===== src/Core/OrderedSet/Undo.antt =====
-- `remove` of identity_core/src/common/ordered_set.rs after `append`, and on keys that are absent.
use zk_identity.Prelude.{
  ◌≡◌, refl, ap, Bool, true, false, none, some, List, [], ◌∷◌, ◌++◌, arith, any, position,
  remove_at, get_elem?, length,
}
use zk_identity.Core.OrderedSet.{OrderedSet, KeyComparable, has_key, contains, append, remove}

module _ {ℓ} {A : Type ℓ} where
  position-absent : (p : A → Bool) (xs : List A) → any p xs ≡ false → position p xs ≡ none
  unfolding any position
  position-absent p [] h = refl
  position-absent p (x ∷ xs) h = ground (arith, position-absent p xs)

  position-snoc :
      (p : A → Bool) (xs : List A) (x : A)
      → any p xs ≡ false
      → p x ≡ true
      → position p (xs ++ x ∷ []) ≡ some (length xs)
  unfolding any position
  position-snoc p [] x h k = ground arith
  position-snoc p (y ∷ ys) x h k = ground (arith, position-snoc p ys x)

  remove_at-snoc : (xs : List A) (x : A) → remove_at (length xs) (xs ++ x ∷ []) ≡ xs
  remove_at-snoc [] x = refl
  remove_at-snoc (y ∷ ys) x = ap (λ zs. y ∷ zs) (remove_at-snoc ys x)

  get_elem?-snoc : (xs : List A) (x : A) → get_elem? (xs ++ x ∷ []) (length xs) ≡ some x
  get_elem?-snoc [] x = refl
  get_elem?-snoc (y ∷ ys) x = get_elem?-snoc ys x

module _ {T : Type 0} ⦃c : KeyComparable T⦄ where
  pub remove-absent : (s : OrderedSet T) (k : c.Key) → contains s k ≡ false → remove s k ≡ (s, none)
  unfolding contains remove
  remove-absent s k h = rw (position-absent (λ other. has_key other k) s.items h, remove) refl

  pub append-absent :
      (s : OrderedSet T) (x : T)
      → contains s (c.key x) ≡ false
      → append s x ≡ (record { items = s.items ++ x ∷ [] }, true)
  unfolding append
  append-absent s x h = rw h refl

  -- a set with one entry more, at the end
  abbrev snoc : OrderedSet T → T → OrderedSet T
  snoc s x = record { items = s.items ++ x ∷ [] }

  remove-snoc :
      (s : OrderedSet T) (x : T)
      → contains s (c.key x) ≡ false
      → remove (snoc s x) (c.key x) ≡ (s, some x)
  unfolding contains remove
  remove-snoc s x h =
      rw
        (
          position-snoc (λ other. has_key other (c.key x)) s.items x h (c.key_eq.eq_refl (c.key x)),
          remove,
          remove_at-snoc s.items x,
          get_elem?-snoc s.items x,
        )
        refl

  -- Removing what was just appended gives the set back, and the item.
  pub remove-append :
      (s : OrderedSet T) (x : T)
      → contains s (c.key x) ≡ false
      → remove (append s x).0 (c.key x) ≡ (s, some x)
  remove-append s x h = rw (append-absent s x h) (remove-snoc s x h)
