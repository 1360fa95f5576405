-- ===== src/Core/OrderedSet/Keys.antt =====
-- The keys of a list of entries: the lemmas on which the laws of `OrderedSet` rest.
use zk_identity.Prelude.{
  ◌≡◌, refl, Bool, true, false, none, some, List, [], ◌∷◌, ◌++◌, arith, not, ◌&&◌, ◌||◌,
  if◌then◌else◌, take, drop, insert_at, remove_at, position, reject, any, any-append, PartialEq,
  Sub, nil, keep, skip, Sub-refl, Bool-cases, inl, inr,
}
use zk_identity.Core.OrderedSet.{KeyComparable, has_key}

-- `p` does not tell equal keys apart
abbrev pub ByKey : {K : Type 0} → PartialEq K → (K → Bool) → Type 0
ByKey {K} e p = (a b : K) → e.eq a b ≡ true → p a ≡ p b

-- the tests of `update` and `replace`, on a key
abbrev pub is_one : {K : Type 0} → PartialEq K → K → K → Bool
is_one e k a = e.eq a k

abbrev pub is_either : {K : Type 0} → PartialEq K → K → K → K → Bool
is_either e j k a = if e.eq a j then true else e.eq a k

pub is_one-ByKey : {K : Type 0} (e : PartialEq K) (k : K) → ByKey e (is_one e k)
is_one-ByKey e k a b h = ground (arith, e.eq_trans b a k, e.eq_trans a b k, e.eq_sym a b)

pub is_either-ByKey : {K : Type 0} (e : PartialEq K) (j k : K) → ByKey e (is_either e j k)
is_either-ByKey e j k a b h = ground (arith, is_one-ByKey e j a b h, is_one-ByKey e k a b h)

module _ {T : Type 0} where
  -- The list that `change` builds, in one pass: `d` stands where the first match stood.
  pub splice : (T → Bool) → T → List T → List T
  splice p d [] = []
  splice p d (x ∷ xs) = let rest = splice p d xs in if p x then d ∷ reject p xs else x ∷ rest

  pub splice_of_position :
      (p : T → Bool) (d : T) (xs : List T)
      → (elim (position p xs) [
        | none ↦ xs
        | some i ↦ insert_at i d (take i xs ++ reject p (drop i xs))
      ])
        ≡ splice p d xs
  unfolding splice position reject
  splice_of_position p d [] = refl
  splice_of_position p d (x ∷ xs) = ground (arith, splice_of_position p d xs)

  pub any-eq-position :
      (p : T → Bool) (xs : List T)
      → any p xs ≡ (elim (position p xs) [ none ↦ false | some i ↦ true ])
  unfolding any position
  any-eq-position p [] = refl
  any-eq-position p (x ∷ xs) = ground (arith, any-eq-position p xs)

module _ {T : Type 0} ⦃c : KeyComparable T⦄ where
  abbrev pub has : List T → c.Key → Bool
  has xs k = any (λ other. has_key other k) xs

  -- no two entries have equal keys
  abbrev pub Distinct : List T → Type 0
  Distinct [] = Unit
  Distinct (x ∷ xs) = (has xs (c.key x) ≡ false) × Distinct xs

  pub has_key-cong : (x : T) (a b : c.Key) → c.key_eq.eq a b ≡ true → has_key x a ≡ has_key x b
  has_key-cong x a b h =
      ground (
        arith,
        c.key_eq.eq_trans (c.key x) a b,
        c.key_eq.eq_trans (c.key x) b a,
        c.key_eq.eq_sym a b,
      )

  pub has-cong : (xs : List T) (a b : c.Key) → c.key_eq.eq a b ≡ true → has xs a ≡ has xs b
  unfolding any
  has-cong [] a b h = refl
  has-cong (x ∷ xs) a b h = ground (arith, has-cong xs a b h, has_key-cong x a b h)

  pub Distinct-snoc :
      (xs : List T) (x : T) → Distinct xs → has xs (c.key x) ≡ false → Distinct (xs ++ x ∷ [])
  unfolding any
  Distinct-snoc [] x d h = (refl, tt)
  Distinct-snoc (y ∷ ys) x d h = ground (
    arith,
    Distinct-snoc ys x d.1,
    any-append (λ other. has_key other (c.key y)) ys (x ∷ []),
    c.key_eq.eq_sym (c.key x) (c.key y),
  )

  pub has-reject :
      (p : c.Key → Bool) (xs : List T) (k : c.Key)
      → ByKey c.key_eq p
      → has (reject (λ x. p (c.key x)) xs) k ≡ (has xs k && not (p k))
  unfolding any reject
  has-reject p [] k h = refl
  has-reject p (x ∷ xs) k h = ground (arith, has-reject p xs k h, h (c.key x) k)

  pub Distinct-reject :
      (p : c.Key → Bool) (xs : List T)
      → ByKey c.key_eq p
      → Distinct xs
      → Distinct (reject (λ x. p (c.key x)) xs)
  unfolding reject
  Distinct-reject p [] h d = tt
  Distinct-reject p (x ∷ xs) h d =
      ground (arith, Distinct-reject p xs h d.1, has-reject p xs (c.key x) h)

  -- A splice drops the keys that `p` selects, and has the key of the new entry.
  pub has-splice :
      (p : c.Key → Bool) (d : T) (xs : List T) (k : c.Key)
      → ByKey c.key_eq p
      → any (λ x. p (c.key x)) xs ≡ true
      → has (splice (λ x. p (c.key x)) d xs) k ≡ (has_key d k || (has xs k && not (p k)))
  unfolding any splice
  has-splice p d [] k h m = cc
  has-splice p d (x ∷ xs) k h m =
      ground (arith, has-splice p d xs k h, has-reject p xs k h, h (c.key x) k)

  pub splice_no_match : (p : T → Bool) (d : T) (xs : List T) → any p xs ≡ false → splice p d xs ≡ xs
  unfolding any splice
  splice_no_match p d [] m = refl
  splice_no_match p d (x ∷ xs) m = ground (arith, splice_no_match p d xs)

  pub Distinct-splice :
      (p : c.Key → Bool) (d : T) (xs : List T)
      → ByKey c.key_eq p
      → p (c.key d) ≡ true
      → Distinct xs
      → Distinct (splice (λ x. p (c.key x)) d xs)
  unfolding any splice
  Distinct-splice p d [] h pd u = tt
  Distinct-splice p d (x ∷ xs) h pd u = ground (
    arith,
    Distinct-splice p d xs h pd u.1,
    Distinct-reject p xs h u.1,
    has-reject p xs (c.key d) h,
    has-splice p d xs (c.key x) h,
    splice_no_match (λ y. p (c.key y)) d xs,
    h (c.key d) (c.key x),
  )

  -- what removing the entry at the first position with the key `k` leaves
  pub without_first : List T → c.Key → List T
  without_first [] k = []
  without_first (x ∷ xs) k = if has_key x k then xs else x ∷ without_first xs k

  pub without_first_of_position :
      (xs : List T) (k : c.Key)
      → (elim (position (λ x. has_key x k) xs) [ none ↦ xs | some i ↦ remove_at i xs ])
        ≡ without_first xs k
  unfolding position without_first
  without_first_of_position [] k = refl
  without_first_of_position (x ∷ xs) k = ground (arith, without_first_of_position xs k)

  -- In a list of distinct keys the first entry with a key is the only one.
  pub has-without_first :
      (xs : List T) (k j : c.Key)
      → Distinct xs
      → has (without_first xs k) j ≡ (has xs j && not (c.key_eq.eq k j))
  unfolding any without_first
  has-without_first [] k j d = refl
  has-without_first (x ∷ xs) k j d = ground (
    arith,
    has-without_first xs k j d.1,
    has-cong xs (c.key x) k,
    has-cong xs k j,
    c.key_eq.eq_trans (c.key x) k j,
    c.key_eq.eq_trans k (c.key x) j,
    c.key_eq.eq_sym (c.key x) k,
    has_key-cong x k j,
  )

  pub Distinct-without_first :
      (xs : List T) (k : c.Key) → Distinct xs → Distinct (without_first xs k)
  unfolding without_first
  Distinct-without_first [] k d = tt
  Distinct-without_first (x ∷ xs) k d =
      ground (arith, Distinct-without_first xs k d.1, has-without_first xs k (c.key x) d.1)

  pub Sub-without_first : (xs : List T) (k : c.Key) → Sub (without_first xs k) xs
  unfolding without_first
  Sub-without_first [] k = nil
  Sub-without_first (x ∷ xs) k = elim (Bool-cases (has_key x k)) [
    | inl found ↦ rw found (skip x (Sub-refl xs))
    | inr other ↦ rw other (keep x (Sub-without_first xs k))
  ]
