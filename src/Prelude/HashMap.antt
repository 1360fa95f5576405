-- ===== src/Prelude/HashMap.antt =====
-- Rust's `HashMap`, as its methods show it: the order of its entries is never read.
use mathlib.Core.Path.{◌≡◌, refl}
use mathlib.Core.Bool.{Bool, true}
use mathlib.Core.Option.{Option, none, some}
use mathlib.Core.List.{List, [], ◌∷◌}
use native.Mathlib.Omega.{arith}
use zk_identity.Prelude.Tests.{if◌then◌else◌, is_some}
use zk_identity.Prelude.Compare.{PartialEq, ◌==◌, eq_comm, eq_cong}

pub record HashMap (K V : Type 0) : Type 0 where
  pub entries : List (K × V)

abbrev pub new : {K V : Type 0} → HashMap K V
new = record { entries = [] }

module _ {K V : Type 0} ⦃e : PartialEq K⦄ where
  lookup : List (K × V) → K → Option V
  lookup [] k = none
  lookup ((j, v) ∷ m) k = if j == k then some v else lookup m k

  erase : List (K × V) → K → List (K × V)
  erase [] k = []
  erase ((j, v) ∷ m) k = let rest = erase m k in if j == k then rest else (j, v) ∷ rest

  unfoldable pub get : HashMap K V → K → Option V
  unfolding lookup
  get m k = lookup m.entries k

  abbrev pub contains_key : HashMap K V → K → Bool
  contains_key m k = is_some (get m k)

  -- `insert`; the value that it replaces is not used by the program
  unfoldable pub insert : HashMap K V → K → V → HashMap K V
  unfolding erase
  insert m k v = record { entries = (k, v) ∷ erase m.entries k }

  unfoldable pub remove : HashMap K V → K → HashMap K V × Option V
  unfolding erase
  remove m k = (record { entries = erase m.entries k }, get m k)

  lookup-erase :
      (m : List (K × V)) (k j : K) → lookup (erase m k) j ≡ (if k == j then none else lookup m j)
  unfolding lookup erase
  lookup-erase [] k j = ground arith
  lookup-erase ((i, v) ∷ m) k j = ground (
    arith,
    lookup-erase m k j,
    eq_cong i k j,
    eq_comm k j,
    eq_cong k j i,
    eq_comm i k,
    eq_comm i j,
  )

  pub get-insert :
      (m : HashMap K V) (k : K) (v : V) (j : K)
      → get (insert m k v) j ≡ (if k == j then some v else get m j)
  unfolding get insert lookup
  get-insert m k v j = ground (arith, lookup-erase m.entries k j)

  pub get-remove :
      (m : HashMap K V) (k j : K) → get (remove m k).0 j ≡ (if k == j then none else get m j)
  unfolding get remove
  get-remove m k j = lookup-erase m.entries k j

  pub removed-eq-get : (m : HashMap K V) (k : K) → (remove m k).1 ≡ get m k
  unfolding remove
  removed-eq-get m k = refl

  lookup-cong : (m : List (K × V)) (k j : K) → (k == j) ≡ true → lookup m k ≡ lookup m j
  unfolding lookup
  lookup-cong [] k j h = refl
  lookup-cong ((i, v) ∷ m) k j h =
      ground (arith, lookup-cong m k j h, eq_cong i k j, eq_cong i j k, eq_comm k j)

  -- the value under a key depends on the key's equality alone
  pub get-cong : (m : HashMap K V) (k j : K) → (k == j) ≡ true → get m k ≡ get m j
  unfolding get
  get-cong m k j h = lookup-cong m.entries k j h

  pub get-new : (k : K) → get new k ≡ none
  unfolding get lookup
  get-new k = refl
