-- ===== src/Prelude/Outcome.antt =====
-- The result of a Rust function that returns a `Result` and may panic.
use mathlib.Core.Path.{◌≡◌, refl}
use mathlib.Core.Logic.{◌⊎◌, inl, inr}
use mathlib.Core.List.{List, [], ◌∷◌}

pub data Outcome (E A : Type 0) : Type 0 where
  ok : A → Outcome E A
  err : E → Outcome E A
  panic : Outcome E A

-- `?` in a chain: an error or a panic ends it.
infixl 5 ◌>>=◌ ◌>>◌
abbrev pub ◌>>=◌ : {E A B : Type 0} → Outcome E A → (A → Outcome E B) → Outcome E B
panic >>= rest = panic
err e >>= rest = err e
ok a >>= rest = rest a

-- `map_err`, and what `?` does where the error type has a `From`
abbrev pub map_err : {E F A : Type 0} → (E → F) → Outcome E A → Outcome F A
map_err f panic = panic
map_err f (err e) = err (f e)
map_err f (ok a) = ok a

abbrev pub ◌>>◌ : {E B : Type 0} → Outcome E (Unit {0}) → Outcome E B → Outcome E B
first >> second = first >>= λ done. second

pub ok-injective : {E A : Type 0} {a b : A} → ◌≡◌ {A = Outcome E A} (ok a) (ok b) → a ≡ b
ok-injective h = cc

-- a split that keeps the equation
pub data Cases {E A : Type 0} (o : Outcome E A) : Type 0 where
  ok_case : (a : A) → o ≡ ok a → Cases o
  err_case : (e : E) → o ≡ err e → Cases o
  panic_case : o ≡ panic → Cases o

pub Outcome-Cases : {E A : Type 0} (o : Outcome E A) → Cases o
Outcome-Cases (ok a) = ok_case a refl
Outcome-Cases (err e) = err_case e refl
Outcome-Cases panic = panic_case refl

module _ {E A B : Type 0} where
  -- A chain that succeeds has a first step that succeeds.
  pub >>=-eq-ok :
      (first : Outcome E A) (rest : A → Outcome E B) {result : B}
      → first >>= rest ≡ ok result
      → (a : A) × (first ≡ ok a) × (rest a ≡ ok result)
  >>=-eq-ok panic rest chain = absurd (cc chain)
  >>=-eq-ok (err e) rest chain = absurd (cc chain)
  >>=-eq-ok (ok a) rest chain = (a, refl, chain)

  -- A chain that panics has a step that panics.
  pub >>=-eq-panic :
      (first : Outcome E A) (rest : A → Outcome E B)
      → first >>= rest ≡ panic
      → (first ≡ panic) ⊎ ((a : A) × (first ≡ ok a) × (rest a ≡ panic))
  >>=-eq-panic panic rest chain = inl refl
  >>=-eq-panic (err e) rest chain = absurd (cc chain)
  >>=-eq-panic (ok a) rest chain = inr (a, refl, chain)

-- `map` with a fallible function, and `collect` into a `Result`: the first error ends it.
abbrev pub traverse : {E A B : Type 0} → (A → Outcome E B) → List A → Outcome E (List B)
traverse f [] = ok []
traverse f (a ∷ as') = f a >>= λ b. traverse f as' >>= λ bs. ok (b ∷ bs)
