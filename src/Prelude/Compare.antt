-- ===== src/Prelude/Compare.antt =====
-- Rust's `PartialEq` with the laws of `Eq`: an equivalence, which need not be structural equality
-- (a DID Url with no path equals one with an empty path).
use Prim.Native.Nat.{ℕ}
use mathlib.Core.Path.{◌≡◌, refl}
use mathlib.Core.Logic.{◌↔◌}
use mathlib.Core.Bool.{Bool, true, false, ◌&&◌}
use mathlib.Core.List.{List, [], ◌∷◌}
use native.Mathlib.Omega.{arith}
use zk_identity.Prelude.Tests.{eqb}

pub record PartialEq {ℓ} (A : Type ℓ) : Type ℓ where
  pub eq : A → A → Bool
  pub eq_refl : (a : A) → eq a a ≡ true
  pub eq_sym : (a b : A) → eq a b ≡ true → eq b a ≡ true
  pub eq_trans : (a b c : A) → eq a b ≡ true → eq b c ≡ true → eq a c ≡ true

infix 50 ◌==◌
abbrev pub ◌==◌ {ℓ} : {A : Type ℓ} ⦃e : PartialEq A⦄ → A → A → Bool
◌==◌ ⦃e⦄ = e.eq

module _ {ℓ} {A : Type ℓ} ⦃e : PartialEq A⦄ where
  pub eq_comm : (a b : A) → (a == b) ≡ (b == a)
  eq_comm a b = ground (arith, e.eq_sym a b, e.eq_sym b a)

  -- equal values compare alike with any third
  pub eq_cong : (a b c : A) → (a == b) ≡ true → (a == c) ≡ (b == c)
  eq_cong a b c h = ground (arith, e.eq_trans b a c, e.eq_trans a b c, e.eq_sym a b)

-- A text is the list of its code points.
abbrev pub Text : Type 0
Text = List ℕ

unfoldable pub text_eqb : Text → Text → Bool
text_eqb [] [] = true
text_eqb (a ∷ s) (b ∷ t) = eqb a b && text_eqb s t
text_eqb _ _ = false

pub text_eqb_sound : (s t : Text) → text_eqb s t ≡ true → s ≡ t
unfolding text_eqb
text_eqb_sound [] [] h = refl
text_eqb_sound (a ∷ s) (b ∷ t) h = ground (arith, text_eqb_sound s t)
text_eqb_sound [] (b ∷ t) h = cc
text_eqb_sound (a ∷ s) [] h = cc

pub text_eqb_refl : (s : Text) → text_eqb s s ≡ true
unfolding text_eqb
text_eqb_refl [] = refl
text_eqb_refl (a ∷ s) = ground (arith, text_eqb_refl s)

pub text_eqb_sym : (s t : Text) → text_eqb s t ≡ true → text_eqb t s ≡ true
text_eqb_sym s t h = rw (text_eqb_sound s t h) (text_eqb_refl t)

pub text_eqb_trans :
    (s t u : Text) → text_eqb s t ≡ true → text_eqb t u ≡ true → text_eqb s u ≡ true
text_eqb_trans s t u h k = rw (text_eqb_sound s t h) k

pub text_eqb_iff : (s t : Text) → (text_eqb s t ≡ true) ↔ (s ≡ t)
text_eqb_iff s t = (text_eqb_sound s t, λ h. rw h (text_eqb_refl t))

instance abbrev pub text_eq : PartialEq Text
text_eq = record {
  eq = text_eqb;
  eq_refl = text_eqb_refl;
  eq_sym = text_eqb_sym;
  eq_trans = text_eqb_trans;
}
