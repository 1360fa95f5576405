-- ===== src/Document/CoreDocument/Constraints/Refs.antt =====
-- The constraints of `check_id_constraints` on a list of references, one put in or some taken out.
use zk_identity.Prelude.{
  ◌≡◌, false, List, [], ◌∷◌, ◌++◌, any, arith, any-insert, Sub, nil, keep, skip, any-Sub,
}
use zk_identity.Did.DidUrl.{url_eqb_sym}
use zk_identity.Document.Method.{MethodRef, ref_id}
use zk_identity.Document.CoreDocument.Constraints.{clash, NoClash}

module _ {X : Type 0} where
  clash_comm : (r s : MethodRef X) → clash r s ≡ clash s r
  clash_comm r s =
      ground (arith, url_eqb_sym (ref_id r) (ref_id s), url_eqb_sym (ref_id s) (ref_id r))

  pub NoClash-insert :
      (ps : List (MethodRef X)) (x : MethodRef X) (qs : List (MethodRef X))
      → any (clash x) (ps ++ qs) ≡ false
      → NoClash (ps ++ qs)
      → NoClash (ps ++ x ∷ qs)
  unfolding any
  NoClash-insert [] x qs h n = (h, n)
  NoClash-insert (p ∷ ps) x qs h n = (
    ground (arith, any-insert (clash p) ps x qs, clash_comm p x),
    NoClash-insert ps x qs (ground arith) n.1,
  )

  pub NoClash-Sub : {xs ys : List (MethodRef X)} → Sub xs ys → NoClash ys → NoClash xs
  NoClash-Sub nil n = n
  NoClash-Sub (keep x s) n = (any-Sub (clash x) s n.0, NoClash-Sub s n.1)
  NoClash-Sub (skip x s) n = NoClash-Sub s n.1

  -- Wherever an entry stands, it clashes with no other.
  pub NoClash-at :
      (ps : List (MethodRef X)) (x : MethodRef X) (qs : List (MethodRef X))
      → NoClash (ps ++ x ∷ qs)
      → any (clash x) (ps ++ qs) ≡ false
  unfolding any
  NoClash-at [] x qs n = n.0
  NoClash-at (p ∷ ps) x qs n =
      ground (arith, any-insert (clash p) ps x qs, clash_comm p x, NoClash-at ps x qs n.1)
