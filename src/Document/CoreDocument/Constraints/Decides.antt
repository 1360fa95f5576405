-- ===== src/Document/CoreDocument/Constraints/Decides.antt =====
-- `check_id_constraints` of core_document.rs against the constraints on identifiers.
use zk_identity.Prelude.{
  ◌≡◌, refl, sym, ◌∙◌, ◌↔◌, Bool, true, false, none, some, List, [], ◌∷◌, ◌||◌, any, All, arith,
  is_some, All-imp,
}
use zk_identity.Prelude.Outcome.{ok, ◌>>=◌, >>=-eq-ok}
use zk_identity.Did.DidUrl.{DidUrl, url_eqb, url_eqb_sym, url_eqb_trans}
use zk_identity.Document.Method.{VerificationMethod, MethodRef, Service, ref_id, is_embedded}
use zk_identity.Document.CoreDocument.{CoreDocument, verification_relationships}
use zk_identity.Document.CoreDocument.Constraints.{
  Identifiers, lookup, was_embedded, check_refs, check_methods, check_services,
  check_id_constraints, clash, NoClash, ref_with, embedded_with, method_with, IsConstrained,
}

url_eqb-cong_left : (a b c : DidUrl) → url_eqb a b ≡ true → url_eqb c a ≡ url_eqb c b
url_eqb-cong_left a b c h =
    ground (arith, url_eqb_trans c a b, url_eqb_trans c b a, url_eqb_sym a b)

lookup-cong : (a b : DidUrl) (ids : Identifiers) → url_eqb a b ≡ true → lookup a ids ≡ lookup b ids
unfolding lookup
lookup-cong a b [] h = refl
lookup-cong a b ((j, v) ∷ ids) h = ground (arith, lookup-cong a b ids h, url_eqb-cong_left a b j h)

module _ {X : Type 0} where
  -- the loop stops at `r`
  abbrev bad : Identifiers → MethodRef X → Bool
  bad ids r = elim (lookup (ref_id r) ids) [ none ↦ false | some b ↦ b || is_embedded r ]

  bad-insert :
      (ids : Identifiers) (r s : MethodRef X)
      → bad ids r ≡ false
      → bad ((ref_id r, is_embedded r) ∷ ids) s ≡ (clash r s || bad ids s)
  unfolding lookup
  bad-insert ids r s h = ground (arith, lookup-cong (ref_id r) (ref_id s) ids)

  any-bad-insert :
      (ids : Identifiers) (r : MethodRef X) (rs : List (MethodRef X))
      → bad ids r ≡ false
      → any (bad ((ref_id r, is_embedded r) ∷ ids)) rs ≡ (any (clash r) rs || any (bad ids) rs)
  unfolding any
  any-bad-insert ids r [] h = refl
  any-bad-insert ids r (s ∷ ss) h = ground (arith, any-bad-insert ids r ss h, bad-insert ids r s h)

  -- what the loop leaves in the map
  abbrev Recorded : Identifiers → List (MethodRef X) → Identifiers → Type 0
  Recorded ids rs out =
      (k : DidUrl)
      → (is_some (lookup k out) ≡ (ref_with k rs || is_some (lookup k ids)))
        × (was_embedded (lookup k out) ≡ (embedded_with k rs || was_embedded (lookup k ids)))

  recorded_step :
      (ids : Identifiers) (r : MethodRef X) (rs : List (MethodRef X)) (out : Identifiers)
      (k : DidUrl)
      → bad ids r ≡ false
      → (is_some (lookup k out)
          ≡ (ref_with k rs || is_some (lookup k ((ref_id r, is_embedded r) ∷ ids))))
        × (was_embedded (lookup k out)
            ≡ (embedded_with k rs || was_embedded (lookup k ((ref_id r, is_embedded r) ∷ ids))))
      → (is_some (lookup k out) ≡ (ref_with k (r ∷ rs) || is_some (lookup k ids)))
        × (was_embedded (lookup k out) ≡ (embedded_with k (r ∷ rs) || was_embedded (lookup k ids)))
  unfolding any lookup
  recorded_step ids r rs out k good h = ground (arith, lookup-cong (ref_id r) k ids)

  refs_complete :
      (ids : Identifiers) (rs : List (MethodRef X))
      → NoClash rs
      → any (bad ids) rs ≡ false
      → (out : Identifiers) × (check_refs ids rs ≡ ok out)
  unfolding check_refs any
  refs_complete ids [] n b = (ids, refl)
  refs_complete ids (r ∷ rs) n b =
      let (out, e) =
        refs_complete ((ref_id r, is_embedded r) ∷ ids) rs n.1
          (ground (arith, any-bad-insert ids r rs)) in
      (out, ground arith)

  refs_sound :
      (ids : Identifiers) (rs : List (MethodRef X)) {out : Identifiers}
      → check_refs ids rs ≡ ok out
      → NoClash rs × (any (bad ids) rs ≡ false) × Recorded ids rs out
  unfolding check_refs any
  refs_sound ids [] h = (tt, refl, λ k. ground arith)
  refs_sound ids (r ∷ rs) {out} h =
      let good : bad ids r ≡ false = ground arith in
      let rest : check_refs ((ref_id r, is_embedded r) ∷ ids) rs ≡ ok out = ground arith in
      let (n, b, rec) = refs_sound ((ref_id r, is_embedded r) ∷ ids) rs rest in
      let eqn = any-bad-insert ids r rs good in
      ((ground arith, n), ground arith, λ k. recorded_step ids r rs out k good (rec k))

  -- a general purpose method in the map hides no embedded one
  shadow :
      (ids : Identifiers) (m n : VerificationMethod X)
      → was_embedded (lookup m.id ids) ≡ false
      → was_embedded (lookup n.id ((m.id, false) ∷ ids)) ≡ was_embedded (lookup n.id ids)
  unfolding lookup
  shadow ids m n h = ground (arith, lookup-cong m.id n.id ids)

  methods_complete :
      (ids : Identifiers) (ms : List (VerificationMethod X))
      → All (λ m. was_embedded (lookup m.id ids) ≡ false) ms
      → (out : Identifiers) × (check_methods ids ms ≡ ok out)
  unfolding check_methods
  methods_complete ids [] h = (ids, refl)
  methods_complete ids (m ∷ ms) h =
      let (out, e) = methods_complete ((m.id, false) ∷ ids) ms (
        All-imp
          {Q = λ (n : VerificationMethod X).
            was_embedded (lookup n.id ((m.id, false) ∷ ids)) ≡ false}
          (λ n g. shadow ids m n h.0 ∙ g) ms h.1) in
      (out, rw h.0 e)

  recorded_method :
      (ids : Identifiers) (m : VerificationMethod X) (ms : List (VerificationMethod X))
      (out : Identifiers) (k : DidUrl)
      → is_some (lookup k out) ≡ (method_with k ms || is_some (lookup k ((m.id, false) ∷ ids)))
      → is_some (lookup k out) ≡ (method_with k (m ∷ ms) || is_some (lookup k ids))
  unfolding any lookup
  recorded_method ids m ms out k h = ground arith

  methods_sound :
      (ids : Identifiers) (ms : List (VerificationMethod X)) {out : Identifiers}
      → check_methods ids ms ≡ ok out
      → All (λ m. was_embedded (lookup m.id ids) ≡ false) ms
        × ((k : DidUrl) → is_some (lookup k out) ≡ (method_with k ms || is_some (lookup k ids)))
  unfolding check_methods any
  methods_sound ids [] h = (tt, λ k. ground arith)
  methods_sound ids (m ∷ ms) {out} h =
      let good : was_embedded (lookup m.id ids) ≡ false = ground arith in
      let rest : check_methods ((m.id, false) ∷ ids) ms ≡ ok out = ground arith in
      let (all, rec) = methods_sound ((m.id, false) ∷ ids) ms rest in
      (
        (
          good,
          All-imp {Q = λ (n : VerificationMethod X). was_embedded (lookup n.id ids) ≡ false}
              (λ n g. sym (shadow ids m n good) ∙ g) ms all,
        ),
        λ k. recorded_method ids m ms out k (rec k),
      )

  services_iff :
      (ids : Identifiers) (ss : List (Service X))
      → (check_services ids ss ≡ ok tt) ↔ All (λ s. is_some (lookup s.id ids) ≡ false) ss
  unfolding check_services
  services_iff ids [] = (λ h. tt, λ h. refl)
  services_iff ids (s ∷ ss) = (
    (λ h. (ground arith, (services_iff ids ss).0 (ground arith))),
    (λ h. rw h.0 ((services_iff ids ss).1 h.1)),
  )

  any-bad-empty : (rs : List (MethodRef X)) → any (bad []) rs ≡ false
  unfolding any lookup
  any-bad-empty [] = refl
  any-bad-empty (r ∷ rs) = any-bad-empty rs

  check_sound : (d : CoreDocument X) → check_id_constraints d ≡ ok tt → IsConstrained d
  unfolding check_id_constraints
  check_sound d h =
      let refs = verification_relationships d in
      let (ids, e, k) =
        >>=-eq-ok (check_refs [] refs)
          (λ ids. check_methods ids d.verification_method.items >>= λ all.
            check_services all d.service.items)
          h in
      let (all, e', k') =
        >>=-eq-ok (check_methods ids d.verification_method.items)
          (λ all. check_services all d.service.items) k in
      let (clash, b, seen) = refs_sound [] refs e in
      let (methods, seen') = methods_sound ids d.verification_method.items e' in
      record {
        no_clash = clash;
        embedded_apart =
            All-imp {P = λ (m : VerificationMethod X). was_embedded (lookup m.id ids) ≡ false}
              {Q = λ (m : VerificationMethod X). embedded_with m.id refs ≡ false}
              (λ (m : VerificationMethod X). unfold lookup in ground (arith, seen m.id))
              d.verification_method.items methods;
        services_apart =
            All-imp {P = λ (s : Service X). is_some (lookup s.id all) ≡ false}
              {Q = λ (s : Service X).
                (ref_with s.id refs ≡ false)
                × (method_with s.id d.verification_method.items ≡ false)}
              (λ (s : Service X). unfold lookup in ground (arith, seen s.id, seen' s.id))
              d.service.items ((services_iff all d.service.items).0 k');
      }

  check_complete : (d : CoreDocument X) → IsConstrained d → check_id_constraints d ≡ ok tt
  unfolding check_id_constraints
  check_complete d c =
      let refs = verification_relationships d in
      let (ids, e) = refs_complete [] refs c.no_clash (any-bad-empty refs) in
      let (clash, b, seen) = refs_sound [] refs e in
      let (all, e') = methods_complete ids d.verification_method.items (
        All-imp {P = λ (m : VerificationMethod X). embedded_with m.id refs ≡ false}
          {Q = λ (m : VerificationMethod X). was_embedded (lookup m.id ids) ≡ false}
          (λ (m : VerificationMethod X). unfold lookup in ground (arith, seen m.id))
          d.verification_method.items c.embedded_apart) in
      let (methods, seen') = methods_sound ids d.verification_method.items e' in
      rw e (
        rw e' (
          (services_iff all d.service.items).1 (
            All-imp
              {P = λ (s : Service X).
                (ref_with s.id refs ≡ false)
                × (method_with s.id d.verification_method.items ≡ false)}
              {Q = λ (s : Service X). is_some (lookup s.id all) ≡ false}
              (λ (s : Service X). unfold lookup in ground (arith, seen s.id, seen' s.id))
              d.service.items c.services_apart)))

  -- `check_id_constraints` succeeds exactly on the documents that meet the constraints.
  pub check_id_constraints_iff :
      (d : CoreDocument X) → (check_id_constraints d ≡ ok tt) ↔ IsConstrained d
  check_id_constraints_iff d = (check_sound d, check_complete d)
