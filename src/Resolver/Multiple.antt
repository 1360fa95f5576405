-- ===== src/Resolver/Multiple.antt =====
-- `resolve_multiple` of identity_resolver/src/resolution/resolver.rs, whatever the order in which its
-- futures complete.
use zk_identity.Prelude.{
  ◌≡◌, refl, sym, ap, ◌∙◌, subst, true, Option, none, some, List, [], ◌∷◌, Text, any, arith,
  if◌then◌else◌, Bool-cases, inl, inr,
}
use zk_identity.Prelude.HashMap
use zk_identity.Prelude.HashMap.{HashMap, get-insert, get-new}
use zk_identity.Prelude.Outcome.{Outcome, ok, err, panic}
use zk_identity.Core.OrderedSet
use zk_identity.Core.OrderedSet.{contains}
use zk_identity.Core.OrderedSet.Keys.{has}
use zk_identity.Core.OrderedSet.Contains.{contains-from_iter}
use zk_identity.Did.DidUrl.{CoreDid, did_eqb, did_eq, did_key, did_eqb_refl, did_eqb_sound}
use zk_identity.Resolver.{Resolver, ErrorCause, resolve, try_collect, resolve_multiple}

-- the document, if there is one
abbrev pub found : {D : Type 0} → Outcome ErrorCause D → Option D
found (ok d) = some d
found (err e) = none
found panic = none

-- The futures that complete are those that were started, in any order.
abbrev pub IsCompletion : (List CoreDid → List CoreDid) → Type 0
IsCompletion completions =
    (dids : List CoreDid) (did : CoreDid) → has (completions dids) did ≡ has dids did

module _ {D : Type 0} (r : Resolver D) (method : CoreDid → Text) where
  -- every DID of a list is resolved
  abbrev pub AreResolved : List CoreDid → Type 0
  AreResolved dids = (did : CoreDid) → has dids did ≡ true → (d : D) × (resolve r method did ≡ ok d)

  -- what a map has under a DID after the documents were collected
  abbrev pub collected : List CoreDid → HashMap CoreDid D → CoreDid → Option D
  collected dids m did = if has dids did then found (resolve r method did) else HashMap.get m did

  inserted :
      (did : CoreDid) (rest : List CoreDid) (m : HashMap CoreDid D) (doc : D) (k : CoreDid)
      → resolve r method did ≡ ok doc
      → collected rest (HashMap.insert m did doc) k ≡ collected (did ∷ rest) m k
  unfolding any
  inserted did rest m doc k h = elim (Bool-cases (has rest k)) [
    | inl later ↦ rw later (ground arith)
    | inr absent ↦ elim (Bool-cases (did_eqb did k)) [
      | inl same ↦
          let e : did ≡ k = did_eqb_sound did k same in
          let there : found (resolve r method k) ≡ some doc =
            subst (λ k. found (resolve r method k) ≡ some doc) e (ap found h) in
          rw (absent, same) (get-insert m did doc k ∙ rw (same, there) refl)
      | inr other ↦ rw (absent, other) (get-insert m did doc k ∙ rw other refl)
    ]
  ]

  try_collect-resolved :
      (dids : List CoreDid) (m : HashMap CoreDid D)
      → AreResolved dids
      → (n : HashMap CoreDid D) × (try_collect r method dids m ≡ ok n)
        × ((did : CoreDid) → HashMap.get n did ≡ collected dids m did)
  unfolding try_collect any
  try_collect-resolved [] m h = (m, refl, λ did. refl)
  try_collect-resolved (did ∷ rest) m h =
      let (doc, e) = h did (ground (arith, did_eqb_refl did)) in
      let (n, e', all) =
        try_collect-resolved rest (HashMap.insert m did doc) (λ k there. h k (ground arith)) in
      (n, rw e e', λ k. all k ∙ inserted did rest m doc k e)

  completed :
      (completions : List CoreDid → List CoreDid) (dids : List CoreDid) (did : CoreDid)
      → IsCompletion completions
      → has (completions (OrderedSet.from_iter dids).items) did ≡ has dids did
  unfolding contains
  completed completions dids did c =
      c (OrderedSet.from_iter dids).items did ∙ contains-from_iter dids did

  -- When each of some DIDs is resolved on its own, `resolve_multiple` answers a map, whatever the
  -- order in which the futures complete: under each of these DIDs it has the document that `resolve`
  -- answers, and under any other DID nothing.
  pub resolve_multiple-resolve :
      (completions : List CoreDid → List CoreDid) (dids : List CoreDid)
      → IsCompletion completions
      → AreResolved dids
      → (n : HashMap CoreDid D) × (resolve_multiple r method completions dids ≡ ok n)
        × ((did : CoreDid)
            → HashMap.get n did ≡ (if has dids did then found (resolve r method did) else none))
  unfolding resolve_multiple
  resolve_multiple-resolve completions dids c h =
      let order = completions (OrderedSet.from_iter dids).items in
      let (n, e, all) =
        try_collect-resolved order HashMap.new
          (λ did there. h did (sym (completed completions dids did c) ∙ there)) in
      (n, e, λ did. all did ∙ rw (completed completions dids did c, get-new did) refl)
