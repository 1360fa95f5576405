-- ===== src/Core/OrderedSet/Client.antt =====
-- `OrderedSet` of ordered_set.rs as its clients use it: sequences of calls, and a set of keys.
use zk_identity.Prelude.{
  ◌≡◌, refl, Bool, false, List, [], ◌∷◌, not, ◌&&◌, ◌||◌, if◌then◌else◌, any, fun_ext,
}
use zk_identity.Core.OrderedSet
use zk_identity.Core.OrderedSet.{KeyComparable, OrderedSet, new, has_key, contains}
use zk_identity.Core.OrderedSet.Keys.{is_either}
use zk_identity.Core.OrderedSet.Unique.{
  IsUnique, append-IsUnique, prepend-IsUnique, replace-IsUnique, update-IsUnique, remove-IsUnique,
}
use zk_identity.Core.OrderedSet.Contains.{
  contains-append, contains-prepend, contains-replace, contains-update, contains-remove,
}

-- The calls that change a set; `T` is its entries, `K` their keys.
pub data Op (T K : Type 0) : Type 0 where
  append prepend update : T → Op T K
  replace : K → T → Op T K
  remove : K → Op T K

-- The abstract view: the keys that are there.
abbrev pub KeySet : Type 0 → Type 0
KeySet K = K → Bool

module _ {T : Type 0} ⦃c : KeyComparable T⦄ where
  unfoldable pub step : OrderedSet T → Op T c.Key → OrderedSet T
  step s (Op.append x) = (OrderedSet.append s x).0
  step s (Op.prepend x) = (OrderedSet.prepend s x).0
  step s (Op.update x) = (OrderedSet.update s x).0
  step s (Op.replace k x) = (OrderedSet.replace s k x).0
  step s (Op.remove k) = (OrderedSet.remove s k).0

  unfoldable pub run : OrderedSet T → List (Op T c.Key) → OrderedSet T
  unfolding step
  run s [] = s
  run s (op ∷ ops) = run (step s op) ops

  abbrev pub view : OrderedSet T → KeySet c.Key
  view s = λ k. contains s k

  unfoldable pub abstract_step : KeySet c.Key → Op T c.Key → KeySet c.Key
  abstract_step f (Op.append x) k = f k || has_key x k
  abstract_step f (Op.prepend x) k = f k || has_key x k
  abstract_step f (Op.update x) k = f k
  abstract_step f (Op.replace j x) k =
      if f j || f (c.key x)
      then has_key x k || (f k && not (is_either c.key_eq j (c.key x) k))
      else f k
  abstract_step f (Op.remove j) k = f k && not (c.key_eq.eq j k)

  unfoldable pub replay : KeySet c.Key → List (Op T c.Key) → KeySet c.Key
  unfolding abstract_step
  replay f [] = f
  replay f (op ∷ ops) = replay (abstract_step f op) ops

  step-IsUnique : (s : OrderedSet T) (op : Op T c.Key) → IsUnique s → IsUnique (step s op)
  unfolding step
  step-IsUnique s (Op.append x) = append-IsUnique s x
  step-IsUnique s (Op.prepend x) = prepend-IsUnique s x
  step-IsUnique s (Op.update x) = update-IsUnique s x
  step-IsUnique s (Op.replace k x) = replace-IsUnique s k x
  step-IsUnique s (Op.remove k) = remove-IsUnique s k

  view-step :
      (s : OrderedSet T) (op : Op T c.Key)
      → IsUnique s
      → view (step s op) ≡ abstract_step (view s) op
  unfolding step abstract_step
  view-step s (Op.append x) d = fun_ext λ k. contains-append s x k
  view-step s (Op.prepend x) d = fun_ext λ k. contains-prepend s x k
  view-step s (Op.update x) d = fun_ext λ k. contains-update s x k
  view-step s (Op.replace j x) d = fun_ext λ k. contains-replace s j x k
  view-step s (Op.remove j) d = fun_ext λ k. contains-remove s j k d

  pub run_refines :
      (s : OrderedSet T) (ops : List (Op T c.Key))
      → IsUnique s
      → IsUnique (run s ops) × (view (run s ops) ≡ replay (view s) ops)
  unfolding run replay
  run_refines s [] d = (d, refl)
  run_refines s (op ∷ ops) d =
      rw (view-step s op d) at (run_refines (step s op) ops (step-IsUnique s op d))

  -- From the empty set, any sequence of `append`, `prepend`, `update`, `replace` and `remove` ends in
  -- a set whose keys are distinct, and `contains` answers as the same calls do on a set of keys.
  pub run-new_refines :
      (ops : List (Op T c.Key))
      → IsUnique (run new ops) × (view (run new ops) ≡ replay (λ _. false) ops)
  run-new_refines ops = rw view-new at (run_refines new ops tt)
    where
      view-new : view (new {T = T}) ≡ (λ _. false)
      view-new = unfold contains any in refl
