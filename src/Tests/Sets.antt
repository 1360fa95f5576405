-- ===== src/Tests/Sets.antt =====
-- `OrderedSet` and `OneOrSet` at concrete inputs.
use zk_identity.Prelude.{◌≡◌, refl, true, false, some, List, [], ◌∷◌, any, arith, text_eqb}
use zk_identity.Prelude.Outcome.{Outcome, ok}
use zk_identity.Core.OrderedSet.{OrderedSet, new, contains, append, append_all, from_iter}
use zk_identity.Core.OrderedSet.Unique.{IsUnique}
use zk_identity.Core.OrderedSet.Client.{Op, run, replay, view, run-new_refines}
use zk_identity.Core.OneOrSet
use zk_identity.Core.OneOrSet.{
  OneOrSet, one, set, contains_item, IsCanonical, append-IsCanonical, contains_item-append,
  new_set-IsCanonical, try_map_items-IsCanonical,
}
use zk_identity.Core.OneOrMany
use zk_identity.Core.OneOrMany.{SizeHint, from_iter-from_vec}
use zk_identity.Did.RelativeUrl.{relative_eqb}
use zk_identity.Did.DidUrl.{DidUrl, did_eqb, url_eq, url_key, url_eqb}
use zk_identity.Tests.Data.{url_at}

abbrev some_calls : List (Op DidUrl DidUrl)
some_calls =
    Op.append (url_at b'm')
    ∷ Op.prepend (url_at b'n')
    ∷ Op.replace (url_at b'm') (url_at b'k')
    ∷ Op.append (url_at b'n')
    ∷ Op.remove (url_at b'n')
    ∷ []

run-new_refines_example :
    IsUnique (run new some_calls) × (view (run new some_calls) ≡ replay (λ _. false) some_calls)
run-new_refines_example = run-new_refines some_calls

abbrev two_urls : List DidUrl
two_urls = url_at b'm' ∷ url_at b'n' ∷ []

abbrev url_set : OrderedSet DidUrl
url_set = record { items = two_urls }

-- Two items, of which a third is appended.
abbrev pair : OneOrSet DidUrl
pair = set url_set

pair-IsCanonical : IsCanonical pair
unfolding any url_eqb text_eqb relative_eqb
pair-IsCanonical = (omega arith, (refl, (refl, tt)))

new_pair : OneOrSet.new_set url_set ≡ some pair
unfolding OneOrSet.new_set
new_pair = refl

-- a function that makes the two keys equal
abbrev to_k : DidUrl → Outcome (Unit {0}) DidUrl
to_k u = ok (url_at b'k')

mapped_pair : OneOrSet.try_map_items to_k pair ≡ ok (one (url_at b'k'))
unfolding OneOrSet.try_map_items from_iter append_all append contains any url_eqb did_eqb
    relative_eqb text_eqb
mapped_pair = refl

-- a hint that promises at most one item, for an iterator that yields two
abbrev wrong_hint : SizeHint
wrong_hint = record { lower = 1; upper = some 1 }

wrong_hint-at_most_one : OneOrMany.at_most_one wrong_hint ≡ true
unfolding OneOrMany.at_most_one
wrong_hint-at_most_one = refl
