-- ===== src/Tests/Resolvers.antt =====
-- The resolver at concrete inputs.
use zk_identity.Prelude.{
  ◌≡◌, refl, none, List, [], ◌∷◌, codes, Text, text_eq, text_eqb, if◌then◌else◌,
}
use zk_identity.Prelude.HashMap
use zk_identity.Prelude.HashMap.{HashMap}
use zk_identity.Prelude.Outcome.{ok}
use zk_identity.Core.OrderedSet.Keys.{has}
use zk_identity.Did.DidUrl.{CoreDid, did_eq, did_key}
use zk_identity.Resolver.{Resolver, resolve, resolve_multiple}
use zk_identity.Resolver.Multiple.{AreResolved, found, resolve_multiple-resolve}
use zk_identity.Tests.Data.{sample_did}

-- one handler, for the method of the sample; a document is the text of its DID
abbrev resolver : Resolver Text
resolver = record { command_map = record { entries = (codes "a", λ t. ok t) ∷ [] } }

-- the same DID twice
abbrev twice : List CoreDid
twice = sample_did ∷ sample_did ∷ []

abbrev method : CoreDid → Text
method did = codes "a"

handled : (did : CoreDid) → resolve resolver method did ≡ ok did.as_str
unfolding resolve HashMap.get text_eqb
handled did = refl

twice-AreResolved : AreResolved resolver method twice
twice-AreResolved did there = (did.as_str, handled did)

resolve_multiple-resolve_example :
    (n : HashMap CoreDid Text) × (resolve_multiple resolver method (λ dids. dids) twice ≡ ok n)
    × ((did : CoreDid)
        → HashMap.get n did ≡ (if has twice did then found (resolve resolver method did) else none))
resolve_multiple-resolve_example =
    resolve_multiple-resolve resolver method (λ dids. dids) twice (λ dids did. refl)
      twice-AreResolved
