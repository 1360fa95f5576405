-- ===== src/Tests/Documents.antt =====
-- Documents at concrete inputs.
use zk_identity.Prelude.{
  ◌≡◌, ◌≢◌, refl, ◌↔◌, true, false, none, some, [], Text, ◌∷◌, ◌||◌, any, find, position, text_eqb,
  is_some,
}
use zk_identity.Prelude.Outcome.{ok}
use zk_identity.Core.OrderedSet
use zk_identity.Core.OrderedSet.{append_all, from_iter, OrderedSet, append, contains}
use zk_identity.Core.OrderedSet.Unique.{IsUnique}
use zk_identity.Did.Chars.{starts_with, rfind_char, strip_prefix}
use zk_identity.Did.RelativeUrl
use zk_identity.Did.RelativeUrl.{relative_eqb, fragment_of}
use zk_identity.Did.DidUrl
use zk_identity.Did.DidUrl.{CoreDid, DidUrl, url_eqb, url_eqb_refl, did_eqb}
use zk_identity.Document.Query.{matches, did_str, fragment, same_fragment, non_empty}
use zk_identity.Document.Method.{
  try_map_method, MethodRelationship, assertion_method, key_agreement, verification_relationship,
  embed, refer, ref_key, method_key, service_key,
}
use zk_identity.Document.CoreDocument.{
  CoreDocument, DocumentError, query, query_methods, query_services, first_ref, resolve_method,
  resolve_method_ref, store_method, insert_method, verification_relationships, related,
}
use zk_identity.Document.CoreDocument.Builder.{
  DocumentBuilder, from_builder, IsBuilt, from_builder-IsWellFormed,
}
use zk_identity.Document.CoreDocument.Mapping.{DidMap, try_map, try_map-IsWellFormed}
use zk_identity.Document.CoreDocument.Edit.{
  attach_method_relationship, detach_method_relationship, insert_service, remove_method_and_scope,
}
use zk_identity.Document.CoreDocument.Constraints.{
  check_id_constraints, check_refs, check_methods, check_services, lookup, IsConstrained, ref_with,
  embedded_with, method_with,
}
use zk_identity.Document.CoreDocument.Constraints.Decides.{check_id_constraints_iff}
use zk_identity.Document.CoreDocument.Invariant.{IsWellFormed, HasUniqueKeys}
use zk_identity.Document.CoreDocument.Removal.{remove_method_and_scope-IsWellFormed}
use zk_identity.Document.CoreDocument.Removal.Complete.{remove_method_and_scope_complete}
use zk_identity.Document.CoreDocument.Insertion.{IsClosed}
use zk_identity.Document.CoreDocument.Insertion.Preserves.{insert_method-IsWellFormed}
use zk_identity.Document.CoreDocument.Insertion.Resolve.{
  insert_method-resolve, insert_method-IsClosed,
}
use zk_identity.Document.CoreDocument.Insertion.Dangling.{insert_method-dangling}
use zk_identity.Tests.Data.{
  sample_did, url_at, sample_method, sample_service, document, url_m-IsIdentifier,
}

-- a general method k, which key agreement refers to; a method n embedded in authentication; a service
abbrev pub sample : CoreDocument (Unit {0})
sample =
    document (sample_method b'k' ∷ []) (embed (sample_method b'n') ∷ []) (refer (url_at b'k') ∷ [])
      (sample_service b's' ∷ [])

sample_checked : check_id_constraints sample ≡ ok tt
unfolding check_id_constraints check_refs check_methods check_services lookup url_eqb did_eqb
    relative_eqb text_eqb
sample_checked = refl

check_id_constraints_iff_example : (check_id_constraints sample ≡ ok tt) ↔ IsConstrained sample
check_id_constraints_iff_example = check_id_constraints_iff sample

sample_relations : (r : MethodRelationship) → IsUnique (related sample r)
unfolding any
sample_relations MethodRelationship.authentication = (refl, tt)
sample_relations MethodRelationship.assertion_method = tt
sample_relations MethodRelationship.key_agreement = (refl, tt)
sample_relations MethodRelationship.capability_delegation = tt
sample_relations MethodRelationship.capability_invocation = tt

sample_keys : HasUniqueKeys sample
unfolding any
sample_keys = record { methods = (refl, tt); relations = sample_relations; services = (refl, tt) }

pub sample-IsWellFormed : IsWellFormed sample
sample-IsWellFormed = record {
  keys = sample_keys;
  constrained = (check_id_constraints_iff sample).0 sample_checked;
}

sample-IsClosed : IsClosed sample
unfolding resolve_method_ref query find DidUrl.to_string RelativeUrl.to_string matches did_str
    fragment same_fragment non_empty starts_with rfind_char fragment_of strip_prefix text_eqb
    position
sample-IsClosed = (refl, (refl, tt))

abbrev query_k : Text
query_k = b'k' ∷ []

-- k becomes an assertion method too
abbrev attached : CoreDocument (Unit {0})
attached = record sample { assertion_method = record { items = refer (url_at b'k') ∷ [] } }

sample_attach : attach_method_relationship sample query_k assertion_method ≡ ok (attached, true)
unfolding attach_method_relationship append contains any resolve_method first_ref query find
    DidUrl.to_string RelativeUrl.to_string matches did_str fragment same_fragment non_empty
    starts_with rfind_char fragment_of strip_prefix position url_eqb did_eqb relative_eqb text_eqb
sample_attach = refl

-- k is no longer used for key agreement
abbrev detached : CoreDocument (Unit {0})
detached = record sample { key_agreement = record { items = [] } }

sample_detach : detach_method_relationship sample query_k key_agreement ≡ ok (detached, true)
unfolding detach_method_relationship OrderedSet.remove resolve_method first_ref query find
    DidUrl.to_string RelativeUrl.to_string matches did_str fragment same_fragment non_empty
    starts_with rfind_char fragment_of strip_prefix position url_eqb did_eqb relative_eqb text_eqb
sample_detach = refl

abbrev served : CoreDocument (Unit {0})
served = record sample {
  service = record { items = sample_service b's' ∷ sample_service b't' ∷ [] };
}

sample_serve : insert_service sample (sample_service b't') ≡ ok served
unfolding insert_service append contains any url_eqb did_eqb relative_eqb text_eqb
sample_serve = refl

remove_method_and_scope-IsWellFormed_example :
    IsWellFormed (remove_method_and_scope sample (url_at b'k')).0
remove_method_and_scope-IsWellFormed_example =
    remove_method_and_scope-IsWellFormed sample (url_at b'k') sample-IsWellFormed

remove_method_and_scope_complete_example :
    (ref_with
        (url_at b'n')
        (verification_relationships (remove_method_and_scope sample (url_at b'n')).0)
      ≡ false)
    × (method_with
          (url_at b'n')
          (remove_method_and_scope sample (url_at b'n')).0.verification_method.items
        ≡ false)
    × (is_some (remove_method_and_scope sample (url_at b'n')).1 ≡ (
        embedded_with (url_at b'n') (verification_relationships sample)
        || method_with (url_at b'n') sample.verification_method.items))
remove_method_and_scope_complete_example =
    remove_method_and_scope_complete sample (url_at b'n') sample-IsWellFormed

-- m is embedded in key agreement
abbrev inserted : CoreDocument (Unit {0})
inserted = record sample {
  key_agreement = record { items = refer (url_at b'k') ∷ embed (sample_method b'm') ∷ [] };
}

sample_insert :
    insert_method sample (sample_method b'm') (verification_relationship key_agreement)
    ≡ ok inserted
unfolding insert_method append contains any resolve_method first_ref query find DidUrl.to_string
    RelativeUrl.to_string matches did_str fragment same_fragment non_empty starts_with rfind_char
    fragment_of strip_prefix position url_eqb did_eqb relative_eqb text_eqb
sample_insert = refl

insert_method-IsWellFormed_example : IsWellFormed inserted
insert_method-IsWellFormed_example =
    insert_method-IsWellFormed sample (sample_method b'm') (verification_relationship key_agreement)
      url_m-IsIdentifier sample_insert sample-IsClosed sample-IsWellFormed

insert_method-resolve_example :
    resolve_method inserted (DidUrl.to_string (url_at b'm')) none ≡ some (sample_method b'm')
insert_method-resolve_example =
    insert_method-resolve sample (sample_method b'm') (verification_relationship key_agreement)
      url_m-IsIdentifier sample_insert sample-IsClosed

other_query : matches query_k (url_at b'm') ≡ false
unfolding query find DidUrl.to_string RelativeUrl.to_string matches did_str fragment same_fragment
    non_empty starts_with rfind_char fragment_of strip_prefix position url_eqb did_eqb relative_eqb
    text_eqb
other_query = refl

insert_method-IsClosed_example : IsClosed inserted
insert_method-IsClosed_example =
    insert_method-IsClosed sample (sample_method b'm') (verification_relationship key_agreement)
      url_m-IsIdentifier sample_insert sample-IsClosed

-- authentication refers to m, which is nowhere
abbrev dangling : CoreDocument (Unit {0})
dangling = document [] (refer (url_at b'm') ∷ []) [] []

dangling_first : first_ref dangling (DidUrl.to_string (url_at b'm')) ≡ some (refer (url_at b'm'))
unfolding first_ref query find DidUrl.to_string RelativeUrl.to_string matches did_str fragment
    same_fragment non_empty starts_with rfind_char fragment_of strip_prefix position url_eqb did_eqb
    relative_eqb text_eqb
dangling_first = refl

dangling_method :
    is_some (query_methods dangling.verification_method (DidUrl.to_string (url_at b'm'))) ≡ false
unfolding query find DidUrl.to_string RelativeUrl.to_string matches did_str fragment same_fragment
    non_empty starts_with rfind_char fragment_of strip_prefix position url_eqb did_eqb relative_eqb
    text_eqb
dangling_method = refl

dangling_service :
    is_some (query_services dangling.service (DidUrl.to_string (url_at b'm'))) ≡ false
unfolding query find DidUrl.to_string RelativeUrl.to_string matches did_str fragment same_fragment
    non_empty starts_with rfind_char fragment_of strip_prefix position url_eqb did_eqb relative_eqb
    text_eqb
dangling_service = refl

dangling_new : contains (related dangling key_agreement) (url_at b'm') ≡ false
unfolding contains any url_eqb did_eqb relative_eqb text_eqb
dangling_new = refl

insert_method-dangling_example :
    (insert_method dangling (sample_method b'm') (verification_relationship key_agreement)
      ≡ ok (store_method dangling (sample_method b'm') (verification_relationship key_agreement)))
    × (check_id_constraints
          (store_method dangling (sample_method b'm') (verification_relationship key_agreement))
        ≢ ok tt)
insert_method-dangling_example =
    insert_method-dangling dangling (sample_method b'm') key_agreement (url_at b'm') dangling_first
      (url_eqb_refl (url_at b'm')) dangling_method dangling_service dangling_new

-- every DID is traded for did:b:2
abbrev other_did : CoreDid
other_did = record { as_str = b'd' ∷ b'i' ∷ b'd' ∷ b':' ∷ b'b' ∷ b':' ∷ b'2' ∷ [] }

abbrev move : DidMap DocumentError
move did = ok other_did

abbrev moved : CoreDocument (Unit {0})
moved =
    record (document
      (record (sample_method b'k') {
        id = record (url_at b'k') { did = other_did };
        controller = other_did;
      }
        ∷ [])
      [] [] []) { id = other_did }

moved_run :
    try_map
      (document (sample_method b'k' ∷ sample_method b'k' ∷ []) [] [] [])
      move
      move
      move
      move
      (λ why. why)
    ≡ ok moved
unfolding try_map try_map_method DidUrl.try_map from_iter append_all append contains any
    check_id_constraints check_refs check_methods check_services lookup url_eqb did_eqb relative_eqb
    text_eqb
moved_run = refl

try_map-IsWellFormed_example : IsWellFormed moved
try_map-IsWellFormed_example =
    try_map-IsWellFormed (document (sample_method b'k' ∷ sample_method b'k' ∷ []) [] [] []) move
      move move move (λ why. why) moved_run

abbrev sample_builder : DocumentBuilder (Unit {0})
sample_builder = record {
  id = some sample_did;
  controller = [];
  also_known_as = [];
  verification_method = sample_method b'k' ∷ [];
  authentication = embed (sample_method b'n') ∷ [];
  assertion_method = [];
  key_agreement = refer (url_at b'k') ∷ [];
  capability_delegation = [];
  capability_invocation = [];
  service = sample_service b's' ∷ [];
  content = tt;
}

sample_built : from_builder sample_builder ≡ ok sample
unfolding from_builder OrderedSet.try_from append contains any check_id_constraints check_refs
    check_methods check_services lookup url_eqb did_eqb relative_eqb text_eqb
sample_built = refl

from_builder-IsWellFormed_example : IsWellFormed sample × IsBuilt sample_builder sample
from_builder-IsWellFormed_example = from_builder-IsWellFormed sample_builder sample_built
