-- ===== src/Tests/Storage.antt =====
-- The key storages at concrete inputs.
use zk_identity.Prelude.{
  text_eq, ◌≡◌, refl, false, none, some, Option, List, [], ◌∷◌, Text, codes, text_eqb,
  if◌then◌else◌, find, any, position,
}
use zk_identity.Prelude.HashMap
use zk_identity.Prelude.Outcome.{ok, err}
use zk_identity.Core.OrderedSet
use zk_identity.Core.OrderedSet.{append, contains}
use zk_identity.Core.OrderedSet.Unique.{IsUnique}
use zk_identity.Did.Chars.{all_chars, is_char_fragment, starts_with_char, strip_prefix}
use zk_identity.Did.DidUrl
use zk_identity.Did.DidUrl.{DidUrl}
use zk_identity.Did.DidUrl.Join
use zk_identity.Did.DidUrl.Join.{join, Parser}
use zk_identity.Did.RelativeUrl.{fragment_of, set_fragment, set_path, set_query, relative_eqb}
use zk_identity.Jose.Jwk.{is_public, to_public}
use zk_identity.Jose.Types.{eddsa}
use zk_identity.Document.CoreDocument.{insert_method, query, related, verification_relationships}
use zk_identity.Document.CoreDocument.Constraints.{
  check_id_constraints, ref_with, embedded_with, check_methods, check_refs, check_services, lookup,
}
use zk_identity.Document.CoreDocument.Constraints.Decides.{check_id_constraints_iff}
use zk_identity.Document.CoreDocument.Edit.{remove_method_and_scope}
use zk_identity.Document.CoreDocument.Insertion.{IsClosed}
use zk_identity.Document.CoreDocument.Invariant.{IsWellFormed}
use zk_identity.Document.Method.{
  VerificationMethod, MethodScope, refer, MethodRelationship, method_key, ref_key, service_key,
}
use zk_identity.Document.Method.Material.{MethodData, new_from_jwk}
use zk_identity.Storage.Digest.{digest}
use zk_identity.Storage.DocumentExt.{
  generate_method, purge_method, key_id_storage_error, store_key_id, store_new_method,
  try_undo_key_generation, with_key, with_method, purge_removed, reinsert, with_digest,
}
use zk_identity.Storage.DocumentExt.Failing.{generate_method-failed}
use zk_identity.Storage.DocumentExt.InMemory.{purge_method-generate_method}
use zk_identity.Storage.DocumentExt.Reverted.{purge_method-relations}
use zk_identity.Storage.JwkMemStore
use zk_identity.Storage.JwkMemStore.{
  mem_store, new_mem_store, generate_checks, generate_with, generated_jwk, MemStore,
}
use zk_identity.Storage.KeyIdMemstore.{
  key_id_mem_store, digest_eq, digest_eqb, insert_key_id, get_key_id,
}
use zk_identity.Storage.Traits.{MethodDigest, key_id_already_exists, key_id_not_found}
use zk_identity.Tests.Data.{url_at}
use zk_identity.Tests.Keys.{
  sample_crypto, sample_env, sample_hashes, sample_parser-IsParser, keyed, keyed_method, fresh,
  Memory, generated_method,
}

general : MethodScope
general = MethodScope.verification_method

-- the digest of every method is taken
abbrev taken : Memory
taken = record (fresh (keyed [] [])) {
  key_ids = HashMap.insert HashMap.new (record { version = 0; value = 7 }) (codes "x");
}

abbrev pub named : Option Text
named = some (codes "m")

taken_fails :
    (generate_method sample_env
      (mem_store sample_hashes sample_crypto)
      key_id_mem_store
      taken
      (codes "Ed25519")
      eddsa
      named
      MethodScope.verification_method).1
    ≡ err (key_id_storage_error key_id_already_exists)
unfolding generate_method JwkMemStore.generate generate_checks text_eqb generate_with to_public
    generated_jwk with_key new_from_jwk Join.join starts_with_char set_path set_query set_fragment
    strip_prefix all_chars is_char_fragment fragment_of is_public with_method digest
    store_new_method insert_method query find store_key_id insert_key_id HashMap.get HashMap.insert
    digest_eqb try_undo_key_generation JwkMemStore.delete HashMap.remove
taken_fails = refl

pub no_key-IsClosed : (ms : List (VerificationMethod MethodData)) → IsClosed (keyed ms [])
no_key-IsClosed ms = tt

generate_method-failed_example :
    (generate_method sample_env
      (mem_store sample_hashes sample_crypto)
      key_id_mem_store
      taken
      (codes "Ed25519")
      eddsa
      named
      MethodScope.verification_method).0.document
    ≡ keyed [] []
generate_method-failed_example =
    generate_method-failed sample_env (mem_store sample_hashes sample_crypto) key_id_mem_store taken
      (codes "Ed25519") eddsa named MethodScope.verification_method sample_parser-IsParser
      (no_key-IsClosed []) taken_fails

-- a run that succeeds
abbrev generated_world : Memory
generated_world = record {
  document = keyed (generated_method ∷ []) [];
  keys = (JwkMemStore.generate sample_hashes sample_crypto new_mem_store (codes "Ed25519") eddsa).0;
  key_ids = HashMap.insert HashMap.new (record { version = 0; value = 7 }) (b'i' ∷ 0 ∷ []);
}

generates :
    generate_method sample_env
      (mem_store sample_hashes sample_crypto)
      key_id_mem_store
      (fresh (keyed [] []))
      (codes "Ed25519")
      eddsa
      named
      MethodScope.verification_method
    ≡ (generated_world, ok (codes "m"))
unfolding generate_method JwkMemStore.generate generate_checks text_eqb generate_with to_public
    generated_jwk with_key new_from_jwk Join.join starts_with_char set_path set_query set_fragment
    strip_prefix all_chars is_char_fragment fragment_of is_public with_method digest
    store_new_method insert_method query find store_key_id insert_key_id HashMap.get append contains
    any
generates = refl

purge_method-generate_method_example :
    (id : DidUrl) × (w'' : Memory) × (DidUrl.fragment id ≡ named)
    × (purge_method sample_env
          (mem_store sample_hashes sample_crypto)
          key_id_mem_store
          generated_world
          id
        ≡ (w'', ok tt))
    × (w''.document ≡ keyed [] [])
    × ((d : MethodDigest) → HashMap.get w''.key_ids d ≡ HashMap.get (fresh (keyed [] [])).key_ids d)
    × ((k : Text)
        → HashMap.get w''.keys.jwk_store k ≡ (
            if text_eqb (b'i' ∷ 0 ∷ []) k
            then none
            else HashMap.get (fresh (keyed [] [])).keys.jwk_store k))
purge_method-generate_method_example =
    purge_method-generate_method sample_env sample_crypto (fresh (keyed [] [])) (codes "Ed25519")
      eddsa named MethodScope.verification_method sample_parser-IsParser (no_key-IsClosed [])
      generates

-- a general method k, to which authentication refers
abbrev referred : Memory
referred = fresh (keyed (keyed_method b'k' ∷ []) (refer (url_at b'k') ∷ []))

referred_checked : check_id_constraints referred.document ≡ ok tt
unfolding check_id_constraints check_refs lookup check_methods DidUrl.url_eqb text_eqb relative_eqb
    check_services any
referred_checked = refl

referred_relations : (r : MethodRelationship) → IsUnique (related referred.document r)
unfolding any
referred_relations MethodRelationship.authentication = (refl, tt)
referred_relations MethodRelationship.assertion_method = tt
referred_relations MethodRelationship.key_agreement = tt
referred_relations MethodRelationship.capability_delegation = tt
referred_relations MethodRelationship.capability_invocation = tt

referred-IsWellFormed : IsWellFormed referred.document
unfolding any generated_jwk
referred-IsWellFormed = record {
  keys = record { methods = (refl, tt); relations = referred_relations; services = tt };
  constrained = (check_id_constraints_iff referred.document).0 referred_checked;
}

referred_general :
    embedded_with (url_at b'k') (verification_relationships referred.document) ≡ false
unfolding any DidUrl.url_eqb text_eqb relative_eqb query
referred_general = refl

-- no key id is stored for k, so that its purge fails; the method is back, the reference is not
purge_fails :
    purge_method sample_env
      (mem_store sample_hashes sample_crypto)
      key_id_mem_store
      referred
      (url_at b'k')
    ≡ (
      record referred { document = keyed (keyed_method b'k' ∷ []) [] },
      err (key_id_storage_error key_id_not_found),
    )
unfolding purge_method purge_removed remove_method_and_scope OrderedSet.remove position
    DidUrl.url_eqb text_eqb relative_eqb digest fragment_of strip_prefix with_digest get_key_id
    HashMap.get reinsert insert_method query find append contains any JwkMemStore.generate
purge_fails = refl

purge_method-relations_example :
    ref_with (url_at b'k') (
      verification_relationships
        (purge_method sample_env
          (mem_store sample_hashes sample_crypto)
          key_id_mem_store
          referred
          (url_at b'k')).0.document)
    ≡ false
purge_method-relations_example =
    purge_method-relations sample_env (mem_store sample_hashes sample_crypto) key_id_mem_store
      referred (url_at b'k') referred-IsWellFormed referred_general
