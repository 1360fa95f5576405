-- ===== src/Document/CoreDocument.antt =====
-- `CoreDocument` of identity_document/src/document/core_document.rs: its state, its queries and the
-- insertion of a method. The other operations are in the modules below.
pub mod Edit
pub mod Constraints
pub mod Invariant
pub mod Relate
pub mod Services
pub mod Removal
pub mod Mapping
pub mod Methods
pub mod Builder
pub mod Insertion
use zk_identity.Prelude.{
  Bool, true, false, Option, none, some, List, [], ◌∷◌, ◌++◌, Text, if◌then◌else◌, ◌||◌, not, find,
  any, is_some, or_else,
}
use zk_identity.Prelude.Outcome.{Outcome, ok, err}
use zk_identity.Core.OneOrSet.{OneOrSet}
use zk_identity.Core.OrderedSet
use zk_identity.Core.OrderedSet.{OrderedSet, KeyComparable}
use zk_identity.Did.DidUrl
use zk_identity.Did.DidUrl.{DidUrl, CoreDid, url_eqb}
use zk_identity.Document.Query.{matches}
use zk_identity.Document.Method.{
  MethodRelationship, authentication, assertion_method, key_agreement, capability_delegation,
  capability_invocation, MethodScope, verification_relationship, VerificationMethod, MethodRef,
  embed, refer, Service, ref_id, method_key, ref_key, service_key,
}

-- `Error` of identity_document/src/error.rs: the variants that these operations return, and the
-- messages of `InvalidDocument`
pub data DocumentError : Type 0 where
  duplicated_or_aliased_embedded_method aliased_embedded_method duplicated_embedded_method
        shared_service_identifier method_insertion_error invalid_service_insertion
        invalid_method_embedded method_not_found missing_id invalid_controller invalid_also_known_as
        invalid_verification_method invalid_service :
      DocumentError
  invalid_relationship : MethodRelationship → DocumentError

-- `CoreDocumentData`; an `Url` is its text, and `content` stands for `properties`, which no operation
-- here reads
pub record CoreDocument (X : Type 0) : Type 0 where
  pub id : CoreDid
  pub controller : Option (OneOrSet CoreDid)
  pub also_known_as : OrderedSet Text
  pub verification_method : OrderedSet (VerificationMethod X)
  pub authentication : OrderedSet (MethodRef X)
  pub assertion_method : OrderedSet (MethodRef X)
  pub key_agreement : OrderedSet (MethodRef X)
  pub capability_delegation : OrderedSet (MethodRef X)
  pub capability_invocation : OrderedSet (MethodRef X)
  pub service : OrderedSet (Service X)
  pub content : X

module _ {X : Type 0} where
  -- the field of a relationship, and a document with that field replaced
  abbrev pub related : CoreDocument X → MethodRelationship → OrderedSet (MethodRef X)
  related d MethodRelationship.authentication = d.authentication
  related d MethodRelationship.assertion_method = d.assertion_method
  related d MethodRelationship.key_agreement = d.key_agreement
  related d MethodRelationship.capability_delegation = d.capability_delegation
  related d MethodRelationship.capability_invocation = d.capability_invocation

  abbrev pub with_related :
      CoreDocument X → MethodRelationship → OrderedSet (MethodRef X) → CoreDocument X
  with_related d MethodRelationship.authentication s = record d { authentication = s }
  with_related d MethodRelationship.assertion_method s = record d { assertion_method = s }
  with_related d MethodRelationship.key_agreement s = record d { key_agreement = s }
  with_related d MethodRelationship.capability_delegation s = record d { capability_delegation = s }
  with_related d MethodRelationship.capability_invocation s = record d { capability_invocation = s }

  -- `verification_relationships`
  abbrev pub verification_relationships : CoreDocument X → List (MethodRef X)
  verification_relationships d =
      d.authentication.items
      ++ (d.assertion_method.items
          ++ (d.key_agreement.items
              ++ (d.capability_delegation.items ++ d.capability_invocation.items)))

module _ {T : Type 0} ⦃c : KeyComparable T⦄ where
  -- `Queryable::query`, for keys that are DID Urls
  unfoldable pub query : (c.Key → DidUrl) → OrderedSet T → Text → Option T
  query as_ref s q = find (λ entry. matches q (as_ref (c.key entry))) s.items

abbrev pub as_is : DidUrl → DidUrl
as_is u = u

module _ {X : Type 0} where
  abbrev pub query_methods :
      OrderedSet (VerificationMethod X) → Text → Option (VerificationMethod X)
  query_methods s q = query as_is s q

  abbrev pub query_refs : OrderedSet (MethodRef X) → Text → Option (MethodRef X)
  query_refs s q = query as_is s q

  abbrev pub query_services : OrderedSet (Service X) → Text → Option (Service X)
  query_services s q = query as_is s q

  unfoldable pub resolve_method_ref : CoreDocument X → MethodRef X → Option (VerificationMethod X)
  resolve_method_ref d (embed m) = some m
  resolve_method_ref d (refer did) = query_methods d.verification_method (DidUrl.to_string did)

  -- `if method.is_none() { method = … }`, four times
  unfoldable pub first_ref : CoreDocument X → Text → Option (MethodRef X)
  first_ref d q = or_else (query_refs d.authentication q) (
      or_else (query_refs d.assertion_method q) (
        or_else (query_refs d.key_agreement q)
          (or_else (query_refs d.capability_delegation q) (query_refs d.capability_invocation q))))

  unfoldable pub resolve_method_inner : CoreDocument X → Text → Option (VerificationMethod X)
  unfolding first_ref
  resolve_method_inner d q = elim (first_ref d q) [
    | some r ↦ elim r [
      | embed m ↦ some m
      | refer did ↦ query_methods d.verification_method (DidUrl.to_string did)
    ]
    | none ↦ query_methods d.verification_method q
  ]

  -- `self.data.<relationship>.query(q).and_then(resolve_ref_helper)`
  abbrev pub resolve_related : CoreDocument X → Option (MethodRef X) → Option (VerificationMethod X)
  resolve_related d none = none
  resolve_related d (some r) = resolve_method_ref d r

  unfoldable pub resolve_method :
      CoreDocument X → Text → Option MethodScope → Option (VerificationMethod X)
  unfolding resolve_method_inner resolve_method_ref
  resolve_method d q none = resolve_method_inner d q
  resolve_method d q (some MethodScope.verification_method) = query_methods d.verification_method q
  resolve_method d q (some (verification_relationship r)) =
      resolve_related d (query_refs (related d r) q)

  unfoldable pub resolve_service : CoreDocument X → Text → Option (Service X)
  resolve_service d q = query_services d.service q

  abbrev pub store_method : CoreDocument X → VerificationMethod X → MethodScope → CoreDocument X
  store_method d m MethodScope.verification_method = record d {
    verification_method = (OrderedSet.append d.verification_method m).0;
  }
  store_method d m (verification_relationship r) =
      with_related d r (OrderedSet.append (related d r) (embed m)).0

  -- The answer of `append` is dropped. On an error the document is left as it was.
  unfoldable pub insert_method :
      CoreDocument X → VerificationMethod X → MethodScope → Outcome DocumentError (CoreDocument X)
  unfolding resolve_method
  insert_method d m scope =
      if is_some (resolve_method d (DidUrl.to_string m.id) none)
        || is_some (query_services d.service (DidUrl.to_string m.id))
      then err method_insertion_error
      else ok (store_method d m scope)
