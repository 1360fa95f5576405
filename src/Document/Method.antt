-- ===== src/Document/Method.antt =====
-- Verification methods, references to them and services: identity_verification's
-- verification_method/{method,method_ref,method_scope,method_relationship}.rs and identity_document's
-- service/service.rs. `X` is the type of what the operations on documents never look into: key
-- material, endpoints and further properties.
pub mod Material
use zk_identity.Prelude.{Bool, true, false, Option, none, some, Text, if◌then◌else◌}
use zk_identity.Prelude.Outcome.{Outcome, ok, ◌>>=◌}
use zk_identity.Core.OrderedSet.{KeyComparable}
use zk_identity.Did.Chars.{is_empty, or_empty}
use zk_identity.Did.DidUrl
use zk_identity.Did.DidUrl.{DidUrl, CoreDid, url_eq}

pub data MethodRelationship : Type 0 where
  authentication assertion_method key_agreement capability_delegation capability_invocation :
      MethodRelationship

pub data MethodScope : Type 0 where
  verification_method : MethodScope
  verification_relationship : MethodRelationship → MethodScope

pub record VerificationMethod (X : Type 0) : Type 0 where
  pub id : DidUrl
  pub controller : CoreDid
  pub type_ : Text
  pub material : X

pub data MethodRef (X : Type 0) : Type 0 where
  embed : VerificationMethod X → MethodRef X
  refer : DidUrl → MethodRef X

pub record Service (X : Type 0) : Type 0 where
  pub id : DidUrl
  pub content : X

module _ {X : Type 0} where
  -- `MethodRef::id`
  abbrev pub ref_id : MethodRef X → DidUrl
  ref_id (embed m) = m.id
  ref_id (refer did) = did

  abbrev pub is_embedded : MethodRef X → Bool
  is_embedded (embed m) = true
  is_embedded (refer did) = false

  instance abbrev pub method_key : KeyComparable (VerificationMethod X)
  method_key = record { Key = DidUrl; key_eq = url_eq; key = λ m. m.id }

  instance abbrev pub ref_key : KeyComparable (MethodRef X)
  ref_key = record { Key = DidUrl; key_eq = url_eq; key = ref_id }

  instance abbrev pub service_key : KeyComparable (Service X)
  service_key = record { Key = DidUrl; key_eq = url_eq; key = λ s. s.id }

  -- `VerificationMethod::set_id` and `Service::set_id`; `none` is `Error::MissingIdFragment`
  unfoldable pub set_method_id : VerificationMethod X → DidUrl → Option (VerificationMethod X)
  set_method_id m id =
      if is_empty (or_empty (DidUrl.fragment id)) then none else some (record m { id = id })

  unfoldable pub set_service_id : Service X → DidUrl → Option (Service X)
  set_service_id s id =
      if is_empty (or_empty (DidUrl.fragment id)) then none else some (record s { id = id })

  -- `VerificationMethod::try_map`: the id first, then the controller
  unfoldable pub try_map_method :
      {E : Type 0}
      → (CoreDid → Outcome E CoreDid)
      → VerificationMethod X
      → Outcome E (VerificationMethod X)
  try_map_method f m = do
    id ← DidUrl.try_map f m.id
    controller ← f m.controller
    ok (record m { id = id; controller = controller })

  unfoldable pub try_map_ref :
      {E : Type 0} → (CoreDid → Outcome E CoreDid) → MethodRef X → Outcome E (MethodRef X)
  unfolding try_map_method
  try_map_ref f (embed m) = do m' ← try_map_method f m; ok (embed m')
  try_map_ref f (refer id) = do id' ← DidUrl.try_map f id; ok (refer id')

  unfoldable pub try_map_service :
      {E : Type 0} → (CoreDid → Outcome E CoreDid) → Service X → Outcome E (Service X)
  try_map_service f s = do id ← DidUrl.try_map f s.id; ok (record s { id = id })
