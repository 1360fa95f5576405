-- ===== src/Iota/Placeholder.antt =====
-- The conversions between an `IotaDocument` and its state metadata, in
-- identity_iota_core/src/state_metadata/document.rs: the DID of the document gives way to a
-- placeholder, and back.
pub mod Dids
pub mod Controllers
pub mod Restored
use zk_identity.Prelude.{Bool, true, false, if◌then◌else◌, codes}
use zk_identity.Prelude.Outcome.{Outcome, ok, err, ◌>>=◌, ◌>>◌, map_err}
use zk_identity.Did.RelativeUrl.{DidError}
use zk_identity.Did.CoreDid.{BaseDidUrl}
use zk_identity.Did.DidUrl.{CoreDid, did_eqb}
use zk_identity.Document.CoreDocument.{CoreDocument, DocumentError}
use zk_identity.Document.CoreDocument.Mapping.{DidMap, try_map}
use zk_identity.Document.CoreDocument.Mapping.Unchecked.{Infallible, map_unchecked}
use zk_identity.Iota.IotaDid.{Crates, check_validity}
use zk_identity.Iota.StateMetadata.{StateMetadataDocument, IotaDocumentMetadata}

pub record IotaDocument (X : Type 0) : Type 0 where
  pub document : CoreDocument X
  pub metadata : IotaDocumentMetadata X

-- `Error::DIDSyntaxError` and `Error::InvalidDoc`
pub data IotaError : Type 0 where
  did_syntax_error : DidError → IotaError
  invalid_doc : DocumentError → IotaError

abbrev pub placeholder_did : CoreDid
placeholder_did = record { as_str = codes "did:0:0" }

unfoldable pub replace_id_with_placeholder : CoreDid → CoreDid → CoreDid
replace_id_with_placeholder id did = if did_eqb did id then placeholder_did else did

-- `StateMetadataDocument::from`
unfoldable pub from_document :
    {X : Type 0} → IotaDocument X → Outcome Infallible (StateMetadataDocument X)
from_document d = do
  let update = replace_id_with_placeholder d.document.id
  document ← map_unchecked d.document update update update update
  ok (record { document = document; metadata = d.metadata })

unfoldable pub replace_placeholder : CoreDid → DidMap IotaError
replace_placeholder original_did did =
    if did_eqb did placeholder_did then ok original_did else ok did

-- `parts` reads the components off a DID that was parsed; `original_did` is the DID that an
-- `IotaDID` wraps.
module _ (c : Crates) (parts : CoreDid → BaseDidUrl) where
  unfoldable pub replace_placeholder_with_method_check : CoreDid → DidMap IotaError
  replace_placeholder_with_method_check original_did did =
      if did_eqb did placeholder_did
      then ok original_did
      else map_err (λ e. did_syntax_error e) (check_validity c (parts did)) >> ok did

  unfoldable pub into_iota_document :
      {X : Type 0} → StateMetadataDocument X → CoreDid → Outcome IotaError (IotaDocument X)
  into_iota_document s original_did = do
    let checked = replace_placeholder_with_method_check original_did
    let plain = replace_placeholder original_did
    document ← try_map s.document checked checked plain plain (λ e. invalid_doc e)
    ok (record { document = document; metadata = s.metadata })
