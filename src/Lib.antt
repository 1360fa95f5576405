-- ===== src/Lib.antt =====
-- The identity framework: DIDs and DID Urls, DID Documents, the keys of their methods and the status
-- lists of credentials.
--
-- The program is a set of crates. identity_core has the containers, identity_did the identifiers,
-- identity_verification verification methods, identity_document documents, identity_jose JSON Web Keys,
-- identity_storage the storages of keys that documents work with, identity_credential credentials,
-- their validation and their revocation. A document keeps its methods, the references of its five
-- verification relationships and its services in sets ordered by insertion, whose keys are DID Urls.
-- Queries are texts: a DID Url is printed, and matched by DID and fragment. Generating a method adds a
-- key to one storage, the method to the document and the key's id to the other storage; purging takes
-- all three away. An issuer revokes credentials in a bitmap that a service of its document holds, and
-- the validation of a credential reads it there.
-- identity_iota_core packs a document into the state metadata of an output on the ledger, with its own
-- DID replaced by a placeholder; identity_resolver hands a DID to the handler attached for its method.
--
-- Prelude: Boolean tests, lists and searches under Rust's names, equality as an interface, and
--   `Outcome`, the result of a function that returns a `Result` and may panic.
-- Core/OrderedSet: identity_core/src/common/ordered_set.rs and key_comparable.rs. `append`, `prepend`,
--   `replace`, `update`, `remove`, `change` and the conversions have the source's names; a method on
--   `&mut self` returns the new set with its answer. Keys has the lemmas on lists of entries, Client
--   the view of a set as the keys it contains.
-- Core/OneOrSet: identity_core/src/common/one_or_set.rs, with `map` and `try_map` as `map_items` and
--   `try_map_items`.
-- Core/OneOrMany: identity_core/src/common/one_or_many.rs. An iterator is the list of items that it
--   yields, with its size hint.
-- Core/Timestamp: identity_core/src/common/timestamp.rs. A timestamp is its Unix seconds, an integer of
--   any size; the parameter `Time` says which of them the crate time accepts, and their years.
-- Did/Chars, Did/CoreDid: the character classes and the validation of identity_did/src/did.rs. The
--   crate did_url_parser parses; what it answers is the record `BaseDidUrl`, and a `CoreDid` is the
--   text that it keeps.
-- Did/RelativeUrl, Did/DidUrl: identity_did/src/did_url.rs. The setters, getters, equality, printing,
--   `map` and `try_map`.
-- Did/DidUrl/Join: `parse`, `join` and `from_base_did_url` of that file over the answers of the crate,
--   the parameter `Parser`.
-- Jose: identity_jose/src/jwk, and algorithm.rs of identity_jose/src/jws. Types has the enums with
--   their names, Params key_params.rs, Jwk key.rs. A number in base64url is its text.
-- Document/Query: identity_document/src/utils/did_url_query.rs, DIDUrlQuery.
-- Document/Method: method.rs, method_ref.rs, method_scope.rs and method_relationship.rs of
--   identity_verification/src/verification_method, and identity_document/src/service/service.rs. The
--   parameter `X` stands for key material, endpoints and properties, which operations on documents
--   carry along and do not read.
-- Document/Method/Material: `MethodData`, `from_builder` and `new_from_jwk` of material.rs, builder.rs
--   and method.rs. `Material` says how the data stand in `X`; a method is built without further
--   properties.
-- Document/CoreDocument: identity_document/src/document/core_document.rs. The record `CoreDocument` is
--   CoreDocumentData; Edit has the operations that change a document, Constraints
--   `check_id_constraints`, Mapping `try_map`, Builder `from_builder` with
--   identity_document/src/document/builder.rs, Methods the lists of methods, and the other modules
--   their laws. The functions given to
--   `try_map` have no effects here. `IsWellFormed` is the invariant: keys
--   unique in every set, and the constraints on identifiers. `IsClosed` says that every reference
--   resolves within the document.
-- StatusList: identity_credential/src/revocation/status_list_2021/status_list.rs. A list is its bytes.
--   Credential has credential.rs and entry.rs of that folder: the credential that carries an encoded
--   list. The steps by base64 and gzip are the parameter `Encoding`; `IsLossless`, that bytes are
--   decoded as they were encoded, is a hypothesis of the theorems that need it.
-- Storage/Traits: the traits JwkStorage and KeyIdStorage of identity_storage/src, as records: a method
--   on `&self` takes the storage's state and returns the next one.
-- Storage/JwkMemStore, Storage/KeyIdMemstore: the two memstore.rs, with key_storage/ed25519.rs. `Crypto`
--   stands for the random generator, whose draws are numbered, base64 and Ed25519.
-- Storage/JwkMemStore/Bbs: `generate_bbs` of memstore.rs, with key_storage/bls.rs. `BbsCrates` stands for
--   the keys of the crate zkryptium and the texts of algorithms of jsonprooftoken.
-- Storage/Digest: key_id_storage/method_digest.rs. `Hashes` stands for SHA-256, SeaHash and the
--   decodings.
-- Storage/DocumentExt: the macros generate_method_for_document_type and
--   purge_method_for_document_type, and try_undo_key_generation, of storage/jwk_document_ext.rs, over
--   any two storages. `World` is the document with their states. A function that is cut where the
--   source handles an error has a step for each part; Steps and Purge say how they follow on one
--   another. Futures are run to completion; the two that are joined run on different storages.
-- Credential/Types, Credential/Structure: credential.rs, subject.rs, issuer.rs, status.rs and builder.rs
--   of identity_credential/src/credential. The parameter `X` stands for the fields that nothing here
--   reads.
-- Credential/Claims: credential/jwt_serialization.rs, with `new` and `try_into_credential`.
-- Credential/BitmapStatus, Credential/RevocationBitmap: credential/revocation_bitmap_status.rs, and
--   bitmap.rs and document_ext.rs of revocation/revocation_bitmap_2022. `Roaring` stands for the crate
--   roaring, `Codec` for flate2, multibase and url; `IsRoaring` and `IsLossless` are the laws that the
--   code relies on. `IsStandard` adds
--   what base64 and UTF-8 are. `Services` says how the types and the endpoint of a service stand in its
--   content.
-- Credential/Validation: `validate_decoded_credential` of jwt_credential_validator.rs and the checks of
--   jwt_credential_validator_utils.rs, in validator/jwt_credential_validation. The validations have no
--   effects, so running each when it is needed, or all of them, gives the same answers.
-- Iota/NetworkName, Iota/IotaDid: identity_iota_core/src/network/network_name.rs and did/iota_did.rs.
--   `Crates` stands for prefix_hex and the setter of a parsed DID; `IsDocumented` says that a tag that
--   is decoded has hexadecimal digits and an `x` only, and what the setter does.
-- Iota/StateMetadata, Iota/Placeholder: identity_iota_core/src/state_metadata. The first has the bytes,
--   `pack` and `unpack`, with JSON as the parameter `Codec`; the second the conversions between an
--   `IotaDocument` and its state metadata, which pass the document of Document/CoreDocument through
--   `map_unchecked` and `try_map`.
-- Resolver: identity_resolver/src/resolution/resolver.rs. An attached handler is a function; the order in
--   which the futures of `resolve_multiple` complete is a parameter.
-- Tests: the theorems at concrete inputs.
--
-- A text is the list of its code points, so positions count code points where Rust counts bytes; the
-- delimiters searched for are ASCII, and cutting before or after one gives the same text. The numbers
-- are natural: lengths and indices fit `usize`, and a byte keeps its bound as a hypothesis. Loops are
-- recursion on the list that the source iterates over; there is no fuel. The loop on method-specific
-- ids counts the characters of an escape that are still to be passed.
--
-- Not modelled: parsing by did_url_parser, serialization, the messages in errors, hashing and ordering,
-- cryptography, zero-knowledge signatures, the signing and decoding of tokens, presentations,
-- the handlers that fetch documents, the IOTA ledger, and the bindings.
pub mod Prelude
pub mod Core
pub mod Did
pub mod Document
pub mod StatusList
pub mod Tests
pub mod Jose
pub mod Storage
pub mod Credential
pub mod Iota
pub mod Resolver
