-- ===== src/Credential/RevocationBitmap.antt =====
-- `RevocationBitmap` of identity_credential/src/revocation/revocation_bitmap_2022/bitmap.rs, and its
-- service in a document: document_ext.rs.
pub mod Encoding
pub mod Update
use zk_identity.Prelude.{
  ℕ, Bool, true, false, not, Option, none, some, List, [], ◌∷◌, ◌++◌, Text, codes, if◌then◌else◌,
  any, text_eqb, find,
}
use zk_identity.Prelude.Outcome.{Outcome, ok, err, ◌>>=◌}
use zk_identity.Core.OrderedSet.{OrderedSet}
use zk_identity.Did.Chars.{starts_with, strip_text}
use zk_identity.Document.Query.{matches}
use zk_identity.Document.Method.{Service}
use zk_identity.Document.CoreDocument.{CoreDocument, resolve_service, query_services}

-- `RoaringBitmap` of the crate roaring, a set of `u32`; `none` is an error of its input or output.
pub record Roaring : Type 1 where
  pub Bitmap : Type 0
  pub empty : Bitmap
  pub contains : Bitmap → ℕ → Bool
  pub insert : Bitmap → ℕ → Bitmap × Bool
  pub remove : Bitmap → ℕ → Bitmap × Bool
  pub serialize_into : Bitmap → Option (List ℕ)
  pub deserialize_from : List ℕ → Option Bitmap

-- The crates flate2, multibase and url, and `String::from_utf8`.
pub record Codec : Type 0 where
  pub compress_zlib : List ℕ → Option (List ℕ)
  pub decompress_zlib : List ℕ → Option (List ℕ)
  pub encode_b64url : List ℕ → Text
  pub decode_b64url : Text → Option (List ℕ)
  pub decode_b64 : Text → Option (List ℕ)
  pub from_utf8 : List ℕ → Option Text
  pub parse_url : Text → Option Text

pub data RevocationError : Type 0 where
  bitmap_decoding_error bitmap_encoding_error base64_decoding_error url_construction_error
        service_not_found invalid_type invalid_url invalid_endpoint invalid_utf8 :
      RevocationError

-- `ServiceEndpoint`; what is not a single Url is not looked at
pub data ServiceEndpoint : Type 0 where
  one_url : Text → ServiceEndpoint
  several : Text → ServiceEndpoint

-- How the types and the endpoint of a service stand in its content.
pub record Services (X : Type 0) : Type 0 where
  pub types_of : X → List Text
  pub endpoint_of : X → ServiceEndpoint
  pub with_endpoint : X → ServiceEndpoint → X

abbrev pub bitmap_type : Text
bitmap_type = codes "RevocationBitmap2022"

abbrev pub data_url_pattern : Text
data_url_pattern = codes "data:application/octet-stream;base64,"

abbrev pub header : Text
header = codes "eJy"

abbrev pub or_error : {A : Type 0} → RevocationError → Option A → Outcome RevocationError A
or_error e none = err e
or_error e (some a) = ok a

module _ (r : Roaring) where
  abbrev pub is_revoked : r.Bitmap → ℕ → Bool
  is_revoked b index = r.contains b index

  abbrev pub revoke : r.Bitmap → ℕ → r.Bitmap × Bool
  revoke b index = r.insert b index

  abbrev pub unrevoke : r.Bitmap → ℕ → r.Bitmap × Bool
  unrevoke b index = r.remove b index

  -- the loops of `revoke_credentials` and `unrevoke_credentials`
  unfoldable pub revoke_all : List ℕ → r.Bitmap → r.Bitmap
  revoke_all [] b = b
  revoke_all (credential ∷ indices) b = revoke_all indices (revoke b credential).0

  unfoldable pub unrevoke_all : List ℕ → r.Bitmap → r.Bitmap
  unrevoke_all [] b = b
  unrevoke_all (credential ∷ indices) b = unrevoke_all indices (unrevoke b credential).0

  module _ (k : Codec) where
    unfoldable pub serialize_compressed_base64 : r.Bitmap → Outcome RevocationError Text
    serialize_compressed_base64 b = do
      bytes ← or_error bitmap_encoding_error (r.serialize_into b)
      zipped ← or_error bitmap_encoding_error (k.compress_zlib bytes)
      ok (k.encode_b64url zipped)

    unfoldable pub to_endpoint : r.Bitmap → Outcome RevocationError ServiceEndpoint
    unfolding serialize_compressed_base64
    to_endpoint b = do
      encoded ← serialize_compressed_base64 b
      url ← or_error url_construction_error (k.parse_url (data_url_pattern ++ encoded))
      ok (one_url url)

    -- the inner encoding is undone where the text does not start with the header
    unfoldable pub inner_text : Text → Outcome RevocationError Text
    unfolding starts_with
    inner_text encoded =
        if not (starts_with header encoded)
        then (do
          decoded ← or_error base64_decoding_error (k.decode_b64 encoded)
          or_error invalid_utf8 (k.from_utf8 decoded))
        else ok encoded

    unfoldable pub deserialize_compressed_base64 : Text → Outcome RevocationError r.Bitmap
    unfolding inner_text
    deserialize_compressed_base64 encoded = do
      text ← inner_text encoded
      zipped ← or_error base64_decoding_error (k.decode_b64url text)
      bytes ← or_error bitmap_decoding_error (k.decompress_zlib zipped)
      or_error bitmap_decoding_error (r.deserialize_from bytes)

    unfoldable pub try_from_endpoint : ServiceEndpoint → Outcome RevocationError r.Bitmap
    unfolding strip_text deserialize_compressed_base64
    try_from_endpoint (several urls) = err invalid_endpoint
    try_from_endpoint (one_url url) = elim (strip_text data_url_pattern url) [
      | none ↦ err invalid_url
      | some encoded ↦ deserialize_compressed_base64 encoded
    ]

    module _ {X : Type 0} (v : Services X) where
      -- `TryFrom<&Service>`
      unfoldable pub try_from : Service X → Outcome RevocationError r.Bitmap
      unfolding any try_from_endpoint
      try_from service =
          if not (any (λ t. text_eqb t bitmap_type) (v.types_of service.content))
          then err invalid_type
          else try_from_endpoint (v.endpoint_of service.content)

      unfoldable pub resolve_revocation_bitmap :
          CoreDocument X → Text → Outcome RevocationError r.Bitmap
      unfolding resolve_service try_from
      resolve_revocation_bitmap d query =
          or_error service_not_found (resolve_service d query) >>= try_from

      abbrev pub with_endpoint : Service X → ServiceEndpoint → Service X
      with_endpoint s e = record s { content = v.with_endpoint s.content e }

      -- `query_mut` and the assignment through it
      unfoldable pub modify_first :
          (Service X → Bool) → (Service X → Service X) → List (Service X) → List (Service X)
      modify_first p f [] = []
      modify_first p f (s ∷ ss) =
          let rest = modify_first p f ss in if p s then f s ∷ ss else s ∷ rest

      abbrev pub modified : CoreDocument X → Text → ServiceEndpoint → CoreDocument X
      modified d query e = record d {
        service = record {
          items = modify_first (λ s. matches query s.id) (λ s. with_endpoint s e) d.service.items;
        };
      }

      -- On an error the document is as it was: the endpoint is swapped at the end.
      unfoldable pub update_revocation_bitmap :
          CoreDocument X → Text → (r.Bitmap → r.Bitmap) → Outcome RevocationError (CoreDocument X)
      unfolding try_from to_endpoint modify_first
      update_revocation_bitmap d query f = do
        service ← or_error service_not_found (query_services d.service query)
        bitmap ← try_from service
        endpoint ← to_endpoint (f bitmap)
        ok (modified d query endpoint)

      unfoldable pub revoke_credentials :
          CoreDocument X → Text → List ℕ → Outcome RevocationError (CoreDocument X)
      unfolding update_revocation_bitmap revoke_all
      revoke_credentials d query indices = update_revocation_bitmap d query (revoke_all indices)

      unfoldable pub unrevoke_credentials :
          CoreDocument X → Text → List ℕ → Outcome RevocationError (CoreDocument X)
      unfolding update_revocation_bitmap unrevoke_all
      unrevoke_credentials d query indices = update_revocation_bitmap d query (unrevoke_all indices)
