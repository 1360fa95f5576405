-- ===== src/Credential/Validation/Revoked.antt =====
-- `check_status` of jwt_credential_validator_utils.rs after the issuer's `revoke_credentials` and
-- `unrevoke_credentials` of document_ext.rs.
use zk_identity.Prelude.{
  ℕ, ◌≡◌, refl, ◌∙◌, ap, sym, Bool, true, false, not, ◌&&◌, ◌||◌, some, List, [], ◌∷◌, Text, eqb,
  any, find, text_eqb, text_eqb_refl, if◌then◌else◌,
}
use zk_identity.Prelude.Outcome.{ok, err, >>=-eq-ok, ok-injective}
use zk_identity.Did.DidUrl
use zk_identity.Did.DidUrl.{CoreDid, DidUrl, did_eqb}
use zk_identity.Document.CoreDocument.{CoreDocument, query_services}
use zk_identity.Credential.Types.{Issuer, Status, Credential, issuer_url}
use zk_identity.Credential.BitmapStatus.{Urls, bitmap_status, status_id, status_index}
use zk_identity.Credential.RevocationBitmap.{
  bitmap_type, resolve_revocation_bitmap, revoke_all, unrevoke_all, revoke_credentials,
  unrevoke_credentials, update_revocation_bitmap, or_error, service_not_found, try_from,
  to_endpoint,
}
use zk_identity.Credential.RevocationBitmap.Encoding.{IsLossless, HasHeader}
use zk_identity.Credential.RevocationBitmap.Update.{
  IsRoaring, IsServices, revoke_credentials-resolve, unrevoke_credentials-resolve,
}
use zk_identity.Credential.Validation.{
  revoked, strict, Reader, on_status, unsupported, extract_issuer, check_status, check_supported,
  check_revocation_bitmap_status, issuer_bitmap,
}

did_eqb_refl : (a : CoreDid) → did_eqb a a ≡ true
unfolding did_eqb
did_eqb_refl a = text_eqb_refl a.as_str

extract_issuer-ok :
    (urls : Urls) (i : Issuer) (d : CoreDid)
    → urls.did_text (issuer_url i) ≡ some d.as_str
    → extract_issuer urls i ≡ ok d
extract_issuer-ok urls i d h = rw (extract_issuer, h) refl

module _ {D : Type 0} (x : Reader D) where
  -- The laws of what the reader uses.
  pub record IsReader : Type 0 where
    pub roaring : IsRoaring x.roaring
    pub lossless : IsLossless x.roaring x.codec
    pub services : IsServices x.services

  update-id :
      (d : CoreDocument D) (q : Text) (f : x.roaring.Bitmap → x.roaring.Bitmap) {e : CoreDocument D}
      → update_revocation_bitmap x.roaring x.codec x.services d q f ≡ ok e
      → e.id ≡ d.id
  unfolding update_revocation_bitmap
  update-id d q f h =
      let (s, e₁, h₁) = >>=-eq-ok (or_error service_not_found (query_services d.service q)) _ h in
      let (b, e₂, h₂) = >>=-eq-ok (try_from x.roaring x.codec x.services s) _ h₁ in
      let (endpoint, e₃, h₃) = >>=-eq-ok (to_endpoint x.roaring x.codec (f b)) _ h₂ in
      ap (λ (w : CoreDocument D). w.id) (sym (ok-injective h₃))

module _ {D X : Type 0} (x : Reader D) where
  -- The credential names an index of the bitmap that a query finds in the issuer's document.
  pub record PointsAt (c : Credential X) (d : CoreDocument D) (q : Text) (index : ℕ) : Type 0 where
    pub status : Status
    pub url : DidUrl
    pub has_status : c.credential_status ≡ some status
    pub is_bitmap : text_eqb status.type_ bitmap_type ≡ true
    pub is_readable : bitmap_status x.urls status ≡ ok tt
    pub has_url : status_id x.parser status ≡ ok url
    pub is_queried : DidUrl.to_string url ≡ q
    pub has_index : status_index status ≡ ok index
    pub is_issuer : x.urls.did_text (issuer_url c.issuer) ≡ some d.id.as_str

  bitmap_status-read :
      (c : Credential X) (d e : CoreDocument D) (q : Text) (index : ℕ) (b : x.roaring.Bitmap)
      → (p : PointsAt c d q index)
      → resolve_revocation_bitmap x.roaring x.codec x.services e q ≡ ok b
      → check_revocation_bitmap_status x e p.status
        ≡ (if x.roaring.contains b index then err revoked else ok tt)
  unfolding check_revocation_bitmap_status issuer_bitmap
  bitmap_status-read c d e q index b p h =
      let h' : resolve_revocation_bitmap x.roaring x.codec x.services e (DidUrl.to_string p.url)
          ≡ ok b =
        ap (resolve_revocation_bitmap x.roaring x.codec x.services e) p.is_queried ∙ h in
      rw (p.has_url, h', p.has_index) refl

  -- what the check answers on a document with the issuer's identifier
  check_supported-read :
      (c : Credential X) (d e : CoreDocument D) (q : Text) (index : ℕ) (b : x.roaring.Bitmap)
      → (p : PointsAt c d q index) → e.id ≡ d.id
      → resolve_revocation_bitmap x.roaring x.codec x.services e q ≡ ok b
      → check_supported x c (e ∷ []) p.status
        ≡ (if x.roaring.contains b index then err revoked else ok tt)
  unfolding check_supported find
  check_supported-read c d e q index b p same h =
      let issuer =
        extract_issuer-ok x.urls c.issuer e.id
          (p.is_issuer ∙ ap (λ (i : CoreDid). some i.as_str) (sym same)) in
      rw (p.is_readable, issuer, did_eqb_refl e.id) (bitmap_status-read c d e q index b p h)

  check_status-read :
      (c : Credential X) (d e : CoreDocument D) (q : Text) (index : ℕ) (b : x.roaring.Bitmap)
      → PointsAt c d q index
      → e.id ≡ d.id
      → resolve_revocation_bitmap x.roaring x.codec x.services e q ≡ ok b
      → check_status x c (e ∷ []) strict
        ≡ (if x.roaring.contains b index then err revoked else ok tt)
  unfolding check_status
  check_status-read c d e q index b p same h =
      ap (on_status x c (e ∷ []) strict) p.has_status
      ∙ ap (λ t. if not t then unsupported strict else check_supported x c (e ∷ []) p.status)
          p.is_bitmap
      ∙ check_supported-read c d e q index b p same h

  -- A credential whose index is among those that the issuer revokes is rejected as revoked by the
  -- strict status check on the issuer's document afterwards, if the encoding of the new bitmap starts
  -- with the expected header.
  pub check_status-revoke_credentials :
      (c : Credential X) (d : CoreDocument D) (q : Text) (index : ℕ) (indices : List ℕ)
      → {e : CoreDocument D} → IsReader x
      → PointsAt c d q index
      → ((b : x.roaring.Bitmap)
          → resolve_revocation_bitmap x.roaring x.codec x.services d q ≡ ok b
          → HasHeader x.roaring x.codec (revoke_all x.roaring indices b))
      → revoke_credentials x.roaring x.codec x.services d q indices ≡ ok e
      → any (λ i. eqb i index) indices ≡ true
      → check_status x c (e ∷ []) strict ≡ err revoked
  unfolding revoke_credentials
  check_status-revoke_credentials c d q index indices {e} laws p has h member =
      let (before, after, e₁, e₂, contains) =
        revoke_credentials-resolve x.roaring x.codec x.services d q indices laws.roaring
          laws.lossless laws.services has h in
      let there : x.roaring.contains after index ≡ true =
        contains index ∙ ap (λ b. b || x.roaring.contains before index) member in
      check_status-read c d e q index after p (update-id x d q (revoke_all x.roaring indices) h) e₂
      ∙ ap (λ (b : Bool). if b then err revoked else ok tt) there

  -- A credential whose index is among those that the issuer unrevokes passes the strict status check on
  -- the issuer's document afterwards, if the encoding of the new bitmap starts with the expected
  -- header.
  pub check_status-unrevoke_credentials :
      (c : Credential X) (d : CoreDocument D) (q : Text) (index : ℕ) (indices : List ℕ)
      → {e : CoreDocument D} → IsReader x
      → PointsAt c d q index
      → ((b : x.roaring.Bitmap)
          → resolve_revocation_bitmap x.roaring x.codec x.services d q ≡ ok b
          → HasHeader x.roaring x.codec (unrevoke_all x.roaring indices b))
      → unrevoke_credentials x.roaring x.codec x.services d q indices ≡ ok e
      → any (λ i. eqb i index) indices ≡ true
      → check_status x c (e ∷ []) strict ≡ ok tt
  unfolding unrevoke_credentials
  check_status-unrevoke_credentials c d q index indices {e} laws p has h member =
      let (before, after, e₁, e₂, contains) =
        unrevoke_credentials-resolve x.roaring x.codec x.services d q indices laws.roaring
          laws.lossless laws.services has h in
      let gone : x.roaring.contains after index ≡ false =
        contains index ∙ ap (λ b. not b && x.roaring.contains before index) member in
      check_status-read c d e q index after p (update-id x d q (unrevoke_all x.roaring indices) h)
        e₂
      ∙ ap (λ (b : Bool). if b then err revoked else ok tt) gone
