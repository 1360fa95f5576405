-- ===== src/Credential/RevocationBitmap/Update.antt =====
-- `revoke_credentials` and `unrevoke_credentials` of document_ext.rs, and what
-- `resolve_revocation_bitmap` finds after them.
use mathlib.Core.Option.{some-injective}
use zk_identity.Prelude.{
  ℕ, ◌≡◌, refl, ◌∙◌, ap, subst, Bool, not, ◌&&◌, ◌||◌, some, List, [], ◌∷◌, Text, arith, eqb, any,
  find, inl, inr, Bool-cases, text_eqb,
}
use zk_identity.Prelude.Outcome.{ok, ◌>>=◌, >>=-eq-ok, ok-injective}
use zk_identity.Document.Query.{matches}
use zk_identity.Document.Method.{Service}
use zk_identity.Document.CoreDocument.{CoreDocument, resolve_service, query, query_services}
use zk_identity.Credential.RevocationBitmap.{
  Roaring, Codec, ServiceEndpoint, Services, or_error, service_not_found, bitmap_type, to_endpoint,
  try_from, with_endpoint, modify_first, modified, resolve_revocation_bitmap,
  update_revocation_bitmap, revoke_all, unrevoke_all, revoke_credentials, unrevoke_credentials,
}
use zk_identity.Credential.RevocationBitmap.Encoding.{
  IsLossless, HasHeader, or_error-ok, try_from_endpoint-to_endpoint,
}

-- a set of numbers
pub record IsRoaring (r : Roaring) : Type 0 where
  pub contains-insert :
      (b : r.Bitmap) (i j : ℕ) → r.contains (r.insert b i).0 j ≡ (eqb i j || r.contains b j)
  pub contains-remove :
      (b : r.Bitmap) (i j : ℕ) → r.contains (r.remove b i).0 j ≡ (not (eqb i j) && r.contains b j)

-- what is set is read, and the types stay
pub record IsServices {X : Type 0} (v : Services X) : Type 0 where
  pub endpoint_of-with_endpoint :
      (c : X) (e : ServiceEndpoint) → v.endpoint_of (v.with_endpoint c e) ≡ e
  pub types_of-with_endpoint :
      (c : X) (e : ServiceEndpoint) → v.types_of (v.with_endpoint c e) ≡ v.types_of c

module _ (r : Roaring) where
  contains-revoke_all :
      IsRoaring r
      → (indices : List ℕ) (b : r.Bitmap) (j : ℕ)
      → r.contains (revoke_all r indices b) j ≡ (any (λ i. eqb i j) indices || r.contains b j)
  unfolding revoke_all any
  contains-revoke_all law [] b j = refl
  contains-revoke_all law (i ∷ is) b j =
      contains-revoke_all law is (r.insert b i).0 j ∙ ground (arith, law.contains-insert b i j)

  contains-unrevoke_all :
      IsRoaring r
      → (indices : List ℕ) (b : r.Bitmap) (j : ℕ)
      → r.contains (unrevoke_all r indices b) j
        ≡ (not (any (λ i. eqb i j) indices) && r.contains b j)
  unfolding unrevoke_all any
  contains-unrevoke_all law [] b j = refl
  contains-unrevoke_all law (i ∷ is) b j =
      contains-unrevoke_all law is (r.remove b i).0 j ∙ ground (arith, law.contains-remove b i j)

module _ (r : Roaring) (k : Codec) {X : Type 0} (v : Services X) where
  find-modify_first :
      (p : Service X → Bool) (f : Service X → Service X)
      → ((s : Service X) → p (f s) ≡ p s)
      → (ss : List (Service X)) {s : Service X} → find p ss ≡ some s
      → find p (modify_first r k v p f ss) ≡ some (f s)
  unfolding find modify_first
  find-modify_first p f same [] h = absurd (cc h)
  find-modify_first p f same (t ∷ ts) {s} h = elim (Bool-cases (p t)) [
    | inl yes' ↦
        let e : t ≡ s = some-injective t s (rw yes' at h) in
        rw yes' (rw (same t, yes') (ap (λ u. some (f u)) e))
    | inr no' ↦ rw no' (rw no' (find-modify_first p f same ts (rw no' at h)))
  ]

  -- what a service gives after its endpoint was written
  try_from-written :
      (s : Service X) (b b' : r.Bitmap) (e : ServiceEndpoint)
      → IsLossless r k
      → IsServices v
      → HasHeader r k b'
      → try_from r k v s ≡ ok b
      → to_endpoint r k b' ≡ ok e
      → try_from r k v (with_endpoint r k v s e) ≡ ok b'
  unfolding try_from
  try_from-written s b b' e law laws has read written =
      elim (Bool-cases (any (λ t. text_eqb t bitmap_type) (v.types_of s.content))) [
        | inr no' ↦ absurd (ground arith)
        | inl yes' ↦
            rw
              (
                laws.types_of-with_endpoint s.content e,
                yes',
                laws.endpoint_of-with_endpoint s.content e,
              )
              (try_from_endpoint-to_endpoint r k b' law has written)
      ]

  resolve-found :
      (d : CoreDocument X) (q : Text) {s : Service X}
      → query_services d.service q ≡ some s
      → resolve_revocation_bitmap r k v d q ≡ try_from r k v s
  unfolding resolve_revocation_bitmap resolve_service
  resolve-found d q h = ap (λ o. or_error service_not_found o >>= try_from r k v) h

  update-resolve :
      (d : CoreDocument X) (q : Text) (f : r.Bitmap → r.Bitmap) {e : CoreDocument X}
      → IsLossless r k
      → IsServices v
      → ((b : r.Bitmap) → resolve_revocation_bitmap r k v d q ≡ ok b → HasHeader r k (f b))
      → update_revocation_bitmap r k v d q f ≡ ok e
      → (b : r.Bitmap) × (resolve_revocation_bitmap r k v d q ≡ ok b)
        × (resolve_revocation_bitmap r k v e q ≡ ok (f b))
  unfolding update_revocation_bitmap query
  update-resolve d q f law laws has h =
      let (s, e₁, h₁) = >>=-eq-ok (or_error service_not_found (query_services d.service q)) _ h in
      let (b, e₂, h₂) = >>=-eq-ok (try_from r k v s) _ h₁ in
      let (endpoint, e₃, h₃) = >>=-eq-ok (to_endpoint r k (f b)) _ h₂ in
      let there = or_error-ok service_not_found (query_services d.service q) e₁ in
      let before : resolve_revocation_bitmap r k v d q ≡ ok b = resolve-found d q there ∙ e₂ in
      (
        b,
        before,
        subst (λ (w : CoreDocument X). resolve_revocation_bitmap r k v w q ≡ ok (f b))
            (ok-injective h₃)
            (resolve-found (modified r k v d q endpoint) q (
                find-modify_first (λ t. matches q t.id) (λ t. with_endpoint r k v t endpoint)
                  (λ t. refl) d.service.items there)
              ∙ try_from-written s b (f b) endpoint law laws (has b before) e₂ e₃),
      )

  -- After `revoke_credentials` on a document, the bitmap that resolves has exactly the given indices
  -- and those that were revoked before, if its encoding starts with the expected header.
  pub revoke_credentials-resolve :
      (d : CoreDocument X) (q : Text) (indices : List ℕ) {e : CoreDocument X}
      → IsRoaring r
      → IsLossless r k
      → IsServices v
      → ((b : r.Bitmap)
          → resolve_revocation_bitmap r k v d q ≡ ok b
          → HasHeader r k (revoke_all r indices b))
      → revoke_credentials r k v d q indices ≡ ok e
      → (before : r.Bitmap) × (after : r.Bitmap) × (resolve_revocation_bitmap r k v d q ≡ ok before)
        × (resolve_revocation_bitmap r k v e q ≡ ok after)
        × ((j : ℕ) → r.contains after j ≡ (any (λ i. eqb i j) indices || r.contains before j))
  unfolding revoke_credentials
  revoke_credentials-resolve d q indices set law laws has h =
      let (b, e₁, e₂) = update-resolve d q (revoke_all r indices) law laws has h in
      (b, revoke_all r indices b, e₁, e₂, λ j. contains-revoke_all r set indices b j)

  -- After `unrevoke_credentials` on a document, the bitmap that resolves has exactly the indices that
  -- were revoked before but for the given ones, if its encoding starts with the expected header.
  pub unrevoke_credentials-resolve :
      (d : CoreDocument X) (q : Text) (indices : List ℕ) {e : CoreDocument X}
      → IsRoaring r
      → IsLossless r k
      → IsServices v
      → ((b : r.Bitmap)
          → resolve_revocation_bitmap r k v d q ≡ ok b
          → HasHeader r k (unrevoke_all r indices b))
      → unrevoke_credentials r k v d q indices ≡ ok e
      → (before : r.Bitmap) × (after : r.Bitmap) × (resolve_revocation_bitmap r k v d q ≡ ok before)
        × (resolve_revocation_bitmap r k v e q ≡ ok after)
        × ((j : ℕ) → r.contains after j ≡ (not (any (λ i. eqb i j) indices) && r.contains before j))
  unfolding unrevoke_credentials
  unrevoke_credentials-resolve d q indices set law laws has h =
      let (b, e₁, e₂) = update-resolve d q (unrevoke_all r indices) law laws has h in
      (b, unrevoke_all r indices b, e₁, e₂, λ j. contains-unrevoke_all r set indices b j)
