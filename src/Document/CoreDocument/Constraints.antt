-- ===== src/Document/CoreDocument/Constraints.antt =====
-- `check_id_constraints` of identity_document/src/document/core_document.rs, and the constraints
-- that it decides.
pub mod Decides
pub mod Refs
use zk_identity.Prelude.{
  ◌≡◌, Bool, true, false, Option, none, some, List, [], ◌∷◌, if◌then◌else◌, ◌&&◌, ◌||◌, any, All,
  is_some,
}
use zk_identity.Prelude.Outcome.{Outcome, ok, err, ◌>>=◌}
use zk_identity.Did.DidUrl.{DidUrl, url_eqb}
use zk_identity.Document.Method.{VerificationMethod, MethodRef, Service, ref_id, is_embedded}
use zk_identity.Document.CoreDocument.{
  CoreDocument, DocumentError, duplicated_or_aliased_embedded_method, aliased_embedded_method,
  duplicated_embedded_method, shared_service_identifier, verification_relationships,
}

-- `HashMap<&DIDUrl, bool>`: the latest entry of a key counts
abbrev pub Identifiers : Type 0
Identifiers = List (DidUrl × Bool)

unfoldable pub lookup : DidUrl → Identifiers → Option Bool
lookup k [] = none
lookup k ((j, b) ∷ ids) = let rest = lookup k ids in if url_eqb j k then some b else rest

-- `.insert(method_id, false).filter(|value| *value).is_some()`
abbrev pub was_embedded : Option Bool → Bool
was_embedded none = false
was_embedded (some b) = b

module _ {X : Type 0} where
  -- the loop over the references
  unfoldable pub check_refs : Identifiers → List (MethodRef X) → Outcome DocumentError Identifiers
  check_refs ids [] = ok ids
  check_refs ids (r ∷ rs) =
      let rest = check_refs ((ref_id r, is_embedded r) ∷ ids) rs in
      elim (lookup (ref_id r) ids) [
        | none ↦ rest
        | some previous ↦
            if previous
            then err duplicated_or_aliased_embedded_method
            else if is_embedded r
            then err aliased_embedded_method
            else rest
      ]

  unfoldable pub check_methods :
      Identifiers → List (VerificationMethod X) → Outcome DocumentError Identifiers
  check_methods ids [] = ok ids
  check_methods ids (m ∷ ms) =
      let rest = check_methods ((m.id, false) ∷ ids) ms in
      if was_embedded (lookup m.id ids) then err duplicated_embedded_method else rest

  unfoldable pub check_services : Identifiers → List (Service X) → Outcome DocumentError (Unit {0})
  check_services ids [] = ok tt
  check_services ids (s ∷ ss) =
      let rest = check_services ids ss in
      if is_some (lookup s.id ids) then err shared_service_identifier else rest

  unfoldable pub check_id_constraints : CoreDocument X → Outcome DocumentError (Unit {0})
  check_id_constraints d = do
    ids ← check_refs [] (verification_relationships d)
    all ← check_methods ids d.verification_method.items
    check_services all d.service.items

  -- `TryFrom<CoreDocumentData>`
  unfoldable pub try_from : CoreDocument X → Outcome DocumentError (CoreDocument X)
  unfolding check_id_constraints
  try_from value = do checked ← check_id_constraints value; ok value

  -- two references may share an identifier only if neither embeds a method
  abbrev pub clash : MethodRef X → MethodRef X → Bool
  clash r s = url_eqb (ref_id r) (ref_id s) && (is_embedded r || is_embedded s)

  abbrev pub NoClash : List (MethodRef X) → Type 0
  NoClash [] = Unit
  NoClash (r ∷ rs) = (any (clash r) rs ≡ false) × NoClash rs

  abbrev pub ref_with : DidUrl → List (MethodRef X) → Bool
  ref_with k rs = any (λ r. url_eqb (ref_id r) k) rs

  abbrev pub embedded_with : DidUrl → List (MethodRef X) → Bool
  embedded_with k rs = any (λ r. url_eqb (ref_id r) k && is_embedded r) rs

  abbrev pub method_with : DidUrl → List (VerificationMethod X) → Bool
  method_with k ms = any (λ m. url_eqb m.id k) ms

  -- The constraints: embedded methods are neither repeated nor referred to; they are no general purpose
  -- methods; and no service has the identifier of a method or reference.
  pub record IsConstrained (d : CoreDocument X) : Type 0 where
    pub no_clash : NoClash (verification_relationships d)
    pub embedded_apart :
        All
          (λ m. embedded_with m.id (verification_relationships d) ≡ false)
          d.verification_method.items
    pub services_apart :
        All
          (λ s.
            (ref_with s.id (verification_relationships d) ≡ false)
            × (method_with s.id d.verification_method.items ≡ false))
          d.service.items
