-- ===== src/Document/CoreDocument/Invariant.antt =====
-- The invariant of a `CoreDocument`, keys unique in every set and the constraints on identifiers,
-- under the two ways in which its references change.
pub mod Relationships
use mathlib.Core.List.{append_assoc, append-nil}
use zk_identity.Prelude.{
  ◌≡◌, refl, sym, ap, ◌∙◌, subst, Bool, true, false, List, [], ◌∷◌, ◌++◌, ◌&&◌, ◌||◌, any, All,
  arith, any-insert, any-All, All-and, All-imp, Sub, Sub-refl, Sub-append, any-Sub, All-Sub,
}
use zk_identity.Core.OrderedSet.{OrderedSet}
use zk_identity.Core.OrderedSet.Unique.{IsUnique}
use zk_identity.Did.DidUrl.{url_eqb, url_eqb_sym}
use zk_identity.Document.Method.{
  MethodRelationship, authentication, assertion_method, key_agreement, capability_delegation,
  capability_invocation, VerificationMethod, MethodRef, embed, refer, Service, ref_id, is_embedded,
  method_key, ref_key, service_key,
}
use zk_identity.Document.CoreDocument.{
  CoreDocument, related, with_related, verification_relationships,
}
use zk_identity.Document.CoreDocument.Constraints.{
  NoClash, clash, ref_with, embedded_with, method_with, IsConstrained,
}
use zk_identity.Document.CoreDocument.Constraints.Refs.{NoClash-insert, NoClash-Sub}

module _ {X : Type 0} where
  -- every set has distinct keys
  pub record HasUniqueKeys (d : CoreDocument X) : Type 0 where
    pub methods : IsUnique d.verification_method
    pub relations : (r : MethodRelationship) → IsUnique (related d r)
    pub services : IsUnique d.service

  pub record IsWellFormed (d : CoreDocument X) : Type 0 where
    pub keys : HasUniqueKeys d
    pub constrained : IsConstrained d

  -- What was taken out leaves no new clash.
  pub IsConstrained-Sub :
      (d e : CoreDocument X)
      → Sub (verification_relationships e) (verification_relationships d)
      → Sub e.verification_method.items d.verification_method.items
      → Sub e.service.items d.service.items
      → IsConstrained d
      → IsConstrained e
  IsConstrained-Sub d e refs methods services c = record {
    no_clash = NoClash-Sub refs c.no_clash;
    embedded_apart =
        All-imp
          {P = λ (m : VerificationMethod X).
            embedded_with m.id (verification_relationships d) ≡ false}
          {Q = λ (m : VerificationMethod X).
            embedded_with m.id (verification_relationships e) ≡ false}
          (λ (m : VerificationMethod X).
            any-Sub (λ r. url_eqb (ref_id r) m.id && is_embedded r) refs)
          e.verification_method.items (All-Sub _ methods c.embedded_apart);
    services_apart =
        All-imp
          {P = λ (s : Service X).
            (ref_with s.id (verification_relationships d) ≡ false)
            × (method_with s.id d.verification_method.items ≡ false)}
          {Q = λ (s : Service X).
            (ref_with s.id (verification_relationships e) ≡ false)
            × (method_with s.id e.verification_method.items ≡ false)}
          (λ (s : Service X) h. (
            any-Sub (λ r. url_eqb (ref_id r) s.id) refs h.0,
            any-Sub (λ m. url_eqb m.id s.id) methods h.1,
          ))
          e.service.items (All-Sub _ services c.services_apart);
  }

  All-unit : (ms : List (VerificationMethod X)) → All (λ m. Unit {0}) ms
  All-unit [] = tt
  All-unit (m ∷ ms) = (tt, All-unit ms)

  -- one more reference, anywhere
  pub record Extends (d e : CoreDocument X) (x : MethodRef X) : Type 0 where
    pub before : List (MethodRef X)
    pub after : List (MethodRef X)
    pub old : verification_relationships d ≡ before ++ after
    pub new : verification_relationships e ≡ before ++ x ∷ after
    pub methods : e.verification_method ≡ d.verification_method
    pub services : e.service ≡ d.service

  abbrev pub pushed : OrderedSet (MethodRef X) → MethodRef X → OrderedSet (MethodRef X)
  pushed s x = record { items = s.items ++ x ∷ [] }

  pub related-Extends :
      (d : CoreDocument X) (r : MethodRelationship) (x : MethodRef X)
      → Extends d (with_related d r (pushed (related d r) x)) x
  related-Extends d authentication x = record {
    before = d.authentication.items;
    after = _;
    old = refl;
    new = simp append_assoc;
    methods = refl;
    services = refl;
  }
  related-Extends d assertion_method x = record {
    before = d.authentication.items ++ d.assertion_method.items;
    after =
        d.key_agreement.items ++ (d.capability_delegation.items ++ d.capability_invocation.items);
    old = simp append_assoc;
    new = simp append_assoc;
    methods = refl;
    services = refl;
  }
  related-Extends d key_agreement x = record {
    before = d.authentication.items ++ (d.assertion_method.items ++ d.key_agreement.items);
    after = d.capability_delegation.items ++ d.capability_invocation.items;
    old = simp append_assoc;
    new = simp append_assoc;
    methods = refl;
    services = refl;
  }
  related-Extends d capability_delegation x = record {
    before =
        d.authentication.items
        ++ (d.assertion_method.items ++ (d.key_agreement.items ++ d.capability_delegation.items));
    after = d.capability_invocation.items;
    old = simp append_assoc;
    new = simp append_assoc;
    methods = refl;
    services = refl;
  }
  related-Extends d capability_invocation x = record {
    before = verification_relationships d;
    after = [];
    old = simp append-nil;
    new = simp append_assoc;
    methods = refl;
    services = refl;
  }

  -- `any` over the references of an extended document
  pub any-Extends :
      (d e : CoreDocument X) (x : MethodRef X) (p : MethodRef X → Bool)
      → Extends d e x
      → any p (verification_relationships e) ≡ (p x || any p (verification_relationships d))
  any-Extends d e x p ext =
      ap (any p) ext.new
      ∙ any-insert p ext.before x ext.after
      ∙ ap (λ rs. p x || any p rs) (sym ext.old)

  not_general :
      (x : MethodRef X) (ms : List (VerificationMethod X))
      → (is_embedded x ≡ true → method_with (ref_id x) ms ≡ false)
      → All (λ m. url_eqb (ref_id x) m.id && is_embedded x ≡ false) ms
  not_general (refer u) ms h =
      All-imp {P = λ (m : VerificationMethod X). Unit {0}}
        {Q = λ (m : VerificationMethod X). url_eqb u m.id && false ≡ false} (λ m t. ground arith) ms
        (All-unit ms)
  not_general (embed n) ms h =
      All-imp {P = λ (m : VerificationMethod X). url_eqb m.id n.id ≡ false}
        {Q = λ (m : VerificationMethod X). url_eqb n.id m.id && true ≡ false}
        (λ (m : VerificationMethod X). ground (arith, url_eqb_sym n.id m.id)) ms
        (any-All (λ m. url_eqb m.id n.id) ms (h refl))

  -- A new reference must clash with no other, must not embed a general purpose method, and must not
  -- have the identifier of a service.
  pub IsConstrained-Extends :
      (d e : CoreDocument X) (x : MethodRef X)
      → Extends d e x
      → any (clash x) (verification_relationships d) ≡ false
      → (is_embedded x ≡ true → method_with (ref_id x) d.verification_method.items ≡ false)
      → any (λ s. url_eqb s.id (ref_id x)) d.service.items ≡ false
      → IsConstrained d
      → IsConstrained e
  IsConstrained-Extends d e x ext apart general services c = record {
    no_clash = rw ext.new (
        NoClash-insert ext.before x ext.after (subst (λ rs. any (clash x) rs ≡ false) ext.old apart)
          (subst NoClash ext.old c.no_clash));
    embedded_apart = rw ext.methods (
        All-imp
          {P = λ (m : VerificationMethod X).
            (embedded_with m.id (verification_relationships d) ≡ false)
            × (url_eqb (ref_id x) m.id && is_embedded x ≡ false)}
          {Q = λ (m : VerificationMethod X).
            embedded_with m.id (verification_relationships e) ≡ false}
          (λ (m : VerificationMethod X) h.
            any-Extends d e x (λ r. url_eqb (ref_id r) m.id && is_embedded r) ext
            ∙ ground (arith, h.0, h.1))
          d.verification_method.items
          (All-and _ _ _ c.embedded_apart (not_general x d.verification_method.items general)));
    services_apart =
        rw (ext.methods, ext.services)
          (All-imp
            {P = λ (s : Service X).
              ((ref_with s.id (verification_relationships d) ≡ false)
                × (method_with s.id d.verification_method.items ≡ false))
              × (url_eqb s.id (ref_id x) ≡ false)}
            {Q = λ (s : Service X).
              (ref_with s.id (verification_relationships e) ≡ false)
              × (method_with s.id d.verification_method.items ≡ false)}
            (λ (s : Service X) h. (
              any-Extends d e x (λ r. url_eqb (ref_id r) s.id) ext
                  ∙ ground (arith, h.0, h.1, url_eqb_sym (ref_id x) s.id),
              h.0.1,
            ))
            d.service.items (All-and _ _ _ c.services_apart (any-All _ d.service.items services)));
  }
