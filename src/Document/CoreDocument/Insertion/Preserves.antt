-- ===== src/Document/CoreDocument/Insertion/Preserves.antt =====
-- The invariant under `insert_method` of core_document.rs.
use zk_identity.Prelude.{
  ◌≡◌, refl, subst, Bool, false, List, [], ◌∷◌, ◌++◌, ◌&&◌, any, arith, any-append, any-imp,
  any-All, All-imp, All-and, All-snoc, any-left, any-right,
}
use zk_identity.Prelude.Outcome.{ok}
use zk_identity.Core.OrderedSet.{contains, append}
use zk_identity.Core.OrderedSet.Unique.{append-IsUnique}
use zk_identity.Did.DidUrl
use zk_identity.Did.DidUrl.{DidUrl, did_eqb, did_eqb_iff, url_eqb, url_eqb_refl, url_eqb_sym}
use zk_identity.Document.Query.{matches}
use zk_identity.Document.Method.{
  MethodRelationship, authentication, assertion_method, key_agreement, capability_delegation,
  capability_invocation, MethodScope, verification_relationship, VerificationMethod, MethodRef,
  embed, Service, ref_id, is_embedded, method_key, ref_key, service_key,
}
use zk_identity.Document.CoreDocument.{
  CoreDocument, related, verification_relationships, store_method, insert_method,
}
use zk_identity.Document.CoreDocument.Constraints.{clash, ref_with, method_with}
use zk_identity.Document.CoreDocument.Invariant.{IsWellFormed, pushed}
use zk_identity.Document.CoreDocument.Relate.{append_ref-IsWellFormed}
use zk_identity.Document.CoreDocument.Insertion.{
  IsIdentifier, IsClosed, IsFree, asked, matches-equal, insert_method-IsFree,
}

module _ {X : Type 0} where
  any-related :
      (p : MethodRef X → Bool) (d : CoreDocument X) (r : MethodRelationship)
      → any p (verification_relationships d) ≡ false
      → any p (related d r).items ≡ false
  any-related p d authentication h = any-left p d.authentication.items _ h
  any-related p d assertion_method h =
      any-left p d.assertion_method.items _ (any-right p d.authentication.items _ h)
  any-related p d key_agreement h =
      any-left p d.key_agreement.items _
        (any-right p d.assertion_method.items _ (any-right p d.authentication.items _ h))
  any-related p d capability_delegation h = any-left p d.capability_delegation.items _ (
      any-right p d.key_agreement.items _
        (any-right p d.assertion_method.items _ (any-right p d.authentication.items _ h)))
  any-related p d capability_invocation h = any-right p d.capability_delegation.items _ (
      any-right p d.key_agreement.items _
        (any-right p d.assertion_method.items _ (any-right p d.authentication.items _ h)))

  method_with-snoc :
      (k : DidUrl) (m : VerificationMethod X) (ms : List (VerificationMethod X))
      → method_with k ms ≡ false
      → url_eqb m.id k ≡ false
      → method_with k (ms ++ m ∷ []) ≡ false
  unfolding any
  method_with-snoc k m ms h g = ground (arith, any-append (λ n. url_eqb n.id k) ms (m ∷ []))

  module _ (d : CoreDocument X) (m : VerificationMethod X) (i : IsIdentifier m.id)
      (free : IsFree d (DidUrl.to_string m.id)) where
    pub unused_ref : ref_with m.id (verification_relationships d) ≡ false
    unused_ref =
        any-imp (λ r. url_eqb (ref_id r) m.id) (asked (DidUrl.to_string m.id))
          (λ r e. matches-equal m.id (ref_id r) i (url_eqb_sym (ref_id r) m.id e))
          (verification_relationships d) free.refs

    pub unused_method : method_with m.id d.verification_method.items ≡ false
    unused_method =
        any-imp (λ n. url_eqb n.id m.id) (λ n. matches (DidUrl.to_string m.id) n.id)
          (λ n e. matches-equal m.id n.id i (url_eqb_sym n.id m.id e)) d.verification_method.items
          free.methods

    pub absent_method : contains d.verification_method m.id ≡ false
    unfolding contains
    absent_method = unused_method

    unused_service : any (λ s. url_eqb s.id m.id) d.service.items ≡ false
    unused_service =
        any-imp (λ s. url_eqb s.id m.id) (λ s. matches (DidUrl.to_string m.id) s.id)
          (λ s e. matches-equal m.id s.id i (url_eqb_sym s.id m.id e)) d.service.items free.services

    -- the new entry of a set of distinct keys
    pub stored_method :
        (append d.verification_method m).0.items ≡ d.verification_method.items ++ m ∷ []
    unfolding append contains
    stored_method = rw unused_method refl

    pub stored_ref :
        (r : MethodRelationship)
        → contains (related d r) m.id ≡ false
        → (append (related d r) (embed m)).0 ≡ pushed (related d r) (embed m)
    unfolding append
    stored_ref r h = rw h refl

    pub unrelated : (r : MethodRelationship) → contains (related d r) m.id ≡ false
    unfolding contains
    unrelated r = any-related (λ x. url_eqb (ref_id x) m.id) d r unused_ref

    stored_general-IsWellFormed :
        IsWellFormed d → IsWellFormed (store_method d m MethodScope.verification_method)
    stored_general-IsWellFormed w = record {
      keys = record {
        methods = append-IsUnique d.verification_method m w.keys.methods;
        relations = λ r. w.keys.relations r;
        services = w.keys.services;
      };
      constrained = record {
        no_clash = w.constrained.no_clash;
        embedded_apart = rw stored_method (
            All-snoc _ d.verification_method.items m w.constrained.embedded_apart (
              any-imp (λ r. url_eqb (ref_id r) m.id && is_embedded r) (λ r. url_eqb (ref_id r) m.id)
                (λ r. ground arith) (verification_relationships d) unused_ref));
        services_apart = rw stored_method (
            All-imp
              {P = λ (s : Service X).
                ((ref_with s.id (verification_relationships d) ≡ false)
                  × (method_with s.id d.verification_method.items ≡ false))
                × (url_eqb s.id m.id ≡ false)}
              {Q = λ (s : Service X).
                (ref_with s.id (verification_relationships d) ≡ false)
                × (method_with s.id (d.verification_method.items ++ m ∷ []) ≡ false)}
              (λ (s : Service X) h. (
                h.0.0,
                method_with-snoc s.id m d.verification_method.items h.0.1
                    (ground (arith, h.1, url_eqb_sym m.id s.id)),
              ))
              d.service.items
              (All-and _ _ _ w.constrained.services_apart
                (any-All _ d.service.items unused_service)));
      };
    }

    stored_ref-IsWellFormed :
        (r : MethodRelationship)
        → IsWellFormed d
        → IsWellFormed (store_method d m (verification_relationship r))
    stored_ref-IsWellFormed r w =
        append_ref-IsWellFormed d r (embed m)
          (λ new. (
            any-imp (clash (embed m)) (λ x. url_eqb (ref_id x) m.id)
                (λ x. ground (arith, url_eqb_sym m.id (ref_id x))) (verification_relationships d)
                unused_ref,
            (λ embedded. unused_method),
            unused_service,
          ))
          w

  stored-IsWellFormed :
      (d : CoreDocument X) (m : VerificationMethod X) (scope : MethodScope)
      → IsIdentifier m.id
      → IsFree d (DidUrl.to_string m.id)
      → IsWellFormed d
      → IsWellFormed (store_method d m scope)
  stored-IsWellFormed d m MethodScope.verification_method i free w =
      stored_general-IsWellFormed d m i free w
  stored-IsWellFormed d m (verification_relationship r) i free w =
      stored_ref-IsWellFormed d m i free r w

  -- When a method is inserted into a well-formed document in which every reference resolves, and its
  -- identifier has a plain DID, valid segments and a fragment, the document that results is
  -- well-formed.
  pub insert_method-IsWellFormed :
      (d : CoreDocument X) (m : VerificationMethod X) (scope : MethodScope) {e : CoreDocument X}
      → IsIdentifier m.id
      → insert_method d m scope ≡ ok e
      → IsClosed d
      → IsWellFormed d
      → IsWellFormed e
  insert_method-IsWellFormed d m scope i h closed w =
      let (free, same) = insert_method-IsFree d m scope h closed in
      subst IsWellFormed same (stored-IsWellFormed d m scope i free w)
