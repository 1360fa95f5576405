-- ===== src/Tests/Data.antt =====
-- Identifiers, methods and services to run the definitions on.
use zk_identity.Prelude.{ℕ, refl, none, some, List, [], ◌∷◌, inl, inr}
use zk_identity.Did.Chars.{all_chars, starts_with, strip_prefix, is_char_fragment}
use zk_identity.Did.RelativeUrl.{fragment_of}
use zk_identity.Did.DidUrl.{CoreDid, DidUrl}
use zk_identity.Document.Query.Printed.{IsDid}
use zk_identity.Document.Method.{VerificationMethod, MethodRef, Service}
use zk_identity.Document.CoreDocument.{CoreDocument}
use zk_identity.Document.CoreDocument.Insertion.{IsIdentifier}

-- did:a:1
abbrev pub sample_did : CoreDid
sample_did = record { as_str = b'd' ∷ b'i' ∷ b'd' ∷ b':' ∷ b'a' ∷ b':' ∷ b'1' ∷ [] }

-- did:a:1#<c>
abbrev pub url_at : ℕ → DidUrl
url_at c = record {
  did = sample_did;
  url = record { path = none; query = none; fragment = some (b'#' ∷ c ∷ []) };
}

abbrev pub sample_method : ℕ → VerificationMethod (Unit {0})
sample_method c = record {
  id = url_at c;
  controller = sample_did;
  type_ = b't' ∷ [];
  material = tt;
}

abbrev pub sample_service : ℕ → Service (Unit {0})
sample_service c = record { id = url_at c; content = tt }

-- a document with methods, the references of two relationships, and services
abbrev pub document :
    List (VerificationMethod (Unit {0}))
    → List (MethodRef (Unit {0}))
    → List (MethodRef (Unit {0}))
    → List (Service (Unit {0}))
    → CoreDocument (Unit {0})
document methods auths keys services = record {
  id = sample_did;
  controller = none;
  also_known_as = record { items = [] };
  verification_method = record { items = methods };
  authentication = record { items = auths };
  assertion_method = record { items = [] };
  key_agreement = record { items = keys };
  capability_delegation = record { items = [] };
  capability_invocation = record { items = [] };
  service = record { items = services };
  content = tt;
}

pub sample_did-IsDid : IsDid sample_did
unfolding starts_with
sample_did-IsDid = record {
  has_scheme = refl;
  plain = (refl, (refl, (refl, (refl, (refl, (refl, (refl, tt)))))));
}

pub url_m-IsIdentifier : IsIdentifier (url_at b'm')
unfolding fragment_of all_chars is_char_fragment strip_prefix
url_m-IsIdentifier = record {
  did = sample_did-IsDid;
  url = record { path = inl refl; query = inl refl; fragment = inr (b'm' ∷ [], refl, refl) };
  has_fragment = refl;
}
