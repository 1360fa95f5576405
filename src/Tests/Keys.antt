-- ===== src/Tests/Keys.antt =====
-- Keys, the two storages and a document with keyed methods, to run the definitions on.
use zk_identity.Prelude.{ℕ, refl, none, some, Option, List, [], ◌∷◌, Text, codes}
use zk_identity.Prelude.HashMap
use zk_identity.Did.CoreDid.{BaseDidUrl}
use zk_identity.Did.DidUrl.Join.{Parser}
use zk_identity.Document.Method.{VerificationMethod, MethodRef}
use zk_identity.Document.Method.Material.{MethodData, public_key_base58, public_key_jwk, custom}
use zk_identity.Document.CoreDocument.{CoreDocument}
use zk_identity.Jose.Types.{okp}
use zk_identity.Jose.Params.{okp_params}
use zk_identity.Jose.Jwk.{Jwk}
use zk_identity.Storage.Digest.{Hashes}
use zk_identity.Storage.JwkMemStore.{Crypto, KeyPair, new_mem_store, mem_store}
use zk_identity.Storage.KeyIdMemstore.{key_id_mem_store}
use zk_identity.Storage.DocumentExt.{World, Env}
use zk_identity.Storage.DocumentExt.Failing.{IsParser}
use zk_identity.Tests.Data.{sample_did, url_at, sample_did-IsDid}

-- 32 bytes
abbrev pub sample_pair : KeyPair
sample_pair = record {
  private_key =
      1 ∷ 2 ∷ 3 ∷ 4 ∷ 5 ∷ 6 ∷ 7 ∷ 8 ∷ 1 ∷ 2 ∷ 3 ∷ 4 ∷ 5 ∷ 6 ∷ 7 ∷ 8 ∷ 1 ∷ 2 ∷ 3 ∷ 4 ∷ 5 ∷ 6 ∷ 7 ∷ 8
      ∷ 1 ∷ 2 ∷ 3 ∷ 4 ∷ 5 ∷ 6 ∷ 7 ∷ 8 ∷ [];
  public_key = 9 ∷ [];
}

-- bytes are their own base64, and a signature is the key before the message
abbrev pub sample_crypto : Crypto
sample_crypto = record {
  encode_b64 = λ bytes. bytes;
  decode_b64 = some;
  ed25519_sign = λ key message. message;
  draws = λ n. record { key_id = b'i' ∷ n ∷ []; keys = some sample_pair };
}

abbrev pub sample_hashes : Hashes
sample_hashes = record {
  sha256 = λ bytes. b'h' ∷ [];
  seahash = λ chunks. 7;
  decode_multibase = some;
  decode_base58 = some;
}

abbrev pub after_first : Text → Text
after_first [] = []
after_first (c ∷ s) = s

abbrev pub base_with : Option Text → BaseDidUrl
base_with fragment = record {
  scheme = codes "did";
  method = codes "a";
  method_id = codes "1";
  path = [];
  query = none;
  fragment = fragment;
}

-- a parser of `did:a:1` alone, to which fragments are joined
abbrev pub sample_parser : Parser
sample_parser = record {
  parse = λ input. some (base_with none);
  join = λ b segment. some (base_with (some (after_first segment)));
  cleared_text = λ b. sample_did.as_str;
}

pub sample_parser-IsParser : IsParser sample_parser
sample_parser-IsParser = record { plain = λ b. sample_did-IsDid }

abbrev pub sample_env : Env MethodData
sample_env = record {
  material = record { data_of = λ d. d; of_data = λ d. d; data_of-of_data = λ d. refl };
  parser = sample_parser;
  hashes = sample_hashes;
}

abbrev pub keyed_method : ℕ → VerificationMethod MethodData
keyed_method c = record {
  id = url_at c;
  controller = sample_did;
  type_ = codes "t";
  material = public_key_base58 (codes "k");
}

abbrev pub keyed :
    List (VerificationMethod MethodData) → List (MethodRef MethodData) → CoreDocument MethodData
keyed methods auths = record {
  id = sample_did;
  controller = none;
  also_known_as = record { items = [] };
  verification_method = record { items = methods };
  authentication = record { items = auths };
  assertion_method = record { items = [] };
  key_agreement = record { items = [] };
  capability_delegation = record { items = [] };
  capability_invocation = record { items = [] };
  service = record { items = [] };
  content = custom [] [];
}

abbrev pub Memory : Type 0
Memory = World MethodData (mem_store sample_hashes sample_crypto) key_id_mem_store

-- a document over empty storages
abbrev pub fresh : CoreDocument MethodData → Memory
fresh document = record { document = document; keys = new_mem_store; key_ids = HashMap.new }

-- the public part of the key that the storages generate, and the method with it
abbrev pub generated_public : Jwk
generated_public = record {
  kty = okp;
  use_ = none;
  key_ops = none;
  alg = some (codes "EdDSA");
  kid = some (codes "h");
  x5u = none;
  x5c = none;
  x5t = none;
  x5t_s256 = none;
  params = okp_params (record { crv = codes "Ed25519"; x = 9 ∷ []; d = none });
}

abbrev pub generated_method : VerificationMethod MethodData
generated_method = record {
  id = url_at b'm';
  controller = sample_did;
  type_ = codes "JsonWebKey2020";
  material = public_key_jwk generated_public;
}
