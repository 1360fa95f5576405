-- ===== src/Tests/KeyStores.antt =====
-- The keys of the storages, and the methods that are made from them, at concrete inputs.
use zk_identity.Prelude.{
  text_eq, text_eqb_sound, subst, sym, Bool-cases, inl, inr, arith, ℕ, ◌<◌, All, ◌≡◌, refl, ◌↔◌,
  true, false, none, some, List, [], ◌∷◌, Text, codes, text_eqb, if◌then◌else◌, find, any,
}
use mathlib.Core.Option.{some-injective}
use zk_identity.Prelude.HashMap
use zk_identity.Prelude.Outcome.{ok, panic}
use zk_identity.Core.OrderedSet.{append, contains}
use zk_identity.Did.Chars.{all_chars, is_char_fragment, starts_with_char, strip_prefix}
use zk_identity.Did.CoreDid.{BaseDidUrl}
use zk_identity.Did.DidUrl
use zk_identity.Did.DidUrl.{DidUrl}
use zk_identity.Did.DidUrl.Join.{join, Parser}
use zk_identity.Did.RelativeUrl
use zk_identity.Did.RelativeUrl.{fragment_of, set_fragment, set_path, set_query, relative_eqb}
use zk_identity.Jose.Jwk.{is_public, to_public, is_private, thumbprint_hash_input}
use zk_identity.Jose.Jwk.Public.{IsTyped, to_public_lem}
use zk_identity.Jose.Params.{params_kty}
use zk_identity.Jose.Types.{eddsa, okp}
use zk_identity.Document.CoreDocument.{insert_method, query}
use zk_identity.Document.CoreDocument.Edit.{remove_method_and_scope}
use zk_identity.Document.CoreDocument.Insertion.Undo.{remove_method_and_scope-insert_method}
use zk_identity.Document.Method.{MethodScope, method_key, ref_key, service_key}
use zk_identity.Document.Method.Material.{new_from_jwk, public_key_jwk}
use zk_identity.Document.Method.Material.Identified.{
  IsResolving, IsPlainDid, name_of, fragment_url, new_from_jwk_lem,
}
use zk_identity.Storage.Digest.{pack, unpack}
use zk_identity.Storage.Digest.Packed.{unpack_iff}
use zk_identity.Storage.JwkMemStore
use zk_identity.Storage.JwkMemStore.{
  mem_store, new_mem_store, generate_checks, generate_with, generated_jwk, MemStore,
}
use zk_identity.Storage.JwkMemStore.Generated.{sign-generate}
use zk_identity.Storage.JwkMemStore.Bbs.{
  BbsCrates, generate_bbs, bls12381_sha256, bls_jwk, encode_bls_jwk,
}
use zk_identity.Storage.JwkMemStore.Stored.{started, after_generate_bbs}
use zk_identity.Storage.JwkMemStore.Signing.{IsEdKey, HasBlsKey, sign-panic_iff}
use zk_identity.Storage.KeyIdMemstore.{digest_eq}
use zk_identity.Storage.Traits.{MethodDigest}
use zk_identity.Tests.Data.{url_at, sample_did, url_m-IsIdentifier}
use zk_identity.Tests.Keys.{
  base_with, after_first, sample_crypto, sample_env, sample_hashes, keyed, keyed_method,
  generated_method, sample_pair, sample_parser, generated_public,
}
use zk_identity.Tests.Storage.{named, no_key-IsClosed}

abbrev with_one_key : MemStore
with_one_key =
    (JwkMemStore.generate sample_hashes sample_crypto new_mem_store (codes "Ed25519") eddsa).0

abbrev bbs_crates : BbsCrates
bbs_crates = record {
  alg_text = λ alg. codes "BLS12381_SHA256";
  random_keypair = λ n alg. some (record { private_key = 1 ∷ []; x = 2 ∷ []; y = 3 ∷ [] });
}

-- a store that holds a key for BBS+ signatures
abbrev with_bbs_key : MemStore
with_bbs_key =
    (generate_bbs sample_hashes sample_crypto bbs_crates new_mem_store (codes "BLS12381G2")
      bls12381_sha256).0

-- an Ed25519 public key with that key's id
sign-panic_iff_example :
    ((JwkMemStore.sign sample_hashes sample_crypto with_bbs_key
        (b'i' ∷ 0 ∷ [])
        (codes "hi")
        generated_public).1
      ≡ panic)
    ↔ (IsEdKey generated_public × HasBlsKey with_bbs_key (b'i' ∷ 0 ∷ []))
sign-panic_iff_example =
    sign-panic_iff with_bbs_key (b'i' ∷ 0 ∷ []) (codes "hi") generated_public
      (after_generate_bbs new_mem_store (codes "BLS12381G2") bls12381_sha256 started)

bbs_key_panics :
    (JwkMemStore.sign sample_hashes sample_crypto with_bbs_key
      (b'i' ∷ 0 ∷ [])
      (codes "hi")
      generated_public).1
    ≡ panic
unfolding JwkMemStore.sign generate_bbs encode_bls_jwk bls_jwk to_public generated_jwk text_eqb
    HashMap.get JwkMemStore.sign_checks JwkMemStore.sign_with HashMap.insert
    JwkMemStore.expand_secret_jwk
bbs_key_panics = refl

generated_key :
    JwkMemStore.generate sample_hashes sample_crypto new_mem_store (codes "Ed25519") eddsa
    ≡ (with_one_key, ok (record { key_id = b'i' ∷ 0 ∷ []; jwk = generated_public }))
unfolding JwkMemStore.generate generate_checks text_eqb generate_with to_public generated_jwk
generated_key = refl

sign-generate_example :
    JwkMemStore.sign sample_hashes sample_crypto with_one_key
      (b'i' ∷ 0 ∷ [])
      (codes "hi")
      generated_public
    ≡ (with_one_key, ok (codes "hi"))
sign-generate_example =
    sign-generate sample_hashes sample_crypto new_mem_store (codes "Ed25519") eddsa (codes "hi")
      {pair = sample_pair} refl refl refl generated_key

generated-IsTyped : IsTyped (generated_jwk sample_hashes sample_crypto sample_pair eddsa)
unfolding generated_jwk params_kty
generated-IsTyped = record { typed = refl }

generated_to_public :
    to_public (generated_jwk sample_hashes sample_crypto sample_pair eddsa) ≡ some generated_public
unfolding to_public generated_jwk
generated_to_public = refl

to_public_lem_example :
    (is_public generated_public ≡ true)
    × (is_private generated_public ≡ false)
    × (thumbprint_hash_input generated_public
        ≡ thumbprint_hash_input (generated_jwk sample_hashes sample_crypto sample_pair eddsa))
    × (generated_public.kty ≡ okp)
    × (generated_public.kid ≡ some (codes "h"))
    × (generated_public.alg ≡ some (codes "EdDSA"))
unfolding generated_jwk
to_public_lem_example =
    to_public_lem (generated_jwk sample_hashes sample_crypto sample_pair eddsa) generated-IsTyped
      generated_to_public

-- a parser of `did:a:1` and no other text
abbrev did_parser : Parser
did_parser = record {
  parse = λ t. if text_eqb t sample_did.as_str then some (base_with none) else none;
  join = λ b segment. some (record b { fragment = some (after_first segment) });
  cleared_text = λ b. sample_did.as_str;
}

did_parser-printed :
    (t : Text) {b : BaseDidUrl} → did_parser.parse t ≡ some b → sample_did.as_str ≡ t
did_parser-printed t h = elim (Bool-cases (text_eqb t sample_did.as_str)) [
  | inl same ↦ sym (text_eqb_sound t sample_did.as_str same)
  | inr other ↦ absurd (ground arith)
]

did_parser-IsResolving : IsResolving did_parser
did_parser-IsResolving = record {
  keeps = λ b f {c} n e.
      subst
        (λ (c : BaseDidUrl).
          (c.path ≡ b.path)
          × (c.query ≡ b.query)
          × (c.fragment ≡ some f)
          × (sample_did.as_str ≡ sample_did.as_str))
        (some-injective _ _ e) (refl, refl, refl, refl);
  printed = λ t h path query fragment. did_parser-printed t h;
}

sample_did-IsPlainDid : IsPlainDid did_parser sample_did
unfolding text_eqb
sample_did-IsPlainDid b h =
    subst (λ (b : BaseDidUrl). (b.path ≡ []) × (b.query ≡ none) × (b.fragment ≡ none))
      (some-injective _ _ h) (refl, refl, refl)

constructs :
    new_from_jwk sample_env.material did_parser sample_did generated_public named
    ≡ ok generated_method
unfolding new_from_jwk join starts_with_char set_path set_query set_fragment strip_prefix all_chars
    is_char_fragment fragment_of is_public insert_method text_eqb DidUrl.to_string
    RelativeUrl.to_string
constructs = refl

new_from_jwk_lem_example :
    (generated_method.id ≡ record { did = sample_did; url = fragment_url (name_of (codes "m")) })
    × (generated_method.type_ ≡ codes "JsonWebKey2020")
    × (generated_method.controller ≡ sample_did)
    × (generated_method.material ≡ public_key_jwk generated_public)
    × (is_public generated_public ≡ true)
unfolding starts_with_char strip_prefix
new_from_jwk_lem_example =
    new_from_jwk_lem sample_env.material did_parser sample_did generated_public named (codes "m")
      did_parser-IsResolving sample_did-IsPlainDid refl (refl, refl) constructs

inserts :
    insert_method (keyed [] []) (keyed_method b'm') MethodScope.verification_method
    ≡ ok (keyed (keyed_method b'm' ∷ []) [])
unfolding insert_method query find append contains any join
inserts = refl

remove_method_and_scope-insert_method_example :
    remove_method_and_scope (keyed (keyed_method b'm' ∷ []) []) (url_at b'm')
    ≡ (keyed [] [], some (keyed_method b'm', MethodScope.verification_method))
remove_method_and_scope-insert_method_example =
    remove_method_and_scope-insert_method (keyed [] []) (keyed_method b'm')
      MethodScope.verification_method (no_key-IsClosed []) url_m-IsIdentifier inserts

joins : join sample_parser (url_at b'k') (codes "#m") ≡ ok (url_at b'm')
unfolding join starts_with_char set_path set_query set_fragment strip_prefix all_chars
    is_char_fragment
joins = refl

abbrev packed : List ℕ
packed = 0 ∷ 7 ∷ 1 ∷ 0 ∷ 0 ∷ 0 ∷ 0 ∷ 0 ∷ 0 ∷ []

abbrev packed_digest : MethodDigest
packed_digest = record { version = 0; value = 263 }

packed_small : All (λ b. b < 256) packed
packed_small = (
  omega arith,
  (
    omega arith,
    (
      omega arith,
      (omega arith, (omega arith, (omega arith, (omega arith, (omega arith, (omega arith, tt)))))),
    ),
  ),
)

unpack_iff_example :
    (unpack packed ≡ ok packed_digest)
    ↔ ((packed_digest.version ≡ 0) × (packed ≡ pack packed_digest))
unpack_iff_example = unpack_iff packed packed_digest packed_small (omega arith)
