-- ===== src/Tests/Bitmaps.antt =====
-- A set of numbers, an encoding and a reader, to run the validation of credentials on.
use zk_identity.Prelude.{
  ap, ◌∙◌, ◌+◌, ◌*◌, ◌/◌, ◌%◌, drop, ltb, leb, Text, Option, if◌then◌else◌, ℕ, ◌≡◌, refl, sym, true,
  not, ◌&&◌, none, some, List, [], ◌∷◌, ◌++◌, codes, arith, eqb, any, reject, pos,
}
use mathlib.Core.Option.{some-injective}
use zk_identity.Core.OneOrMany.{one}
use zk_identity.Core.Timestamp.{Time}
use zk_identity.Did.Chars.{strip_text, strip_text-append}
use zk_identity.Document.CoreDocument.{CoreDocument}
use zk_identity.Credential.Types.{
  Credential, Status, url_context, base_context, base_type, url, string,
}
use zk_identity.Credential.BitmapStatus.{index_property}
use zk_identity.Credential.RevocationBitmap.{
  Roaring, Codec, Services, ServiceEndpoint, one_url, bitmap_type, header, data_url_pattern,
}
use zk_identity.Credential.RevocationBitmap.Encoding.{IsLossless}
use zk_identity.Credential.RevocationBitmap.Encoding.Readable.{sextet, IsStandard}
use zk_identity.Credential.RevocationBitmap.Update.{IsRoaring}
use zk_identity.Credential.Validation.{Reader}
use zk_identity.Credential.Validation.Revoked.{IsReader}
use zk_identity.Tests.Data.{sample_did, url_at}
use zk_identity.Tests.Keys.{base_with}

abbrev pub number_set : Roaring
number_set = record {
  Bitmap = List ℕ;
  empty = [];
  contains = λ b i. any (λ j. eqb j i) b;
  insert = λ b i. (i ∷ b, not (any (λ j. eqb j i) b));
  remove = λ b i. (reject (λ j. eqb j i) b, any (λ j. eqb j i) b);
  serialize_into = some;
  deserialize_from = some;
}

any-reject :
    (b : List ℕ) (i j : ℕ)
    → any (λ k. eqb k j) (reject (λ k. eqb k i) b) ≡ (not (eqb i j) && any (λ k. eqb k j) b)
unfolding any reject
any-reject [] i j = ground arith
any-reject (k ∷ b) i j = ground (arith, any-reject b i j)

number_set-IsRoaring : IsRoaring number_set
unfolding any
number_set-IsRoaring = record {
  contains-insert = λ b i j. ground arith;
  contains-remove = any-reject;
}

-- the encoding puts the header before the bytes
abbrev pub with_header : Codec
with_header = record {
  compress_zlib = some;
  decompress_zlib = some;
  encode_b64url = λ bytes. header ++ bytes;
  decode_b64url = λ text. strip_text header text;
  decode_b64 = λ text. none;
  from_utf8 = some;
  parse_url = some;
}

with_header-IsLossless : IsLossless number_set with_header
with_header-IsLossless = record {
  serialized = λ b e. sym e;
  compressed = λ bytes e. sym e;
  encoded = λ bytes. strip_text-append header bytes;
  parsed = λ bytes e. sym (some-injective _ _ e);
}

abbrev kept : List ℕ → Text
kept [] = 0 ∷ 0 ∷ 0 ∷ 0 ∷ []
kept (a ∷ []) = 0 ∷ 0 ∷ 0 ∷ 0 ∷ a ∷ []
kept (a ∷ b ∷ []) = 0 ∷ 0 ∷ 0 ∷ 0 ∷ a ∷ b ∷ []
kept (a ∷ b ∷ c ∷ bytes) =
    sextet (a / 4)
    ∷ sextet (a % 4 * 16 + b / 16)
    ∷ sextet (b % 16 * 4 + c / 64)
    ∷ sextet (c % 64)
    ∷ a
    ∷ b
    ∷ c
    ∷ bytes

-- a text may not go on after an ASCII byte with one from 0x80 to 0xbf
abbrev ascii_first : List ℕ → Option Text
ascii_first (a ∷ b ∷ bytes) =
    if ltb a 0x80 && (leb 0x80 b && ltb b 0xc0) then none else some (a ∷ b ∷ bytes)
ascii_first bytes = some bytes

-- A codec that puts 78 9c before the bytes, writes the characters of the first three, and keeps the
-- bytes behind them.
abbrev pub zlib_text : List ℕ → Text
zlib_text bytes = kept (0x78 ∷ 0x9c ∷ bytes)

abbrev pub zlib_codec : Codec
zlib_codec = record with_header {
  compress_zlib = λ bytes. some (0x78 ∷ 0x9c ∷ bytes);
  decompress_zlib = λ bytes. some (drop 2 bytes);
  encode_b64url = kept;
  decode_b64url = λ text. some (drop 4 text);
  decode_b64 = λ text. some (drop 4 text);
  from_utf8 = ascii_first;
}

kept_lem : (bytes : List ℕ) → drop 4 (kept bytes) ≡ bytes
kept_lem [] = refl
kept_lem (a ∷ []) = refl
kept_lem (a ∷ b ∷ []) = refl
kept_lem (a ∷ b ∷ c ∷ bytes) = refl

pub zlib_codec-IsLossless : IsLossless number_set zlib_codec
zlib_codec-IsLossless = record {
  serialized = λ b e. sym e;
  compressed = λ bytes e. ap (λ z. some (drop 2 z)) (sym (some-injective _ _ e));
  encoded = λ bytes. ap some (kept_lem bytes);
  parsed = λ bytes e. sym (some-injective _ _ e);
}

pub zlib_codec-IsStandard : IsStandard zlib_codec
zlib_codec-IsStandard = record {
  sextets = λ a b c bytes. (a ∷ b ∷ c ∷ bytes, refl);
  same_bytes = λ bytes e. sym (some-injective _ _ e) ∙ kept_lem bytes;
  utf8 = λ a b bytes small low high. ground arith;
}

abbrev pub endpoint_service : Services ServiceEndpoint
endpoint_service = record {
  types_of = λ c. bitmap_type ∷ [];
  endpoint_of = λ c. c;
  with_endpoint = λ c e. e;
}

abbrev pub sample_reader : Reader ServiceEndpoint
sample_reader = record {
  roaring = number_set;
  codec = with_header;
  services = endpoint_service;
  parser = record {
    parse = λ input. some (base_with (some (codes "s")));
    join = λ b segment. some b;
    cleared_text = λ b. sample_did.as_str;
  };
  urls = record { query_pairs = λ url. []; did_text = some };
}

pub sample_reader-IsReader : IsReader sample_reader
sample_reader-IsReader = record {
  roaring = number_set-IsRoaring;
  lossless = with_header-IsLossless;
  services = record {
    endpoint_of-with_endpoint = λ c e. refl;
    types_of-with_endpoint = λ c e. refl;
  };
}

-- an issuer whose service s holds the given bitmap
abbrev pub issuer_with : List ℕ → CoreDocument ServiceEndpoint
issuer_with bitmap = record {
  id = sample_did;
  controller = none;
  also_known_as = record { items = [] };
  verification_method = record { items = [] };
  authentication = record { items = [] };
  assertion_method = record { items = [] };
  key_agreement = record { items = [] };
  capability_delegation = record { items = [] };
  capability_invocation = record { items = [] };
  service = record {
    items =
        record { id = url_at b's'; content = one_url (data_url_pattern ++ (header ++ bitmap)) }
        ∷ [];
  };
  content = one_url [];
}

-- the status at index 5 of that bitmap
abbrev pub status_five : Status
status_five = record {
  id = codes "did:a:1#s";
  type_ = bitmap_type;
  properties = (index_property, string (codes "5")) ∷ [];
}

abbrev pub sample_credential : Credential (Unit {0})
sample_credential = record {
  context = one (url_context base_context);
  id = some (codes "c");
  types = one base_type;
  credential_subject = one (record { id = some (codes "h"); properties = [] });
  issuer = url sample_did.as_str;
  issuance_date = record { unix = pos 50 };
  expiration_date = some (record { unix = pos 200 });
  credential_status = some status_five;
  non_transferable = some true;
  content = tt;
}

-- every date is in the year 2000, and it is second 100
abbrev pub sample_time : Time
sample_time = record {
  is_representable = λ seconds. true;
  year = λ seconds. pos 2000;
  now = pos 100;
}
