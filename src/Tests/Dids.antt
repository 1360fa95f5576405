-- ===== src/Tests/Dids.antt =====
-- DIDs and DID Urls at concrete inputs.
use zk_identity.Prelude.{◌≡◌, refl, ◌↔◌, none, some, List, [], ◌∷◌, ◌&&◌, Text, text_eqb}
use zk_identity.Prelude.Outcome.{ok}
use zk_identity.Did.Chars.{
  all_chars, is_char_path, is_char_fragment, starts_with_char, strip_prefix,
}
use zk_identity.Did.RelativeUrl.{RelativeUrl, new, set_path, set_fragment}
use zk_identity.Did.RelativeUrl.Setters.{SetterCall, calls}
use zk_identity.Did.CoreDid.{valid_method_id, BaseDidUrl}
use zk_identity.Did.CoreDid.MethodId.{IsMethodId, valid_method_id_iff}
use zk_identity.Did.DidUrl
use zk_identity.Document.Query.{scheme, matches, same_fragment}
use zk_identity.Document.Query.Printed.{matches-to_string}
use zk_identity.Tests.Data.{sample_did, sample_did-IsDid, url_at, url_m-IsIdentifier}

abbrev three_calls : List SetterCall
three_calls =
    SetterCall.path (some (b'/' ∷ b'p' ∷ []))
    ∷ SetterCall.fragment (some (b'#' ∷ b'f' ∷ []))
    ∷ SetterCall.path (some [])
    ∷ []

abbrev fragment_only : RelativeUrl
fragment_only = record { path = none; query = none; fragment = some (b'#' ∷ b'f' ∷ []) }

calls_run : calls new three_calls ≡ ok fragment_only
unfolding calls set_path set_fragment starts_with_char strip_prefix all_chars is_char_path
    is_char_fragment
calls_run = refl

set_f : set_fragment new (some (b'#' ∷ b'f' ∷ [])) ≡ ok fragment_only
unfolding set_fragment strip_prefix all_chars is_char_fragment
set_f = refl

-- %+1, which is no escape of two hexadecimal digits
abbrev signed_escape : Text
signed_escape = b'%' ∷ b'+' ∷ b'1' ∷ []

valid_method_id_iff_example : (valid_method_id signed_escape ≡ ok tt) ↔ IsMethodId signed_escape
valid_method_id_iff_example = valid_method_id_iff signed_escape

abbrev parsed : BaseDidUrl
parsed = record {
  scheme = scheme;
  method = b'a' ∷ [];
  method_id = b'1' ∷ [];
  path = [];
  query = none;
  fragment = none;
}

matches-to_string_example : matches (DidUrl.to_string (url_at b'm')) (url_at b'n') ≡ (
    text_eqb sample_did.as_str sample_did.as_str
    && same_fragment (DidUrl.fragment (url_at b'm')) (DidUrl.fragment (url_at b'n')))
matches-to_string_example =
    matches-to_string (url_at b'm') (url_at b'n') sample_did-IsDid url_m-IsIdentifier.url
