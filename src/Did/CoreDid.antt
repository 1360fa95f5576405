-- ===== src/Did/CoreDid.antt =====
-- The validation of DIDs in identity_did/src/did.rs.
pub mod MethodId
use zk_identity.Prelude.{
  ℕ, zero, suc, ◌+◌, ◌-◌, ◌*◌, ◌≡◌, refl, sym, subst, ◌↔◌, Bool, true, false, Option, none, some,
  List, [], ◌∷◌, ◌&&◌, ◌||◌, not, arith, eqb, leb, Text, text_eqb, if◌then◌else◌, take, is_some,
  Bool-cases, inl, inr,
}
use zk_identity.Prelude.Outcome.{Outcome, ok, err, ◌>>=◌, ◌>>◌}
use zk_identity.Did.Chars.{in_range, is_char_method_name, is_char_method_id, all_chars, is_empty}
use zk_identity.Did.RelativeUrl.{DidError, invalid_method_id, invalid_method_name, invalid_scheme}

-- `valid_method_name`
unfoldable pub valid_method_name : Text → Outcome DidError (Unit {0})
valid_method_name value =
    if not (all_chars is_char_method_name value) then err invalid_method_name else ok tt

-- `char::to_digit(16)`
unfoldable pub to_digit : ℕ → Option ℕ
to_digit c =
    if in_range b'0' b'9' c
    then some (c - b'0')
    else if in_range b'a' b'f' c
    then some (c - b'a' + 10)
    else if in_range b'A' b'F' c
    then some (c - b'A' + 10)
    else none

-- `u8::from_str_radix(src, 16)`: a leading `+` is allowed, no digits are an error, and so is overflow.
unfoldable pub from_digits : ℕ → Text → Option ℕ
from_digits value [] = some value
from_digits value (c ∷ s) = elim (to_digit c) [
  | none ↦ none
  | some d ↦ if leb (value * 16 + d) 255 then from_digits (value * 16 + d) s else none
]

unfoldable pub from_str_radix : Text → Option ℕ
unfolding from_digits
from_str_radix [] = none
from_str_radix (c ∷ s) =
    if eqb c b'+' then if is_empty s then none else from_digits 0 s else from_digits 0 (c ∷ s)

-- The loop of `valid_method_id`; `skip` counts the characters that `chars.next()` still has to pass.
unfoldable pub method_id_loop : ℕ → Text → Outcome DidError (Unit {0})
unfolding from_str_radix
method_id_loop skip [] = ok tt
method_id_loop (suc skip) (c ∷ chars) = method_id_loop skip chars
method_id_loop zero (c ∷ chars) =
    let escaped = method_id_loop 2 chars in
    let next = method_id_loop 0 chars in
    if eqb c b'%'
    then elim (from_str_radix (take 2 chars)) [ none ↦ err invalid_method_id | some v ↦ escaped ]
    else if is_char_method_id c
    then next
    else err invalid_method_id

unfoldable pub valid_method_id : Text → Outcome DidError (Unit {0})
unfolding method_id_loop
valid_method_id value = method_id_loop 0 value

-- What the crate `did_url_parser` answers for a DID Url that it has parsed.
pub record BaseDidUrl : Type 0 where
  pub scheme : Text
  pub method : Text
  pub method_id : Text
  pub path : Text
  pub query : Option Text
  pub fragment : Option Text

-- `CoreDID::check_validity`
unfoldable pub check_validity : Text → BaseDidUrl → Outcome DidError (Unit {0})
unfolding valid_method_name valid_method_id
check_validity scheme did = do
  valid_method_name did.method
  valid_method_id did.method_id
  if not (text_eqb did.scheme scheme)
      then err invalid_scheme
      else if not (is_empty did.path) || (is_some did.fragment || is_some did.query)
      then err invalid_method_id
      else ok tt

-- `set_method_name` and `set_method_id`, over the setters of the crate
unfoldable pub set_method_name :
    (BaseDidUrl → Text → BaseDidUrl) → BaseDidUrl → Text → Outcome DidError BaseDidUrl
set_method_name set_base did value = do valid_method_name value; ok (set_base did value)

unfoldable pub set_method_id :
    (BaseDidUrl → Text → BaseDidUrl) → BaseDidUrl → Text → Outcome DidError BaseDidUrl
set_method_id set_base did value = do valid_method_id value; ok (set_base did value)
