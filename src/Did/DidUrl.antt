-- ===== src/Did/DidUrl.antt =====
-- `DIDUrl` of identity_did/src/did_url.rs. A `CoreDID` wraps the parsed value of the crate
-- `did_url_parser`, which keeps its text and compares by it: it is that text here.
pub mod Join
use zk_identity.Prelude.{
  ap, ◌≡◌, arith, Bool, true, Option, none, some, ◌++◌, ◌&&◌, Text, PartialEq, text_eq, text_eqb,
  text_eqb_iff, text_eqb_sound, text_eqb_refl, text_eqb_sym, text_eqb_trans,
}
use zk_identity.Prelude.Outcome.{Outcome, ok, ◌>>=◌}
use zk_identity.Did.RelativeUrl
use zk_identity.Did.RelativeUrl.{
  RelativeUrl, DidError, relative_eqb, relative_eqb_refl, relative_eqb_sym, relative_eqb_trans,
  fragment_of,
}
use zk_identity.Core.OrderedSet.{KeyComparable}

pub record CoreDid : Type 0 where
  pub as_str : Text

pub record DidUrl : Type 0 where
  pub did : CoreDid
  pub url : RelativeUrl

-- `DIDUrl::new`
abbrev pub new : CoreDid → Option RelativeUrl → DidUrl
new did none = record { did = did; url = RelativeUrl.new }
new did (some url) = record { did = did; url = url }

unfoldable pub to_string : DidUrl → Text
to_string u = u.did.as_str ++ RelativeUrl.to_string u.url

abbrev pub fragment : DidUrl → Option Text
fragment u = fragment_of u.url

-- The setters replace the relative Url, or one segment of it; the errors are those of `RelativeDIDUrl`.
abbrev pub set_url : DidUrl → RelativeUrl → DidUrl
set_url u url = record u { url = url }

unfoldable pub set_url_path : DidUrl → Option Text → Outcome DidError DidUrl
set_url_path u value = do url ← RelativeUrl.set_path u.url value; ok (set_url u url)

unfoldable pub set_url_query : DidUrl → Option Text → Outcome DidError DidUrl
set_url_query u value = do url ← RelativeUrl.set_query u.url value; ok (set_url u url)

unfoldable pub set_url_fragment : DidUrl → Option Text → Outcome DidError DidUrl
set_url_fragment u value = do url ← RelativeUrl.set_fragment u.url value; ok (set_url u url)

-- `DIDUrl::map` and `DIDUrl::try_map`
unfoldable pub map_did : (CoreDid → CoreDid) → DidUrl → DidUrl
map_did f u = record u { did = f u.did }

unfoldable pub try_map : {E : Type 0} → (CoreDid → Outcome E CoreDid) → DidUrl → Outcome E DidUrl
try_map f u = do did ← f u.did; ok (record u { did = did })

unfoldable pub did_eqb : CoreDid → CoreDid → Bool
did_eqb a b = text_eqb a.as_str b.as_str

unfoldable pub url_eqb : DidUrl → DidUrl → Bool
unfolding did_eqb
url_eqb u v = did_eqb u.did v.did && relative_eqb u.url v.url

pub did_eqb_iff : (a b : CoreDid) → (did_eqb a b ≡ true) → a.as_str ≡ b.as_str
unfolding did_eqb
did_eqb_iff a b = (text_eqb_iff a.as_str b.as_str).0

pub did_eqb_sound : (a b : CoreDid) → did_eqb a b ≡ true → a ≡ b
unfolding did_eqb
did_eqb_sound a b h = ap (λ t. record { as_str = t }) (text_eqb_sound a.as_str b.as_str h)

pub did_eqb_refl : (a : CoreDid) → did_eqb a a ≡ true
unfolding did_eqb
did_eqb_refl a = text_eqb_refl a.as_str

pub did_eqb_sym : (a b : CoreDid) → did_eqb a b ≡ true → did_eqb b a ≡ true
unfolding did_eqb
did_eqb_sym a b = text_eqb_sym a.as_str b.as_str

pub did_eqb_trans : (a b c : CoreDid) → did_eqb a b ≡ true → did_eqb b c ≡ true → did_eqb a c ≡ true
unfolding did_eqb
did_eqb_trans a b c = text_eqb_trans a.as_str b.as_str c.as_str

pub url_eqb_refl : (u : DidUrl) → url_eqb u u ≡ true
unfolding url_eqb
url_eqb_refl u = rw (text_eqb_refl u.did.as_str) (relative_eqb_refl u.url)

pub url_eqb_sym : (u v : DidUrl) → url_eqb u v ≡ true → url_eqb v u ≡ true
unfolding url_eqb
url_eqb_sym u v h = ground (
  arith,
  text_eqb_iff u.did.as_str v.did.as_str,
  text_eqb_iff v.did.as_str u.did.as_str,
  relative_eqb_sym u.url v.url,
)

pub url_eqb_trans : (u v w : DidUrl) → url_eqb u v ≡ true → url_eqb v w ≡ true → url_eqb u w ≡ true
unfolding url_eqb
url_eqb_trans u v w h k = ground (
  arith,
  text_eqb_iff u.did.as_str v.did.as_str,
  text_eqb_iff v.did.as_str w.did.as_str,
  text_eqb_iff u.did.as_str w.did.as_str,
  relative_eqb_trans u.url v.url w.url,
)

instance abbrev pub url_eq : PartialEq DidUrl
url_eq = record {
  eq = url_eqb;
  eq_refl = url_eqb_refl;
  eq_sym = url_eqb_sym;
  eq_trans = url_eqb_trans;
}

instance abbrev pub url_key : KeyComparable DidUrl
url_key = record { Key = DidUrl; key_eq = url_eq; key = λ u. u }

-- the derived `Eq` of `CoreDID`
instance abbrev pub did_eq : PartialEq CoreDid
did_eq = record {
  eq = did_eqb;
  eq_refl = did_eqb_refl;
  eq_sym = did_eqb_sym;
  eq_trans = did_eqb_trans;
}

instance abbrev pub did_key : KeyComparable CoreDid
did_key = record { Key = CoreDid; key_eq = did_eq; key = λ d. d }
