-- ===== src/Core/Timestamp.antt =====
-- `Timestamp` of identity_core/src/common/timestamp.rs: a point in time in UTC, in whole seconds.
use zk_identity.Prelude.{
  ◌≡◌, Bool, Option, none, some, ◌&&◌, if◌then◌else◌, ℤ, pos, int_leb, int_eqb, arith,
}

-- What the crate time computes on Unix timestamps: which it accepts, their year, and the current one.
pub record Time : Type 0 where
  pub is_representable : ℤ → Bool
  pub year : ℤ → ℤ
  pub now : ℤ

-- an `OffsetDateTime` in UTC without a fraction of a second is its Unix timestamp
pub record Timestamp : Type 0 where
  pub unix : ℤ

-- `to_unix`
abbrev pub to_unix : Timestamp → ℤ
to_unix t = t.unix

-- `(0..10_000).contains(&year)`
abbrev pub is_rfc3339_year : ℤ → Bool
is_rfc3339_year y = int_leb (pos 0) y && int_leb y (pos 9999)

module _ (time : Time) where
  -- `none` is `Error::InvalidTimestamp`
  unfoldable pub from_unix : ℤ → Option Timestamp
  unfolding int_leb
  from_unix seconds =
      if time.is_representable seconds
      then (if is_rfc3339_year (time.year seconds) then some (record { unix = seconds }) else none)
      else none

  -- `Default`
  abbrev pub now_utc : Timestamp
  now_utc = record { unix = time.now }

-- the derived `Ord` and `Eq`
unfoldable pub timestamp_leb : Timestamp → Timestamp → Bool
timestamp_leb a b = int_leb a.unix b.unix

unfoldable pub timestamp_eqb : Timestamp → Timestamp → Bool
timestamp_eqb a b = int_eqb a.unix b.unix

-- A timestamp that `from_unix` makes has the seconds it was made from.
pub from_unix-eq :
    (time : Time) (seconds : ℤ) {t : Timestamp} → from_unix time seconds ≡ some t → t.unix ≡ seconds
unfolding from_unix
from_unix-eq time seconds h = ground arith
