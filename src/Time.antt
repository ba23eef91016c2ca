-- ===== src/Time.antt =====
-- Datetimes, as `registrations/service.py`, `db/time.py` and the other services read them
-- (apps/api/src/talaqi). An instant is a number of microseconds since 0001-01-01T00:00Z, the first
-- one that a Python datetime can hold. An aware datetime is known by its instant alone: `astimezone`,
-- comparison and `isoformat` after `astimezone(UTC)` depend on nothing else.
use community_platform.Base.{ℕ, ◌+◌, ◌-◌, ◌*◌, Option, none, some, leb, if◌then◌else◌}

pub data Datetime : Type 0 where
  naive : ℕ → Datetime
  aware : ℕ → Datetime

-- datetime.max, 9999-12-31T23:59:59.999999Z
abbrev pub max_instant : ℕ
max_instant = 3652059 * 86400000000 - 1

abbrev pub minute : ℕ
minute = 60000000

-- `astimezone(UTC)` behind the test for a time zone; `none` is the code's raise.
unfoldable pub as_utc : Datetime → Option ℕ
as_utc (naive t) = none
as_utc (aware t) = some t

-- `t + timedelta`, which raises OverflowError past the last datetime.
unfoldable pub add_delta : ℕ → ℕ → Option ℕ
add_delta t d = if leb (t + d) max_instant then some (t + d) else none

-- `t - timedelta`, which raises OverflowError before the first datetime.
unfoldable pub sub_delta : ℕ → ℕ → Option ℕ
sub_delta t d = if leb d t then some (t - d) else none
