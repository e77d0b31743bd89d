-- ===== src/Timestamp.antt =====
-- Python's `datetime` and `timedelta`, as far as the program goes: a time is a number of
-- microseconds since the first representable one, in UTC if it carries a zone. Comparing a naive
-- with an aware time is a TypeError (`none`), and a sum past `datetime.max` an OverflowError
-- (`none`). Zones of changing offset are not modelled: the program's own clock is in UTC.
use investment_tracker.Prelude.{ℕ, ◌+◌, Bool, true, false, Option, none, some, ltb, leb, ◌==◌}

pub data Timestamp : Type 0 where
  naive : ℕ → Timestamp
  aware : ℕ → Timestamp

abbrev pub instant : Timestamp → ℕ
instant (naive t) = t
instant (aware t) = t

-- `value.tzinfo is not None and value.utcoffset() is not None`
abbrev pub is_aware : Timestamp → Bool
is_aware (naive t) = false
is_aware (aware t) = true

-- `a == b`, which is false between a naive and an aware time
abbrev pub same_time : Timestamp → Timestamp → Bool
same_time (naive a) (naive b) = a == b
same_time (aware a) (aware b) = a == b
same_time (naive a) (aware b) = false
same_time (aware a) (naive b) = false

-- `a < b`
abbrev pub before : Timestamp → Timestamp → Option Bool
before (naive a) (naive b) = some (ltb a b)
before (aware a) (aware b) = some (ltb a b)
before (naive a) (aware b) = none
before (aware a) (naive b) = none

-- 9999-12-31T23:59:59.999999
abbrev pub max_instant : ℕ
max_instant = 315537897599999999

abbrev pub in_range : Bool → Timestamp → Option Timestamp
in_range true t = some t
in_range false t = none

-- `a + d`
abbrev pub plus : Timestamp → ℕ → Option Timestamp
plus (naive a) d = in_range (leb (a + d) max_instant) (naive (a + d))
plus (aware a) d = in_range (leb (a + d) max_instant) (aware (a + d))

-- A signed `timedelta` in microseconds; `behind n` is -(n + 1).
pub data Duration : Type 0 where
  ahead : ℕ → Duration
  behind : ℕ → Duration

-- `d > timedelta(0)`
abbrev pub is_positive : Duration → Bool
is_positive (ahead d) = ltb 0 d
is_positive (behind d) = false

abbrev pub micros : Duration → ℕ
micros (ahead d) = d
micros (behind d) = 0
