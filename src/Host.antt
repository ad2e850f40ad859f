-- ===== src/Host.antt =====
-- What the program takes from outside its source: the clock, the file system, hashing, JSON and
-- dates of the standard library, each a field of a record that the models take as a parameter.
-- `W` is the state of the world, which every reading of the clock may move on.
use mailarchive.Base.{ℕ, ◌*◌, Bool, Option, String, List}

-- An instant is a count of microseconds since the first of January of the year 1, in UTC.
abbrev pub Instant : Type 0
Instant = ℕ

abbrev pub Bytes : Type 0
Bytes = List ℕ

-- A `datetime`: without a time zone, or at an instant.
pub data Datetime : Type 0 where
  naive : Datetime
  aware : Instant → Datetime

-- `timedelta(days=1)` and `timedelta(minutes=1)`
abbrev pub day : ℕ
day = 24 * 60 * 60 * 1000000

abbrev pub minute : ℕ
minute = 60 * 1000000

-- The first instant after `datetime.max`.
abbrev pub datetime_end : ℕ
datetime_end = 3652059 * day

-- The values that the source puts into JSON objects.
pub data Json : Type 0 where
  num : ℕ → Json
  text : String → Json
  null : Json

pub record Host (W : Type 0) : Type 0 where
  -- `datetime.now(UTC)`
  pub clock : W → Instant
  pub tick : W → W
  pub isoformat : Instant → String
  -- `datetime.fromisoformat`; `none` is `ValueError`
  pub fromisoformat : String → Option Datetime
  -- `path.resolve(strict=False).is_relative_to(root.resolve(strict=False))`; `none` is
  -- `OSError` or `ValueError`
  pub is_relative_to : W → String → String → Option Bool
  pub is_file : W → String → Bool
  -- `path.read_bytes()`; `none` is `OSError`
  pub read_bytes : W → String → Option Bytes
  -- `value.strip()`, and the number of characters of a text
  pub strip : String → String
  pub count : String → ℕ
  -- `hashlib.sha256(…).hexdigest()`
  pub sha256 : Bytes → String
  -- `json.dumps(…, sort_keys=True, separators=(",", ":")).encode("utf-8")`
  pub dumps : List (String × Json) → Bytes
