-- ===== src/Billing/Env.antt =====
-- What a handler takes from outside: the clock, a new UUID, and four functions of Python's library
-- whose results the code only passes on.
use saasmint.Base.{ℕ, Option, none, some, String, leb, if◌then◌else◌}
use saasmint.Domain.{Uuid, Time}
use saasmint.Json.{Value, str}
use saasmint.Database.Result.{Result, ok, err, Error}

-- `parse_uuid` is `UUID(text)` with `none` for its ValueError, `text_of` is `str(value)` at a value that
-- is no text, `show_uuid` is `str(uuid)`, and `lower` is `str.lower`.
pub record Texts : Type 0 where
  pub parse_uuid : String → Option Uuid
  pub text_of : Value → String
  pub show_uuid : Uuid → String
  pub lower : String → String

-- `now` is `datetime.now(UTC)` and `fresh_id` is `uuid4()`.
pub record Env : Type 0 where
  pub now : Time
  pub fresh_id : Uuid
  pub texts : Texts

-- `str(value)`
unfoldable pub to_text : Texts → Value → String
to_text e (str s) = s
to_text e v = e.text_of v

-- `UUID(value)` of a value that is not None: a text that is no UUID is a ValueError, and any other
-- value has no `.replace`.
unfoldable pub to_uuid : Texts → Value → Result Uuid
to_uuid e (str s) = elim (e.parse_uuid s) [ none ↦ err Error.value_error | some u ↦ ok u ]
to_uuid e v = err Error.attribute_error

-- The last second of the year 9999; `datetime.fromtimestamp` raises a ValueError beyond it.
abbrev pub max_timestamp : ℕ
max_timestamp = 253402300799

unfoldable pub from_timestamp : ℕ → Result Time
from_timestamp t = if leb t max_timestamp then ok t else err Error.value_error
