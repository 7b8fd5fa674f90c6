-- ===== src/Domain/Time.antt =====
-- `as_utc` of backend/alert_hub/domain/events.py.
use alert_hub.Prelude.{
  ℕ, Option, none, some, [], ◌∷◌, ◌++◌, Text, codes, ◌==◌, nat_eq, Result, ok, raise, value_error,
  attribute_error, or_else, if◌then◌else◌,
}
use alert_hub.Prelude.Texts.{strip}
use alert_hub.Runtime.{DateTime, naive, aware, Value, Runtime}
use alert_hub.Runtime.Value.{null, text, datetime}

-- A naive reading is taken as UTC; an aware one keeps its instant.
abbrev pub to_utc : DateTime → ℕ
to_utc (naive t) = t
to_utc (aware t) = t

-- `value.replace("Z", "+00:00")`
unfoldable pub replace_z : Text → Text
replace_z [] = []
replace_z (c ∷ s) = let rest = replace_z s in if c == b'Z' then codes "+00:00" ++ rest else c ∷ rest

abbrev pub parsed_utc : Option DateTime → Result ℕ
parsed_utc none = raise value_error
parsed_utc (some d) = ok (to_utc d)

-- `now` is what `utc_now()` would return.
unfoldable pub as_utc : Runtime → ℕ → Value → Option ℕ → Result ℕ
unfolding strip replace_z
as_utc rt now null default = ok (or_else default now)
as_utc rt now (text s) default = parsed_utc (rt.from_iso (replace_z (strip s)))
as_utc rt now (datetime d) default = ok (to_utc d)
as_utc rt now _ default = raise attribute_error
