-- ===== src/Domain/Severity.antt =====
-- `normalize_severity` of backend/alert_hub/domain/events.py.
use alert_hub.Prelude.{◌||◌, Text, codes, ◌==◌, text_eq, if◌then◌else◌}
use alert_hub.Prelude.Texts.{strip}
use alert_hub.Runtime.{Value, Runtime, truthy, py_str}

pub data Severity : Type 0 where
  info warning critical unknown : Severity

abbrev pub severity_name : Severity → Text
severity_name info = codes "info"
severity_name warning = codes "warning"
severity_name critical = codes "critical"
severity_name unknown = codes "unknown"

-- The names and the aliases; anything else is unknown.
unfoldable pub severity_of_name : Text → Severity
severity_of_name s =
    if s == codes "ok" || s == codes "notice" || s == codes "info"
    then info
    else if s == codes "minor" || s == codes "warn" || s == codes "warning"
    then warning
    else if s == codes "error" || s == codes "fatal" || s == codes "page" || s == codes "critical"
    then critical
    else unknown

-- `str(value or "unknown").strip().lower()`
unfoldable pub normalize_severity : Runtime → Value → Severity
unfolding severity_of_name strip py_str truthy
normalize_severity rt v =
    severity_of_name (rt.lower (strip (if truthy v then py_str rt v else codes "unknown")))
