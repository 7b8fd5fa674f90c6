-- ===== src/Infrastructure/Cidrs.antt =====
-- `normalize_cidrs` of backend/alert_hub/infrastructure/request_security.py.
use alert_hub.Prelude.{
  none, some, List, [], Text, nonempty, Result, ok, raise, value_error, if◌then◌else◌,
}
use alert_hub.Prelude.Sets.{add_new}
use alert_hub.Prelude.Texts.{strip}
use alert_hub.Runtime.{Values, Runtime, py_str}
use alert_hub.Runtime.Values.{nil, cons}
use alert_hub.Prelude.{text_eq}

-- The networks of the values, added to those that are there.
unfoldable pub collect_cidrs : Runtime → Values → List Text → Result (List Text)
unfolding strip py_str add_new
collect_cidrs rt nil normalized = ok normalized
collect_cidrs rt (cons raw vs) normalized =
    let skipped = collect_cidrs rt vs normalized in
    if nonempty (strip (py_str rt raw))
    then elim (rt.ip_network (strip (py_str rt raw))) [
      | none ↦ raise value_error
      | some network ↦ collect_cidrs rt vs (add_new network normalized)
    ]
    else skipped

unfoldable pub normalize_cidrs : Runtime → Values → Result (List Text)
normalize_cidrs rt values = collect_cidrs rt values []
