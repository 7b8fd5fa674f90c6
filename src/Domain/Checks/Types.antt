-- ===== src/Domain/Checks/Types.antt =====
-- The data classes of domain/checks.py. Instants and durations are in microseconds.
use alert_hub.Prelude.{
  ℕ, Bool, true, false, Option, none, some, List, Text, codes, nonempty, if◌then◌else◌,
}
use alert_hub.Prelude.Order.{Order, pair_order, text_order}

pub data CheckStatus : Type 0 where
  up degraded down stale unknown : CheckStatus

pub data CheckResultState : Type 0 where
  unknown success failure error stale disabled : CheckResultState

pub data CheckAssertionState : Type 0 where
  match mismatch unknown error stale disabled : CheckAssertionState

-- The texts of `status_reason`; `executor s` is `f"executor_{s}"`.
pub data StatusReason : Type 0 where
  executor : CheckResultState → StatusReason
  invalid_data incomplete_data expired_measurements result_up result_failed : StatusReason
  mixed_results confirmed_failures all_sources_up insufficient_sources all_results_up : StatusReason

abbrev pub default_scenario : Text
default_scenario = codes "__alert_hub_default_scenario__"

pub record CheckResultKey : Type 0 where
  pub check_id : Text
  pub source : Text
  pub scenario : Text
  pub variant : Text

abbrev pub key_tuple : CheckResultKey → Text × (Text × (Text × Text))
key_tuple k = (k.check_id, (k.source, (k.scenario, k.variant)))

abbrev pub key_order : Order (Text × (Text × (Text × Text)))
key_order = pair_order text_order (pair_order text_order (pair_order text_order text_order))

pub record CheckCanary : Type 0 where
  pub canary : Text
  pub success : Option Bool
  pub status_reason : Option Text

pub record CheckAssertion : Type 0 where
  pub key : Text
  pub success : Option Bool
  pub status_reason : Option Text
  pub name : Option Text
  pub state : Option CheckAssertionState

pub record CheckTarget : Type 0 where
  pub target_id : Text
  pub name : Text
  pub state : Option CheckResultState
  pub success : Option Bool
  pub duration : Option ℕ
  pub ttfb : Option ℕ
  pub status_reason : Option Text

pub record CheckErrorReason : Type 0 where
  pub reason : Text
  pub count : ℕ

pub record NormalizedCheckResult : Type 0 where
  pub key : CheckResultKey
  pub target : Option Text
  pub success : Option Bool
  pub last_run_at : Option ℕ
  pub duration : Option ℕ
  pub ttfb : Option ℕ
  pub canaries : List CheckCanary
  pub assertions : List CheckAssertion
  pub diagnostics : List Text
  pub known_via_info : Bool
  pub provisional_info_dimensions : Bool
  pub state : Option CheckResultState
  pub targets : List CheckTarget
  pub error_reasons : List CheckErrorReason
  pub logical_source : Option Text

pub record CheckResultView : Type 0 where
  pub key : CheckResultKey
  pub target : Option Text
  pub status : CheckStatus
  pub status_reason : StatusReason
  pub success : Option Bool
  pub last_run_at : Option ℕ
  pub duration : Option ℕ
  pub ttfb : Option ℕ
  pub canaries : List CheckCanary
  pub assertions : List CheckAssertion
  pub is_stale : Bool
  pub data_incomplete : Bool
  pub diagnostics : List Text
  pub state : Option CheckResultState
  pub targets : List CheckTarget
  pub error_reasons : List CheckErrorReason
  pub logical_source : Option Text

pub record CheckPart : Type 0 where
  pub scenario : Text
  pub variant : Text
  pub status : CheckStatus
  pub status_reason : StatusReason
  pub sources_total : ℕ
  pub sources_up : ℕ
  pub stale_results : ℕ
  pub data_incomplete : Bool

pub record AggregatedCheck : Type 0 where
  pub check_id : Text
  pub name : Text
  pub group : Option Text
  pub target : Option Text
  pub targets : List Text
  pub status : CheckStatus
  pub status_reason : StatusReason
  pub last_checked_at : Option ℕ
  pub oldest_checked_at : Option ℕ
  pub sources_total : ℕ
  pub sources_up : ℕ
  pub stale_results : ℕ
  pub data_incomplete : Bool
  pub latency : Option ℕ
  pub scenarios : List Text
  pub parts : List CheckPart
  pub results : List CheckResultView
  pub diagnostics : List Text

abbrev pub is_up : CheckStatus → Bool
is_up CheckStatus.up = true
is_up _ = false

abbrev pub is_degraded : CheckStatus → Bool
is_degraded CheckStatus.degraded = true
is_degraded _ = false

abbrev pub is_down : CheckStatus → Bool
is_down CheckStatus.down = true
is_down _ = false

abbrev pub is_stale : CheckStatus → Bool
is_stale CheckStatus.stale = true
is_stale _ = false

abbrev pub is_unknown : CheckStatus → Bool
is_unknown CheckStatus.unknown = true
is_unknown _ = false

abbrev pub is_invalid_data : StatusReason → Bool
is_invalid_data invalid_data = true
is_invalid_data _ = false

abbrev pub is_insufficient : StatusReason → Bool
is_insufficient insufficient_sources = true
is_insufficient _ = false

-- `result.logical_source or result.key.source`: an empty text is false.
unfoldable pub logical_source : CheckResultView → Text
logical_source v = elim v.logical_source [
  | none ↦ v.key.source
  | some s ↦ if nonempty s then s else v.key.source
]
