-- ===== src/Domain/Checks/Views.antt =====
-- `_result_view`.
use alert_hub.Prelude.{
  ℕ, ◌+◌, ◌≤◌, ◌<◌, ◌≡◌, ◌⊎◌, refl, Bool, true, false, not, ◌&&◌, ◌||◌, Option, none, some, List,
  [], ◌∷◌, Text, codes, text_eq, contains, any, ltb, if◌then◌else◌, arith, inl, inr, Bool-cases,
  ltb→lt,
}
use alert_hub.Domain.Checks.Types.{
  CheckStatus, CheckResultState, StatusReason, NormalizedCheckResult, CheckResultView, executor,
  invalid_data, incomplete_data, expired_measurements, result_up, result_failed, is_stale,
  is_unknown,
}

-- `any(diagnostic in names for diagnostic in diagnostics)`
unfoldable pub any_named : List Text → List Text → Bool
any_named names diagnostics = any (λ d. contains d names) diagnostics

abbrev pub timestamp_faults : List Text
timestamp_faults = codes "invalid_timestamp" ∷ codes "conflicting_timestamp" ∷ []

abbrev pub status_faults : List Text
status_faults =
    codes "invalid_status"
    ∷ codes "conflicting_status"
    ∷ codes "invalid_state"
    ∷ codes "conflicting_state"
    ∷ codes "conflicting_state_status"
    ∷ []

abbrev pub inventory_faults : List Text
inventory_faults = codes "invalid_info" ∷ []

abbrev pub primary_faults : List Text
primary_faults =
    codes "missing_status"
    ∷ codes "invalid_status"
    ∷ codes "conflicting_status"
    ∷ codes "invalid_state"
    ∷ codes "conflicting_state"
    ∷ codes "conflicting_state_status"
    ∷ codes "missing_timestamp"
    ∷ codes "invalid_timestamp"
    ∷ codes "conflicting_timestamp"
    ∷ codes "invalid_info"
    ∷ codes "missing_current_result"
    ∷ []

-- `result.state in {"unknown", "error", "disabled"}`, with the state.
abbrev pub idle_state : Option CheckResultState → Option CheckResultState
idle_state (some CheckResultState.unknown) = some CheckResultState.unknown
idle_state (some CheckResultState.error) = some CheckResultState.error
idle_state (some CheckResultState.disabled) = some CheckResultState.disabled
idle_state _ = none

abbrev pub is_stale_state : Option CheckResultState → Bool
is_stale_state (some CheckResultState.stale) = true
is_stale_state _ = false

-- The reason where no result can be read.
abbrev pub unreadable : Bool → StatusReason
unreadable invalid = if invalid then invalid_data else incomplete_data

-- An idle executor's state decides unless the data are invalid.
abbrev pub idle_or :
    Option CheckResultState → Bool → CheckStatus × StatusReason → CheckStatus × StatusReason
idle_or none invalid rest = rest
idle_or (some s) invalid rest = if invalid then rest else (CheckStatus.unknown, executor s)

abbrev pub success_status : Option Bool → Bool → CheckStatus × StatusReason
success_status none invalid = (CheckStatus.unknown, unreadable invalid)
success_status (some true) invalid = (CheckStatus.up, result_up)
success_status (some false) invalid = (CheckStatus.down, result_failed)

-- The `if` chain; `invalid` is `invalid_status or invalid_inventory`.
unfoldable pub view_status :
    Option ℕ
    → ℕ
    → ℕ
    → Option CheckResultState
    → Option Bool
    → Bool
    → Bool
    → CheckStatus × StatusReason
view_status none now stale_after state success bad_time invalid =
    idle_or (idle_state state) (bad_time || invalid)
      (CheckStatus.unknown, unreadable (bad_time || invalid))
view_status (some run_at) now stale_after state success bad_time invalid =
    if ltb (run_at + stale_after) now
    then (CheckStatus.stale, expired_measurements)
    else if is_stale_state state && not invalid
    then (CheckStatus.stale, executor CheckResultState.stale)
    else idle_or (idle_state state) invalid (success_status success invalid)

unfoldable pub result_view : ℕ → ℕ → NormalizedCheckResult → CheckResultView
unfolding view_status
result_view now stale_after r =
    let bad_time = any_named timestamp_faults r.diagnostics in
    let invalid =
      any_named status_faults r.diagnostics || any_named inventory_faults r.diagnostics in
    let (status, reason) =
      view_status r.last_run_at now stale_after r.state r.success bad_time invalid in
    record {
      key = r.key;
      target = r.target;
      status = status;
      status_reason = reason;
      success = r.success;
      last_run_at = r.last_run_at;
      duration = r.duration;
      ttfb = r.ttfb;
      canaries = r.canaries;
      assertions = r.assertions;
      is_stale = is_stale status;
      data_incomplete = is_unknown status || any_named primary_faults r.diagnostics;
      diagnostics = r.diagnostics;
      state = r.state;
      targets = r.targets;
      error_reasons = r.error_reasons;
      logical_source = r.logical_source;
    }

-- What a status says of the run that it was read from.
abbrev pub Backs : ℕ → ℕ → Option ℕ → Option CheckResultState → Option Bool → CheckStatus → Type 0
Backs now stale_after run state success CheckStatus.up =
    (success ≡ some true) × ((t : ℕ) × (run ≡ some t) × (now ≤ t + stale_after))
Backs now stale_after run state success CheckStatus.down =
    (success ≡ some false) × ((t : ℕ) × (run ≡ some t) × (now ≤ t + stale_after))
Backs now stale_after run state success CheckStatus.stale =
    (t : ℕ) × (run ≡ some t) × ((t + stale_after < now) ⊎ (is_stale_state state ≡ true))
Backs now stale_after run state success CheckStatus.degraded = ⊥
Backs now stale_after run state success CheckStatus.unknown = Unit

success_status-Backs :
    (t now stale_after : ℕ) (state : Option CheckResultState) (success : Option Bool)
    (invalid : Bool)
    → now ≤ t + stale_after
    → Backs now stale_after (some t) state success (success_status success invalid).0
success_status-Backs t now stale_after state none invalid h = tt
success_status-Backs t now stale_after state (some true) invalid h = (refl, (t, refl, h))
success_status-Backs t now stale_after state (some false) invalid h = (refl, (t, refl, h))

idle_or-Backs :
    (now stale_after : ℕ) (run : Option ℕ) (state : Option CheckResultState) (success : Option Bool)
    (idle : Option CheckResultState) (invalid : Bool) (rest : CheckStatus × StatusReason)
    → Backs now stale_after run state success rest.0
    → Backs now stale_after run state success (idle_or idle invalid rest).0
idle_or-Backs now stale_after run state success none invalid rest h = h
idle_or-Backs now stale_after run state success (some s) true rest h = h
idle_or-Backs now stale_after run state success (some s) false rest h = tt

view_status-Backs :
    (run : Option ℕ) (now stale_after : ℕ) (state : Option CheckResultState) (success : Option Bool)
    (bad_time invalid : Bool)
    → Backs now stale_after run state success
        (view_status run now stale_after state success bad_time invalid).0
unfolding view_status
view_status-Backs none now stale_after state success bad_time invalid =
    idle_or-Backs now stale_after none state success (idle_state state) (bad_time || invalid) _ tt
view_status-Backs (some t) now stale_after state success bad_time invalid =
    elim (Bool-cases (ltb (t + stale_after) now)) [
      | inl expired ↦ rw expired (t, refl, inl (ltb→lt _ _ expired))
      | inr fresh ↦ elim (Bool-cases (is_stale_state state && not invalid)) [
        | inl said ↦ rw (fresh, said) (t, refl, inr (ground arith))
        | inr other ↦
            rw (fresh, other)
              (idle_or-Backs now stale_after (some t) state success (idle_state state) invalid _
                (success_status-Backs t now stale_after state success invalid (ground arith)))
      ]
    ]

-- A vote counts only if it is fresh: a result shown up or down ran within the time allowed and
-- reported just that; one shown stale has run, and has expired or was reported stale; and no single
-- result is degraded.
pub result_view-Backs :
    (now stale_after : ℕ) (r : NormalizedCheckResult)
    → let v = result_view now stale_after r in
      Backs now stale_after v.last_run_at v.state v.success v.status
unfolding result_view
result_view-Backs now stale_after r =
    view_status-Backs r.last_run_at now stale_after r.state r.success
      (any_named timestamp_faults r.diagnostics)
      (any_named status_faults r.diagnostics || any_named inventory_faults r.diagnostics)
