-- ===== src/Supervisor/Gate.antt =====
-- hmi/backend/services/supervisor_validation.py: what blocks a command, and the preflight of the
-- servo controls of hmi/backend/services/supervisor_execution.py.
use text.Mathlib.Text.{find?}
use gp4_ws.Common.{
  String, Bool, true, false, Option, none, some, List, [], ◌∷◌, ◌++◌, map, ◌==◌, not, ◌&&◌, ◌||◌,
  any, mem_str, if◌then◌else◌,
}
use gp4_ws.Lifecycle.{
  SystemRuntimeState, fault, estop, timeout, lost_conn, is_blocking_runtime_state,
}
use gp4_ws.Supervisor.Records.{RuntimeMode, sim, hardware, mode_eq, RuntimeSnapshot, ParsedIntent}
use gp4_ws.Supervisor.Store.{Freshness, fresh, SourceStatus, Preflight}

abbrev pub event_driven_source_names : List String
event_driven_source_names = "llm_debug" ∷ "llm_command" ∷ "review_intent_service" ∷ []

abbrev pub post_parse_info_only_source_names : List String
post_parse_info_only_source_names = "gateway_status" ∷ "supervisor_alerts" ∷ []

abbrev pub execution_boundary_source_names : List String
execution_boundary_source_names = "validate_command_service" ∷ "execute_motion_action" ∷ []

unfoldable pub nonblocking_source_names : Bool → List String
nonblocking_source_names enforce_execution_readiness =
    event_driven_source_names
    ++ (post_parse_info_only_source_names
        ++ (if enforce_execution_readiness then [] else execution_boundary_source_names))

abbrev pub keep_if : {A : Type 0} → (A → Bool) → List A → List A
keep_if p [] = []
keep_if p (x ∷ xs) = let rest = keep_if p xs in if p x then x ∷ rest else rest

abbrev contains : String → String → Bool
contains text part = elim (find? text part) [ none ↦ false | some _ ↦ true ]

-- `any(source_name in text for source_name in ignored_source_names)`
abbrev pub names_ignored_source : String → Bool
names_ignored_source text =
    any (contains text) (post_parse_info_only_source_names ++ execution_boundary_source_names)

unfoldable pub filtered_preflight_reasons : Bool → List String → List String
filtered_preflight_reasons enforce_execution_readiness reasons =
    if enforce_execution_readiness
    then reasons
    else keep_if (λ text. not (names_ignored_source text)) reasons

-- The texts of `blocking_reasons`, by what they name
pub data BlockingReason : Type 0 where
  intent_unavailable : BlockingReason
  mode_not_capable : RuntimeMode → BlockingReason
  mode_mismatch : RuntimeMode → RuntimeMode → BlockingReason
  runtime_blocking : SystemRuntimeState → BlockingReason
  telemetry_stale : List String → BlockingReason
  preflight_refused : String → BlockingReason

abbrev pub is_fresh : Freshness → Bool
is_fresh fresh = true
is_fresh _ = false

-- `active` and named by no set of sources that do not block
abbrev pub is_critical : Bool → SourceStatus → Bool
is_critical enforce source =
    source.active && not (mem_str source.name (nonblocking_source_names enforce))

abbrev pub is_stale : Bool → SourceStatus → Bool
is_stale enforce source = is_critical enforce source && not (is_fresh source.freshness)

abbrev pub stale_sources : Bool → List SourceStatus → List String
stale_sources enforce sources = map (λ source. source.name) (keep_if (is_stale enforce) sources)

-- `if test: blocking_reasons.append(reason)`
abbrev pub when_blocked : Bool → BlockingReason → List BlockingReason
when_blocked test reason = if test then reason ∷ [] else []

abbrev pub is_none : Option ParsedIntent → Bool
is_none none = true
is_none (some i) = false

abbrev pub is_nil : {A : Type 0} → List A → Bool
is_nil [] = true
is_nil (x ∷ xs) = false

-- `_validate_command` as far as its `blockingReasons`; `accepted` is that there are none
unfoldable pub blocking_reasons :
    RuntimeSnapshot
    → List SourceStatus
    → Preflight
    → Option ParsedIntent
    → RuntimeMode
    → Bool
    → List BlockingReason
unfolding filtered_preflight_reasons is_blocking_runtime_state nonblocking_source_names
blocking_reasons runtime sources preflight parsed_intent requested_mode enforce =
    when_blocked (is_none parsed_intent) intent_unavailable
    ++ (when_blocked (not (mode_eq requested_mode sim || mode_eq requested_mode hardware))
          (mode_not_capable requested_mode)
        ++ (when_blocked (not (mode_eq runtime.mode requested_mode))
              (mode_mismatch requested_mode runtime.mode)
            ++ (when_blocked (is_blocking_runtime_state runtime.system_state)
                  (runtime_blocking runtime.system_state)
                ++ (when_blocked (not (is_nil (stale_sources enforce sources)))
                      (telemetry_stale (stale_sources enforce sources))
                    ++ (if preflight.accepted
                        then []
                        else map preflight_refused
                            (filtered_preflight_reasons enforce preflight.reasons))))))

unfoldable pub gate_accepted :
    RuntimeSnapshot
    → List SourceStatus
    → Preflight
    → Option ParsedIntent
    → RuntimeMode
    → Bool
    → Bool
unfolding blocking_reasons
gate_accepted runtime sources preflight parsed_intent requested_mode enforce =
    is_nil (blocking_reasons runtime sources preflight parsed_intent requested_mode enforce)

-- The texts of `_servo_control_preflight`
pub data ServoReason : Type 0 where
  not_hardware_mode : ServoReason
  runtime_blocks_servo : SystemRuntimeState → ServoReason
  e_stop_not_clear alarm_active : String → ServoReason
  not_auto : Option String → ServoReason

abbrev pub blocks_servo : SystemRuntimeState → Bool
blocks_servo estop = true
blocks_servo fault = true
blocks_servo lost_conn = true
blocks_servo timeout = true
blocks_servo _ = false

abbrev pub is_auto : Option String → Bool
is_auto none = false
is_auto (some mode) = mode == "AUTO"

abbrev pub when_servo : Bool → ServoReason → List ServoReason
when_servo test reason = if test then reason ∷ [] else []

unfoldable pub servo_control_preflight : RuntimeSnapshot → Bool → List ServoReason
servo_control_preflight runtime require_auto =
    when_servo (not (mode_eq runtime.mode hardware)) not_hardware_mode
    ++ (when_servo (blocks_servo runtime.system_state) (runtime_blocks_servo runtime.system_state)
        ++ (when_servo (not (runtime.robot_status.e_stop == "CLEAR"))
              (e_stop_not_clear runtime.robot_status.e_stop)
            ++ (when_servo (not (runtime.robot_status.alarm_state == "NONE"))
                  (alarm_active runtime.robot_status.alarm_state)
                ++ when_servo (require_auto && not (is_auto runtime.robot_status.motion_mode))
                    (not_auto runtime.robot_status.motion_mode))))
