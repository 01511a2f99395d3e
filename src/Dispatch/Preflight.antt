-- ===== src/Dispatch/Preflight.antt =====
-- hmi/backend/ros/command_dispatch.py: `evaluate_execution_preflight`.
use gp4_ws.Common.{
  String, Bool, true, false, not, ◌||◌, Option, none, some, List, [], ◌∷◌, ◌++◌, ◌==◌,
  if◌then◌else◌,
}
use gp4_ws.Common.Texts.{f_string}
use gp4_ws.Lifecycle.{
  SystemRuntimeState, normal, fault, estop, hold, timeout, lost_conn, safety_blocked,
}
use gp4_ws.Supervisor.Records.{RuntimeMode, sim, hardware, unknown, mode_eq, RuntimeSnapshot}
use gp4_ws.Supervisor.Store.{Freshness, fresh, stale, unavailable, SourceStatus, Preflight}
use gp4_ws.Supervisor.Gate.{is_fresh, is_nil}

-- the values of the enumerations
abbrev pub mode_value : RuntimeMode → String
mode_value sim = "sim"
mode_value hardware = "hardware"
mode_value unknown = "unknown"

abbrev freshness_value : Freshness → String
freshness_value fresh = "fresh"
freshness_value stale = "stale"
freshness_value unavailable = "unavailable"

abbrev system_value : SystemRuntimeState → String
system_value normal = "NORMAL"
system_value fault = "FAULT"
system_value estop = "ESTOP"
system_value hold = "HOLD"
system_value timeout = "TIMEOUT"
system_value lost_conn = "LOST_CONN"
system_value safety_blocked = "SAFETY_BLOCKED"

abbrev pub is_normal : SystemRuntimeState → Bool
is_normal normal = true
is_normal _ = false

-- `RuntimeMode(text) if text in RuntimeMode._value2member_map_ else RuntimeMode.UNKNOWN`
abbrev pub mode_of : String → RuntimeMode
mode_of text = if text == "sim" then sim else (if text == "hardware" then hardware else unknown)

abbrev or_text : String → String → String
or_text text other = if text == "" then other else text

-- `requested_mode`, where `clean` is `text.strip().lower()`
abbrev pub requested_mode : (String → String) → Option String → RuntimeMode → RuntimeMode
requested_mode clean none mode = mode_of (or_text (clean (mode_value mode)) (mode_value mode))
requested_mode clean (some target) mode =
    mode_of (or_text (clean (or_text target (mode_value mode))) (mode_value mode))

-- `{source.name: source for source in source_statuses}.get(name)`: the last of a name counts
abbrev pub source_map : List SourceStatus → String → Option SourceStatus
source_map [] name = none
source_map (source ∷ sources) name = elim (source_map sources name) [
  | some found ↦ some found
  | none ↦ if source.name == name then some source else none
]

abbrev pub required_sources : RuntimeMode → List String
required_sources sim =
    "gateway_status" ∷ "readiness" ∷ "supervisor_alerts" ∷ "joint_states_fallback"
    ∷ "validate_command_service" ∷ "execute_motion_action" ∷ []
required_sources hardware =
    "gateway_status" ∷ "readiness" ∷ "supervisor_alerts" ∷ "robot_status" ∷ "joint_states_primary"
    ∷ "validate_command_service" ∷ "execute_motion_action" ∷ []
required_sources unknown = []

-- `if test: reasons.append(reason)`
unfoldable pub reason_if : Bool → List String → List String
reason_if test parts = if test then f_string parts ∷ [] else []

abbrev pub source_reasons : String → Option SourceStatus → List String
source_reasons name none = f_string ("required telemetry source " ∷ name ∷ " is missing." ∷ []) ∷ []
source_reasons name (some source) =
    reason_if (not source.active) ("required telemetry source " ∷ name ∷ " is inactive." ∷ [])
    ++ reason_if (not (is_fresh source.freshness))
        ("required telemetry source " ∷ name ∷ " is " ∷ freshness_value source.freshness ∷ "." ∷ [])

abbrev pub required_reasons : List SourceStatus → List String → List String
required_reasons sources [] = []
required_reasons sources (name ∷ names) =
    source_reasons name (source_map sources name) ++ required_reasons sources names

abbrev pub primary_reasons : Option SourceStatus → List String
primary_reasons none = []
primary_reasons (some source) =
    reason_if (not source.preferred)
      ("joint_states_primary is not marked preferred in hardware mode." ∷ [])
    ++ reason_if (not source.active)
        ("joint_states_primary is not the active joint source in hardware mode." ∷ [])

abbrev pub status_reasons : Option SourceStatus → List String
status_reasons none = []
status_reasons (some source) =
    reason_if (not source.active) ("robot_status source must stay active in hardware mode." ∷ [])

abbrev pub hardware_reasons : List SourceStatus → RuntimeMode → List String
hardware_reasons sources hardware =
    primary_reasons (source_map sources "joint_states_primary")
    ++ status_reasons (source_map sources "robot_status")
hardware_reasons sources _ = []

abbrev pub preflight_reasons : RuntimeSnapshot → List SourceStatus → RuntimeMode → List String
preflight_reasons runtime sources mode =
    reason_if (not (mode_eq mode sim || mode_eq mode hardware))
      ("runtime mode " ∷ mode_value mode ∷ " is not command-capable." ∷ [])
    ++ (reason_if (not (mode_eq runtime.mode mode)) (
          "requested mode "
          ∷ mode_value mode
          ∷ " does not match runtime mode "
          ∷ mode_value runtime.mode
          ∷ "."
          ∷ [])
        ++ (reason_if (not (is_normal runtime.system_state))
              ("runtime state " ∷ system_value runtime.system_state ∷ " blocks execution." ∷ [])
            ++ (required_reasons sources (required_sources mode) ++ hardware_reasons sources mode)))

unfoldable pub evaluate_execution_preflight :
    (String → String) → RuntimeSnapshot → List SourceStatus → Option String → Preflight
evaluate_execution_preflight clean runtime sources target_mode =
    let reasons =
      preflight_reasons runtime sources (requested_mode clean target_mode runtime.mode) in
    record { accepted = is_nil reasons; reasons = reasons }
