-- ===== src/Dispatch/Required.antt =====
-- What the preflight of the adapter accepts.
use gp4_ws.Common.{
  String, Bool, true, false, not, ◌||◌, Option, none, some, List, [], ◌∷◌, ◌++◌, ◌≡◌, refl, ap, sym,
  ◌∙◌, ◌↔◌, ◌⊎◌, inl, inr, All,
}
use gp4_ws.Lifecycle.{SystemRuntimeState, normal}
use gp4_ws.Supervisor.Records.{RuntimeMode, sim, hardware, unknown, mode_eq, RuntimeSnapshot}
use gp4_ws.Supervisor.Store.{Freshness, fresh, SourceStatus}
use gp4_ws.Supervisor.Gate.{is_fresh, is_nil}
use gp4_ws.Dispatch.Preflight.{
  mode_value, is_normal, requested_mode, source_map, required_sources, reason_if, source_reasons,
  required_reasons, primary_reasons, status_reasons, hardware_reasons, preflight_reasons,
  evaluate_execution_preflight,
}

-- A source that is there, active and fresh
pub record Live (found : Option SourceStatus) : Type 0 where
  pub source : SourceStatus
  pub is_found : found ≡ some source
  pub active : source.active ≡ true
  pub freshness : source.freshness ≡ fresh

-- A source that is there and marked as preferred
pub record IsPreferred (found : Option SourceStatus) : Type 0 where
  pub source : SourceStatus
  pub is_found : found ≡ some source
  pub preferred : source.preferred ≡ true

pub record ReadyToExecute (runtime : RuntimeSnapshot) (sources : List SourceStatus)
    (mode : RuntimeMode) : Type 0 where
  pub capable : (mode ≡ sim) ⊎ (mode ≡ hardware)
  pub same_mode : runtime.mode ≡ mode
  pub calm : runtime.system_state ≡ normal
  pub live : All (λ name. Live (source_map sources name)) (required_sources mode)
  pub primary : mode ≡ hardware → IsPreferred (source_map sources "joint_states_primary")

nil_parts :
    (xs ys : List String) → is_nil (xs ++ ys) ≡ true → (is_nil xs ≡ true) × (is_nil ys ≡ true)
nil_parts [] ys h = (refl, h)
nil_parts (x ∷ xs) ys h = cc

nil_join : (xs ys : List String) → is_nil xs ≡ true → is_nil ys ≡ true → is_nil (xs ++ ys) ≡ true
nil_join [] ys h k = k
nil_join (x ∷ xs) ys h k = cc

no_reason :
    (test : Bool) (parts : List String) → is_nil (reason_if (not test) parts) ≡ true → test ≡ true
unfolding reason_if
no_reason true parts h = refl
no_reason false parts h = cc

without_reason :
    (test : Bool) (parts : List String) → test ≡ true → is_nil (reason_if (not test) parts) ≡ true
unfolding reason_if
without_reason true parts h = refl
without_reason false parts h = cc

capable_of :
    (mode : RuntimeMode)
    → mode_eq mode sim || mode_eq mode hardware ≡ true
    → (mode ≡ sim) ⊎ (mode ≡ hardware)
capable_of sim h = inl refl
capable_of hardware h = inr refl
capable_of unknown h = cc

of_capable :
    (mode : RuntimeMode)
    → (mode ≡ sim) ⊎ (mode ≡ hardware)
    → mode_eq mode sim || mode_eq mode hardware ≡ true
of_capable mode (inl e) = rw e refl
of_capable mode (inr e) = rw e refl

same_of : (a b : RuntimeMode) → mode_eq a b ≡ true → a ≡ b
same_of sim sim h = refl
same_of hardware hardware h = refl
same_of unknown unknown h = refl
same_of _ _ h = cc

mode_eq_refl : (a : RuntimeMode) → mode_eq a a ≡ true
mode_eq_refl sim = refl
mode_eq_refl hardware = refl
mode_eq_refl unknown = refl

normal_of : (state : SystemRuntimeState) → is_normal state ≡ true → state ≡ normal
normal_of normal h = refl
normal_of _ h = cc

fresh_of : (freshness : Freshness) → is_fresh freshness ≡ true → freshness ≡ fresh
fresh_of fresh h = refl
fresh_of _ h = cc

source_reasons-Live :
    (name : String) (found : Option SourceStatus)
    → is_nil (source_reasons name found) ≡ true
    → Live found
source_reasons-Live name none h = cc
source_reasons-Live name (some source) h =
    let (no_active, no_fresh) = nil_parts (reason_if (not source.active) _) _ h in
    record {
      source = source;
      is_found = refl;
      active = no_reason source.active _ no_active;
      freshness = fresh_of source.freshness (no_reason (is_fresh source.freshness) _ no_fresh);
    }

Live-source_reasons :
    (name : String) (found : Option SourceStatus)
    → Live found
    → is_nil (source_reasons name found) ≡ true
Live-source_reasons name none live = cc (live.is_found)
Live-source_reasons name (some source) live =
    let same : live.source ≡ source = cc (live.is_found) in
    nil_join (reason_if (not source.active) _) _
      (without_reason source.active _ (ap (λ found. found.active) (sym same) ∙ live.active))
      (without_reason (is_fresh source.freshness) _
        (ap (λ found. is_fresh found.freshness) (sym same) ∙ ap is_fresh live.freshness))

required_reasons-All :
    (sources : List SourceStatus) (names : List String)
    → is_nil (required_reasons sources names) ≡ true
    → All (λ name. Live (source_map sources name)) names
required_reasons-All sources [] h = tt
required_reasons-All sources (name ∷ names) h =
    let (here, later) = nil_parts (source_reasons name (source_map sources name)) _ h in
    (source_reasons-Live name _ here, required_reasons-All sources names later)

All-required_reasons :
    (sources : List SourceStatus) (names : List String)
    → All (λ name. Live (source_map sources name)) names
    → is_nil (required_reasons sources names) ≡ true
All-required_reasons sources [] live = refl
All-required_reasons sources (name ∷ names) live =
    nil_join (source_reasons name (source_map sources name)) _ (Live-source_reasons name _ live.0)
      (All-required_reasons sources names live.1)

primary_reasons-IsPreferred :
    (found : Option SourceStatus)
    → Live found
    → is_nil (primary_reasons found) ≡ true
    → IsPreferred found
primary_reasons-IsPreferred none live h = cc (live.is_found)
primary_reasons-IsPreferred (some source) live h =
    let (no_preferred, _) = nil_parts (reason_if (not source.preferred) _) _ h in
    record {
      source = source;
      is_found = refl;
      preferred = no_reason source.preferred _ no_preferred;
    }

IsPreferred-primary_reasons :
    (found : Option SourceStatus)
    → Live found
    → IsPreferred found
    → is_nil (primary_reasons found) ≡ true
IsPreferred-primary_reasons none live preferred = refl
IsPreferred-primary_reasons (some source) live preferred =
    let same : preferred.source ≡ source = cc (preferred.is_found) in
    let live_same : live.source ≡ source = cc (live.is_found) in
    nil_join (reason_if (not source.preferred) _) _
      (without_reason source.preferred _
        (ap (λ found. found.preferred) (sym same) ∙ preferred.preferred))
      (without_reason source.active _ (ap (λ found. found.active) (sym live_same) ∙ live.active))

of_live : (found : Option SourceStatus) → Live found → is_nil (status_reasons found) ≡ true
of_live none live = refl
of_live (some source) live =
    let same : live.source ≡ source = cc (live.is_found) in
    without_reason source.active _ (ap (λ found. found.active) (sym same) ∙ live.active)

hardware_parts :
    (sources : List SourceStatus) (mode : RuntimeMode)
    → All (λ name. Live (source_map sources name)) (required_sources mode)
    → is_nil (hardware_reasons sources mode) ≡ true
    → mode ≡ hardware
    → IsPreferred (source_map sources "joint_states_primary")
hardware_parts sources hardware live h e =
    let (primary, _) =
      nil_parts (primary_reasons (source_map sources "joint_states_primary")) _ h in
    primary_reasons-IsPreferred _ (live.1.1.1.1.0) primary
hardware_parts sources sim live h e = cc
hardware_parts sources unknown live h e = cc

of_hardware :
    (sources : List SourceStatus) (mode : RuntimeMode)
    → All (λ name. Live (source_map sources name)) (required_sources mode)
    → (mode ≡ hardware → IsPreferred (source_map sources "joint_states_primary"))
    → is_nil (hardware_reasons sources mode) ≡ true
of_hardware sources hardware live primary =
    nil_join (primary_reasons (source_map sources "joint_states_primary")) _
      (IsPreferred-primary_reasons _ (live.1.1.1.1.0) (primary refl)) (of_live _ (live.1.1.1.0))
of_hardware sources sim live primary = refl
of_hardware sources unknown live primary = refl

module _ (runtime : RuntimeSnapshot) (sources : List SourceStatus) (mode : RuntimeMode) where
  reasons-Ready :
      is_nil (preflight_reasons runtime sources mode) ≡ true → ReadyToExecute runtime sources mode
  reasons-Ready h =
      let (capable, h1) =
        nil_parts (reason_if (not (mode_eq mode sim || mode_eq mode hardware)) _) _ h in
      let (same, h2) = nil_parts (reason_if (not (mode_eq runtime.mode mode)) _) _ h1 in
      let (calm, h3) = nil_parts (reason_if (not (is_normal runtime.system_state)) _) _ h2 in
      let (required, at_hardware) =
        nil_parts (required_reasons sources (required_sources mode)) _ h3 in
      let live = required_reasons-All sources (required_sources mode) required in
      record {
        capable = capable_of mode (no_reason _ _ capable);
        same_mode = same_of runtime.mode mode (no_reason _ _ same);
        calm = normal_of runtime.system_state (no_reason _ _ calm);
        live = live;
        primary = hardware_parts sources mode live at_hardware;
      }

  Ready-reasons :
      ReadyToExecute runtime sources mode → is_nil (preflight_reasons runtime sources mode) ≡ true
  Ready-reasons ready =
      nil_join (reason_if (not (mode_eq mode sim || mode_eq mode hardware)) _) _
        (without_reason _ _ (of_capable mode ready.capable))
        (nil_join (reason_if (not (mode_eq runtime.mode mode)) _) _
          (without_reason _ _ (ap (λ m. mode_eq m mode) ready.same_mode ∙ mode_eq_refl mode))
          (nil_join (reason_if (not (is_normal runtime.system_state)) _) _
            (without_reason _ _ (ap is_normal ready.calm))
            (nil_join (required_reasons sources (required_sources mode)) _
              (All-required_reasons sources (required_sources mode) ready.live)
              (of_hardware sources mode ready.live ready.primary))))

-- Cleaning leaves the value of a mode as it is.
abbrev pub KeepsModes : (String → String) → Type 0
KeepsModes clean = (mode : RuntimeMode) → clean (mode_value mode) ≡ mode_value mode

requested_mode-value :
    (clean : String → String) (mode other : RuntimeMode)
    → KeepsModes clean
    → requested_mode clean (some (mode_value mode)) other ≡ mode
requested_mode-value clean sim other h = rw (h sim) refl
requested_mode-value clean hardware other h = rw (h hardware) refl
requested_mode-value clean unknown other h = rw (h unknown) refl

-- Where cleaning leaves the values of the modes as they are, the preflight for a mode accepts exactly
-- if the mode is simulation or hardware, the runtime is in it and NORMAL, every source that the mode
-- requires is there, active and fresh, and in hardware the primary joint source is preferred.
pub preflight_accepted_exactly :
    (clean : String → String) (runtime : RuntimeSnapshot) (sources : List SourceStatus)
    (mode : RuntimeMode)
    → KeepsModes clean
    → ((evaluate_execution_preflight clean runtime sources (some (mode_value mode))).accepted
        ≡ true)
      ↔ ReadyToExecute runtime sources mode
unfolding evaluate_execution_preflight
preflight_accepted_exactly clean runtime sources mode h =
    let same = requested_mode-value clean mode runtime.mode h in
    let reasons : is_nil (
          preflight_reasons runtime sources
            (requested_mode clean (some (mode_value mode)) runtime.mode))
        ≡ is_nil (preflight_reasons runtime sources mode) =
      ap (λ m. is_nil (preflight_reasons runtime sources m)) same in
    (
      λ accepted. reasons-Ready runtime sources mode (sym reasons ∙ accepted),
      λ ready. reasons ∙ Ready-reasons runtime sources mode ready,
    )
