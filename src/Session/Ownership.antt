-- ===== src/Session/Ownership.antt =====
-- Who may take the lease from its holder, over whole sequences of calls.
use gp4_ws.Common.{
  ℕ, ◌+◌, ◌≤◌, ◌<◌, String, ◌≡◌, refl, ◌∙◌, false, true, Option, none, some, List, [], ◌∷◌, ◌++◌,
  arith, ◌==◌, eq_refl, All, truthy, ◌&&◌,
}
use gp4_ws.Common.Outcome.{ok}
use gp4_ws.Session.{
  LeaseRecord, SessionLockService, AcquireRequest, current_controller, acquire_controller, renew,
  release, assert_controller,
}
use gp4_ws.Session.Grants.{is_ok}

-- A call of the service; all but `release` read the clock.
pub data Call : Type 0 where
  look : ℕ → Call
  acquire : ℕ → AcquireRequest → Call
  renewal : ℕ → String → String → String → Call
  giving_up : String → String → String → Call
  assertion : ℕ → String → String → Option String → Call

unfoldable pub apply : Call → SessionLockService → SessionLockService
unfolding current_controller acquire_controller renew release assert_controller
apply (look now) s = (current_controller now s).1
apply (acquire now r) s = (acquire_controller now r s).1
apply (renewal now session operator token) s = (renew now session operator token s).1
apply (giving_up session operator token) s = (release session operator token s).1
apply (assertion now session operator token) s = (assert_controller now session operator token s).1

unfoldable pub run : List Call → SessionLockService → SessionLockService
run [] s = s
run (c ∷ cs) s = run cs (apply c s)

-- A call that its holder does not make: before the lease ends, with another token, and no takeover
-- with a reason.
abbrev pub IsForeign : LeaseRecord → Call → Type 0
IsForeign held (look now) = now < held.expires_at
IsForeign held (acquire now r) =
    (now < held.expires_at)
    × ((held.session_id == r.session_id) ≡ false)
    × ((r.force_takeover && truthy r.takeover_reason) ≡ false)
IsForeign held (renewal now session operator token) =
    (now < held.expires_at) × ((held.lease_token == token) ≡ false)
IsForeign held (giving_up session operator token) = (held.lease_token == token) ≡ false
IsForeign held (assertion now session operator token) = now < held.expires_at

apply-foreign :
    (held : LeaseRecord) (c : Call) (s : SessionLockService)
    → s.active_controller ≡ some held
    → IsForeign held c
    → (apply c s).active_controller ≡ some held
unfolding apply
apply-foreign held c s h f = ground arith

run-foreign :
    (held : LeaseRecord) (cs : List Call) (s : SessionLockService)
    → s.active_controller ≡ some held
    → All (IsForeign held) cs
    → (run cs s).active_controller ≡ some held
unfolding run
run-foreign held [] s h f = h
run-foreign held (c ∷ cs) s h f = run-foreign held cs (apply c s) (apply-foreign held c s h f.0) f.1

-- Whatever other sessions call before a lease ends, without its token and without a takeover that
-- gives a reason, the holder's assertion goes on to succeed until the lease ends.
pub holder_kept :
    (held : LeaseRecord) (cs : List Call) (s : SessionLockService) (now : ℕ)
    → s.active_controller ≡ some held
    → All (IsForeign held) cs
    → now < held.expires_at
    → (held.lease_token == "") ≡ false
    → (assert_controller now held.session_id held.operator_id (some held.lease_token) (run cs s)).0
      ≡ ok held
unfolding assert_controller
holder_kept held cs s now h f l t = ground (
  arith,
  run-foreign held cs s h f,
  eq_refl held.session_id,
  eq_refl held.operator_id,
  eq_refl held.lease_token,
)

-- The lease, if there is one, ends at `bound` or before.
abbrev pub EndsBy : ℕ → Option LeaseRecord → Type 0
EndsBy bound none = Unit
EndsBy bound (some lease) = lease.expires_at ≤ bound

abbrev pub WithinTtl : ℕ → SessionLockService → Type 0
WithinTtl now s = EndsBy (now + s.ttl) s.active_controller

-- The instant at which a call reads the clock, if it does.
abbrev pub At : ℕ → Call → Type 0
At t (look now) = now ≡ t
At t (acquire now r) = now ≡ t
At t (renewal now session operator token) = now ≡ t
At t (giving_up session operator token) = Unit
At t (assertion now session operator token) = now ≡ t

apply-ttl : (c : Call) (s : SessionLockService) → (apply c s).ttl ≡ s.ttl
unfolding apply
apply-ttl c s = ground arith

apply-WithinTtl :
    (before now : ℕ) (c : Call) (s : SessionLockService)
    → before ≤ now
    → At now c
    → WithinTtl before s
    → WithinTtl now (apply c s)
unfolding apply
apply-WithinTtl before now c s l a w = ground arith

-- Calls whose readings of the clock never go back, from `before` to `after`.
pub data Timed (before : ℕ) : List Call → ℕ → Type 0 where
  start : Timed before [] before
  then_call :
      {cs : List Call} {t : ℕ} (now : ℕ) (c : Call)
      → Timed before cs t
      → t ≤ now
      → At now c
      → Timed before (cs ++ c ∷ []) now

run-append :
    (cs : List Call) (c : Call) (s : SessionLockService) → run (cs ++ c ∷ []) s ≡ apply c (run cs s)
unfolding run
run-append [] c s = refl
run-append (d ∷ cs) c s = run-append cs c (apply d s)

run-ttl : (cs : List Call) (s : SessionLockService) → (run cs s).ttl ≡ s.ttl
unfolding run
run-ttl [] s = refl
run-ttl (c ∷ cs) s = run-ttl cs (apply c s) ∙ apply-ttl c s

run-WithinTtl :
    {before now : ℕ} {cs : List Call} (s : SessionLockService)
    → Timed before cs now
    → WithinTtl before s
    → WithinTtl now (run cs s)
unfolding run
run-WithinTtl s start w = w
run-WithinTtl s (then_call {cs} {t} now c r l a) w =
    rw run-append (apply-WithinTtl t now c (run cs s) l a (run-WithinTtl s r w))

-- However the service was used up to an instant, a `ttl` after it the lease is free: with no call in
-- between, any session is granted it without a takeover.
pub lease_comes_free :
    {before now : ℕ} {cs : List Call} (s : SessionLockService)
    → Timed before cs now
    → WithinTtl before s
    → (later : ℕ) (r : AcquireRequest) → now + s.ttl ≤ later
    → is_ok (acquire_controller later r (run cs s)).0 ≡ true
unfolding acquire_controller
lease_comes_free {cs} s timed w later r l = ground (arith, run-WithinTtl s timed w, run-ttl cs s)
