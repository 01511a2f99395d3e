-- ===== src/Session/Grants.antt =====
-- What a controller is granted, and when a request for the lease is refused.
use gp4_ws.Common.{
  ℕ, ◌+◌, String, ◌≡◌, Bool, true, false, Option, none, some, arith, ◌==◌, eq_iff, eq_refl, ltb,
  truthy, if◌then◌else◌, ◌||◌, ◌&&◌,
}
use gp4_ws.Common.Outcome.{Outcome, ok, raised}
use gp4_ws.Session.{
  LeaseRecord, LeaseError, SessionLockService, AcquireRequest, no_active_lease, current_controller,
  acquire_controller, assert_controller, release,
}

-- A lease that was granted at `now` is honoured for its session, operator and token at each instant
-- `later` that is before `now + ttl`; from that instant on, the assertion finds no active lease.
pub assert-acquire :
    (s : SessionLockService) (now later : ℕ) (r : AcquireRequest) {lease : LeaseRecord}
    → (acquire_controller now r s).0 ≡ ok lease
    → (lease.lease_token == "") ≡ false
    → (assert_controller later r.session_id r.operator_id
        (some lease.lease_token)
        (acquire_controller now r s).1).0
      ≡ (if ltb later (now + s.ttl) then ok lease else raised no_active_lease)
unfolding acquire_controller assert_controller
assert-acquire s now later r {lease} h t = ground (
  arith,
  eq_refl r.session_id,
  eq_refl r.operator_id,
  eq_refl lease.lease_token,
  eq_iff lease.session_id r.session_id,
)

abbrev pub is_ok : Outcome LeaseError LeaseRecord → Bool
is_ok (ok lease) = true
is_ok (raised e) = false

-- Who may have the lease: anybody if none is active, the holder's session, and whoever forces a
-- takeover and gives a reason that is not empty.
abbrev pub may_acquire : Option LeaseRecord → AcquireRequest → Bool
may_acquire none r = true
may_acquire (some held) r =
    (held.session_id == r.session_id) || (r.force_takeover && truthy r.takeover_reason)

-- A request is granted exactly when the active lease at `now` lets its session have it; a refused
-- request leaves that lease as it was, and a granted one makes the lease that it returns active.
pub acquire_exact :
    (s : SessionLockService) (now : ℕ) (r : AcquireRequest)
    → (is_ok (acquire_controller now r s).0 ≡ may_acquire (current_controller now s).0 r)
      × ((e : LeaseError)
          → (acquire_controller now r s).0 ≡ raised e
          → (acquire_controller now r s).1 ≡ (current_controller now s).1)
      × ((lease : LeaseRecord)
          → (acquire_controller now r s).0 ≡ ok lease
          → ((acquire_controller now r s).1.active_controller ≡ some lease)
            × (lease.session_id ≡ r.session_id)
            × (lease.operator_id ≡ r.operator_id)
            × (lease.expires_at ≡ now + s.ttl))
unfolding acquire_controller current_controller
acquire_exact s now r = (
  ground arith,
  λ e h. ground arith,
  λ lease h. ground (arith, eq_iff lease.session_id r.session_id),
)

-- After a release that was not refused, no session, operator or token passes the assertion.
pub assert-release :
    (s : SessionLockService) (session_id operator_id lease_token : String)
    → (release session_id operator_id lease_token s).0 ≡ ok tt
    → (now : ℕ) (session' operator' token' : String) → (token' == "") ≡ false
    → (assert_controller now session' operator'
        (some token')
        (release session_id operator_id lease_token s).1).0
      ≡ raised no_active_lease
unfolding release assert_controller
assert-release s session_id operator_id lease_token h now session' operator' token' t = ground arith
