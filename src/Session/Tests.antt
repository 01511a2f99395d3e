-- ===== src/Session/Tests.antt =====
-- The lease service at concrete sessions.
use gp4_ws.Common.{◌+◌, ◌≡◌, refl, true, false, none, some, [], ◌∷◌, arith}
use gp4_ws.Common.Outcome.{ok, raised}
use gp4_ws.Session.{
  LeaseRecord, LeaseError, SessionLockService, AcquireRequest, no_active_lease, new_lease,
  current_controller, acquire_controller, release, assert_controller,
}
use gp4_ws.Session.Grants.{may_acquire, is_ok, assert-acquire, acquire_exact, assert-release}
use gp4_ws.Session.Ownership.{
  look, acquire, run, Timed, start, then_call, holder_kept, lease_comes_free,
}

abbrev idle : SessionLockService
idle = record { ttl = 15; active_controller = none }

abbrev alice : AcquireRequest
alice = record {
  session_id = "a";
  operator_id = "alice";
  force_takeover = false;
  takeover_reason = none;
  new_lease_id = "l1";
  new_lease_token = "t1";
}

abbrev bob : AcquireRequest
bob = record {
  session_id = "b";
  operator_id = "bob";
  force_takeover = true;
  takeover_reason = some "";
  new_lease_id = "l2";
  new_lease_token = "t2";
}

alice_granted : (acquire_controller 100 alice idle).0 ≡ ok (new_lease 100 15 alice)
unfolding acquire_controller
alice_granted = refl

assert-acquire_example :
    (assert_controller 110 "a" "alice" (some "t1") (acquire_controller 100 alice idle).1).0
    ≡ ok (new_lease 100 15 alice)
assert-acquire_example = assert-acquire idle 100 110 alice alice_granted refl

abbrev held : SessionLockService
held = record { ttl = 15; active_controller = some (new_lease 100 15 alice) }

acquire_exact_example :
    (is_ok (acquire_controller 110 bob held).0 ≡ may_acquire (current_controller 110 held).0 bob)
    × ((e : LeaseError)
        → (acquire_controller 110 bob held).0 ≡ raised e
        → (acquire_controller 110 bob held).1 ≡ (current_controller 110 held).1)
    × ((lease : LeaseRecord)
        → (acquire_controller 110 bob held).0 ≡ ok lease
        → ((acquire_controller 110 bob held).1.active_controller ≡ some lease)
          × (lease.session_id ≡ "b")
          × (lease.operator_id ≡ "bob")
          × (lease.expires_at ≡ 110 + 15))
acquire_exact_example = acquire_exact held 110 bob

alice_releases : (release "a" "alice" "t1" held).0 ≡ ok tt
unfolding release
alice_releases = refl

assert-release_example :
    (assert_controller 111 "a" "alice" (some "t1") (release "a" "alice" "t1" held).1).0
    ≡ raised no_active_lease
assert-release_example =
    assert-release held "a" "alice" "t1" alice_releases 111 "a" "alice" "t1" refl

holder_kept_example :
    (assert_controller 114 "a" "alice" (some "t1") (run (look 101 ∷ acquire 102 bob ∷ []) held)).0
    ≡ ok (new_lease 100 15 alice)
holder_kept_example =
    holder_kept (new_lease 100 15 alice) (look 101 ∷ acquire 102 bob ∷ []) held 114 refl
      (omega arith, ((omega arith, refl, refl), tt)) (omega arith) refl

one_call : Timed 90 (acquire 100 alice ∷ []) 100
one_call = then_call {cs = []} 100 (acquire 100 alice) start (omega arith) refl

lease_comes_free_example :
    is_ok (acquire_controller 120 bob (run (acquire 100 alice ∷ []) idle)).0 ≡ true
lease_comes_free_example = lease_comes_free idle one_call tt 120 bob (omega arith)
