-- ===== src/Session.antt =====
-- hmi/backend/services/session_lock_service.py, and `LeaseRecord` of hmi/backend/domain/models.py.
-- An instant is a natural number of ticks. A method takes the reading of `utcnow()` that it makes
-- and, where it creates a lease, the two values of `uuid4()`. Its `Lock` makes each call one step.
pub mod Grants
pub mod Ownership
mod Tests
use gp4_ws.Common.{
  ℕ, ◌+◌, String, ◌≡◌, Bool, true, false, ◌&&◌, ◌||◌, not, Option, none, some, ◌==◌, leb, truthy,
  if◌then◌else◌,
}
use gp4_ws.Common.Outcome.{Outcome, ok, raised, Exec}

pub data LeaseRole : Type 0 where
  controller observer : LeaseRole

pub record LeaseRecord : Type 0 where
  pub lease_id : String
  pub lease_token : String
  pub role : LeaseRole
  pub session_id : String
  pub operator_id : String
  pub acquired_at : ℕ
  pub expires_at : ℕ
  pub force_takeover : Bool
  pub takeover_reason : Option String

unfoldable pub is_expired : LeaseRecord → ℕ → Bool
is_expired lease now = leb lease.expires_at now

pub data LeaseError : Type 0 where
  -- LeaseRejectedError
  already_held takeover_reason_required : LeaseError
  -- LeaseNotOwnedError
  no_active_lease other_session other_operator token_mismatch token_required : LeaseError

pub record SessionLockService : Type 0 where
  pub ttl : ℕ
  pub active_controller : Option LeaseRecord

abbrev unexpired : ℕ → Option LeaseRecord → Option LeaseRecord
unexpired now none = none
unexpired now (some lease) = if is_expired lease now then none else some lease

unfoldable pub purge_if_expired : ℕ → SessionLockService → SessionLockService
unfolding is_expired
purge_if_expired now s = record s { active_controller = unexpired now s.active_controller }

unfoldable pub current_controller : ℕ → SessionLockService → Option LeaseRecord × SessionLockService
unfolding purge_if_expired
current_controller now s = let s' = purge_if_expired now s in (s'.active_controller, s')

pub record AcquireRequest : Type 0 where
  pub session_id : String
  pub operator_id : String
  pub force_takeover : Bool
  pub takeover_reason : Option String
  -- the results of `uuid4()`
  pub new_lease_id : String
  pub new_lease_token : String

abbrev pub new_lease : ℕ → ℕ → AcquireRequest → LeaseRecord
new_lease now ttl r = record {
  lease_id = r.new_lease_id;
  lease_token = r.new_lease_token;
  role = controller;
  session_id = r.session_id;
  operator_id = r.operator_id;
  acquired_at = now;
  expires_at = now + ttl;
  force_takeover = r.force_takeover;
  takeover_reason = r.takeover_reason;
}

-- the two `if` statements on the holder, and the grant after them
abbrev pub acquire_against :
    ℕ → ℕ → AcquireRequest → Option LeaseRecord → Outcome LeaseError LeaseRecord
acquire_against now ttl r none = ok (new_lease now ttl r)
acquire_against now ttl r (some held) =
    if held.session_id == r.session_id
    then ok (record held { operator_id = r.operator_id; expires_at = now + ttl })
    else if not r.force_takeover
    then raised already_held
    else if not (truthy r.takeover_reason)
    then raised takeover_reason_required
    else ok (new_lease now ttl r)

abbrev pub store_lease :
    SessionLockService
    → Outcome LeaseError LeaseRecord
    → Outcome LeaseError LeaseRecord × SessionLockService
store_lease s (ok lease) = (ok lease, record s { active_controller = some lease })
store_lease s (raised e) = (raised e, s)

unfoldable pub acquire_controller :
    ℕ → AcquireRequest → Exec SessionLockService LeaseError LeaseRecord
unfolding purge_if_expired
acquire_controller now r s =
    let s' = purge_if_expired now s in
    store_lease s' (acquire_against now s'.ttl r s'.active_controller)

-- the ownership tests that `renew`, `release` and `assert_controller` make in this order
abbrev pub check_owner : String → String → String → LeaseRecord → Outcome LeaseError LeaseRecord
check_owner session_id operator_id lease_token held =
    if not (held.session_id == session_id)
    then raised other_session
    else if not (held.operator_id == operator_id)
    then raised other_operator
    else if not (held.lease_token == lease_token)
    then raised token_mismatch
    else ok held

abbrev pub owned : String → String → String → Option LeaseRecord → Outcome LeaseError LeaseRecord
owned session_id operator_id lease_token none = raised no_active_lease
owned session_id operator_id lease_token (some held) =
    check_owner session_id operator_id lease_token held

abbrev pub extend_lease :
    ℕ → SessionLockService → Outcome LeaseError LeaseRecord → Outcome LeaseError LeaseRecord
extend_lease now s (ok held) = ok (record held { expires_at = now + s.ttl })
extend_lease now s (raised e) = raised e

unfoldable pub renew : ℕ → String → String → String → Exec SessionLockService LeaseError LeaseRecord
unfolding purge_if_expired
renew now session_id operator_id lease_token s =
    let s' = purge_if_expired now s in
    store_lease s'
      (extend_lease now s' (owned session_id operator_id lease_token s'.active_controller))

abbrev pub clear_lease :
    SessionLockService
    → Outcome LeaseError LeaseRecord
    → Outcome LeaseError (Unit {0}) × SessionLockService
clear_lease s (ok held) = (ok tt, record s { active_controller = none })
clear_lease s (raised e) = (raised e, s)

abbrev pub release_held :
    String
    → String
    → String
    → SessionLockService
    → Option LeaseRecord
    → Outcome LeaseError (Unit {0}) × SessionLockService
release_held session_id operator_id lease_token s none = (ok tt, s)
release_held session_id operator_id lease_token s (some held) =
    clear_lease s (check_owner session_id operator_id lease_token held)

-- `release` reads no clock: an expired lease that is still stored is tested like a live one
unfoldable pub release : String → String → String → Exec SessionLockService LeaseError (Unit {0})
release session_id operator_id lease_token s =
    release_held session_id operator_id lease_token s s.active_controller

unfoldable pub assert_controller :
    ℕ → String → String → Option String → Exec SessionLockService LeaseError LeaseRecord
unfolding purge_if_expired
assert_controller now session_id operator_id none s = (raised token_required, s)
assert_controller now session_id operator_id (some lease_token) s =
    if lease_token == ""
    then (raised token_required, s)
    else let s' = purge_if_expired now s in
      (owned session_id operator_id lease_token s'.active_controller, s')
