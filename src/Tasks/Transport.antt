-- ===== src/Tasks/Transport.antt =====
-- `InMemoryTaskTransport` of src/blackbase/resources/transport.py: submitting, workers, the sweep of overdue
-- leases, and `claim`. Every method runs under the lock, so a call is one step, but for `claim`,
-- which takes the lock twice: to register the worker, and then for the claim.
use blackbase.Prelude.{
  ℕ, ◌+◌, max, Bool, true, false, ◌&&◌, not, String, List, [], ◌∷◌, Option, none, some,
  if◌then◌else◌, leb, str_eq, contains, keep, Dict, lookup, insert, erase, map_values, count_values,
  keys, is_empty, Result, ok, err,
}
use blackbase.Tasks.Worker.{WorkerDescriptor, TaskEnvelope, can_run, heartbeat, task_eq}
use blackbase.Tasks.Records.{
  TransportError, ClaimedTask, TaskRecord, is_queued, is_leased, Transport, put, unleased, queued,
  leased, different_envelope,
}

abbrev pub submit_row :
    Option TaskRecord
    → TaskEnvelope
    → ℕ
    → Transport
    → Result TransportError (TaskRecord × Transport)
submit_row none task now t =
    let fresh = unleased task queued 0 none "" now in ok (fresh, put task.task_id fresh t)
submit_row (some current) task now t =
    if task_eq current.task task then ok (current, t) else err different_envelope

-- `submit`.
unfoldable pub submit :
    TaskEnvelope → ℕ → Transport → Result TransportError (TaskRecord × Transport)
submit task now t = submit_row (lookup task.task_id t.records) task now t

-- `register_worker`.
unfoldable pub register_worker : WorkerDescriptor → ℕ → Transport → WorkerDescriptor × Transport
unfolding heartbeat
register_worker worker now t =
    let descriptor = heartbeat "online" now worker in
    (descriptor, record t { workers = insert descriptor.worker_id descriptor t.workers })

abbrev pub beat_row : Option WorkerDescriptor → String → ℕ → Transport → Bool × Transport
beat_row none status now t = (false, t)
beat_row (some current) status now t =
    (true, record t { workers = insert current.worker_id (heartbeat status now current) t.workers })

-- `heartbeat_worker`.
unfoldable pub heartbeat_worker : String → String → ℕ → Transport → Bool × Transport
unfolding heartbeat
heartbeat_worker worker_id status now t = beat_row (lookup worker_id t.workers) status now t

abbrev pub is_overdue : ℕ → TaskRecord → Bool
is_overdue now r = is_leased r.status && leb r.lease_expires_at now

-- The record after `_recover_expired_locked`.
unfoldable pub requeue : ℕ → TaskRecord → TaskRecord
requeue now r =
    if is_overdue now r then unleased r.task queued r.attempt none "task lease expired" now else r

-- The tokens that `_recover_expired_locked` leaves.
abbrev pub drop_tokens : ℕ → Dict TaskRecord → Dict String → Dict String
drop_tokens now [] tokens = tokens
drop_tokens now ((k, r) ∷ rs) tokens =
    drop_tokens now rs (if is_overdue now r then erase k tokens else tokens)

-- `_recover_expired_locked`, and `recover_expired`; the second part is the count.
unfoldable pub recover_expired : ℕ → Transport → Transport × ℕ
unfolding requeue
recover_expired now t = (
  record t {
    records = map_values (requeue now) t.records;
    lease_tokens = drop_tokens now t.records t.lease_tokens;
  },
  count_values (is_overdue now) t.records,
)

-- The number of leases that a worker holds.
unfoldable pub active_of : String → Transport → ℕ
active_of worker_id t =
    count_values (λ r. is_leased r.status && str_eq r.worker_id worker_id) t.records

-- An empty filter accepts everything.
abbrev pub accepts : List String → String → Bool
accepts [] value = true
accepts (x ∷ xs) value = contains value (x ∷ xs)

-- The tests that a record passes in the loop of `claim`.
unfoldable pub is_claimable : WorkerDescriptor → ℕ → List String → List String → TaskRecord → Bool
is_claimable worker active types namespaces r =
    is_queued r.status
    && accepts types r.task.task_type
    && accepts namespaces r.task.namespace
    && can_run worker r.task active

abbrev pub passing : (TaskRecord → Bool) → String → Option TaskRecord → Option (String × TaskRecord)
passing p k none = none
passing p k (some r) = if p r then some (k, r) else none

-- The first of the keys, with its entry, whose record passes a test.
abbrev pub first :
    (TaskRecord → Bool) → List String → Dict TaskRecord → Option (String × TaskRecord)
first p [] d = none
first p (k ∷ ks) d =
    let rest = first p ks d in
    elim (passing p k (lookup k d)) [ none ↦ rest | some found ↦ some found ]

abbrev pub leased_record : ClaimedTask → ℕ → TaskRecord
leased_record c now = record {
  task = c.task;
  status = leased;
  attempt = c.attempt;
  worker_id = c.worker_id;
  lease_expires_at = c.lease_expires_at;
  result = none;
  error = "";
  updated_at = now;
}

abbrev pub new_claim : TaskRecord → String → String → ℕ → ℕ → ClaimedTask
new_claim r worker_id token ttl now = record {
  task = r.task;
  worker_id = worker_id;
  lease_token = token;
  attempt = r.attempt + 1;
  lease_expires_at = now + max 100 ttl;
}

abbrev pub leased_to : String → ClaimedTask → ℕ → Transport → Transport
leased_to k c now t = record t {
  records = insert k (leased_record c now) t.records;
  lease_tokens = insert k c.lease_token t.lease_tokens;
}

abbrev pub lease_row :
    Option (String × TaskRecord)
    → String
    → String
    → ℕ
    → ℕ
    → Transport
    → Option ClaimedTask × Transport
lease_row none worker_id token ttl now t = (none, t)
lease_row (some (k, r)) worker_id token ttl now t =
    let c = new_claim r worker_id token ttl now in (some c, leased_to k c now t)

abbrev pub non_empty : List String → List String
non_empty = keep (λ s. not (is_empty s))

-- The second part of `claim`, for the worker as it was registered; other calls may have run since. `token` is
-- the identifier that it draws.
unfoldable pub claim_registered :
    WorkerDescriptor
    → ℕ
    → List String
    → List String
    → String
    → ℕ
    → Transport
    → Option ClaimedTask × Transport
unfolding recover_expired active_of is_claimable
claim_registered descriptor ttl task_types namespaces token now t =
    let swept = (recover_expired now t).0 in
    let active = active_of descriptor.worker_id swept in
    if leb descriptor.max_inflight active
    then (none, swept)
    else lease_row
        (first (is_claimable descriptor active (non_empty task_types) (non_empty namespaces))
          (keys swept.records) swept.records)
        descriptor.worker_id token ttl now swept

-- `claim`, with its two readings of the clock and with what other calls do between its two parts.
unfoldable pub claim :
    WorkerDescriptor
    → ℕ
    → List String
    → List String
    → String
    → ℕ
    → (Transport → Transport)
    → ℕ
    → Transport
    → Option ClaimedTask × Transport
unfolding register_worker claim_registered
claim worker ttl task_types namespaces token registered_at others now t =
    let (descriptor, registered) = register_worker worker registered_at t in
    claim_registered descriptor ttl task_types namespaces token now (others registered)
