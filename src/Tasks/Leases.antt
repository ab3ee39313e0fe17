-- ===== src/Tasks/Leases.antt =====
-- `InMemoryTaskTransport` of src/blackbase/resources/transport.py: what the owner of a claim may do, and
-- `cancel`.
use blackbase.Prelude.{
  ℕ, ◌+◌, max, Bool, true, false, ◌&&◌, not, String, Option, none, some, if◌then◌else◌, ltb, leb,
  ◌==◌, str_eq, lookup, insert, erase, Result, ok, raise_if, ◌>>◌,
}
use blackbase.Tasks.Records.{
  TaskStatus, TransportError, TaskResult, result_ok, ClaimedTask, TaskRecord, is_leased, is_final,
  Transport, put, unleased, queued, leased, succeeded, failed, cancelled, needs_success,
  needs_failure, wrong_task, lease_lost,
}

abbrev token_is : Option String → String → Bool
token_is none token = false
token_is (some s) token = str_eq s token

abbrev pub holds : Option TaskRecord → Option String → ClaimedTask → ℕ → Bool
holds none token c now = false
holds (some r) token c now =
    is_leased r.status
    && str_eq r.worker_id c.worker_id
    && r.attempt == c.attempt
    && token_is token c.lease_token
    && ltb now r.lease_expires_at

-- `_claim_is_current` on the stored record.
unfoldable pub claim_is_current : ClaimedTask → ℕ → Transport → Bool
claim_is_current c now t =
    holds (lookup c.task.task_id t.records) (lookup c.task.task_id t.lease_tokens) c now

abbrev pub extend : Option TaskRecord → String → ℕ → ℕ → Transport → Transport
extend none k ttl now t = t
extend (some r) k ttl now t =
    put k
      (record {
        task = r.task;
        status = leased;
        attempt = r.attempt;
        worker_id = r.worker_id;
        lease_expires_at = now + max 100 ttl;
        result = none;
        error = "";
        updated_at = now;
      })
      t

-- `heartbeat_task`.
unfoldable pub heartbeat_task : ClaimedTask → ℕ → ℕ → Transport → Bool × Transport
unfolding claim_is_current
heartbeat_task c ttl now t =
    if claim_is_current c now t
    then (true, extend (lookup c.task.task_id t.records) c.task.task_id ttl now t)
    else (false, t)

-- The record that `_finish` stores.
unfoldable pub finished : ClaimedTask → TaskResult → TaskStatus → Bool → ℕ → TaskRecord
finished c result status allow_retry now =
    if allow_retry && leb c.attempt c.task.max_retries
    then unleased c.task queued c.attempt none result.error now
    else unleased c.task status c.attempt (some result) result.error now

-- `_finish`.
unfoldable pub finish :
    ClaimedTask
    → TaskResult
    → TaskStatus
    → Bool
    → ℕ
    → Transport
    → Result TransportError (TaskRecord × Transport)
unfolding claim_is_current finished
finish c result status allow_retry now t = do
  raise_if (not (str_eq result.task_id c.task.task_id)) wrong_task
  raise_if (not (claim_is_current c now t)) lease_lost
  let r = finished c result status allow_retry now
  ok (
    r,
    record t {
      records = insert c.task.task_id r t.records;
      lease_tokens = erase c.task.task_id t.lease_tokens;
    },
  )

-- `complete`.
unfoldable pub complete :
    ClaimedTask → TaskResult → ℕ → Transport → Result TransportError (TaskRecord × Transport)
unfolding finish result_ok
complete c result now t = do
  raise_if (not (result_ok result)) needs_success
  finish c result succeeded false now t

-- `fail`.
unfoldable pub fail :
    ClaimedTask → TaskResult → ℕ → Transport → Result TransportError (TaskRecord × Transport)
unfolding finish result_ok
fail c result now t = do
  raise_if (result_ok result) needs_failure
  finish c result failed true now t

abbrev pub cancel_row : Option TaskRecord → String → String → ℕ → Transport → Bool × Transport
cancel_row none k reason now t = (false, t)
cancel_row (some r) k reason now t = if is_final r.status then (false, t) else (
  true,
  record t {
    records = insert k (unleased r.task cancelled r.attempt none reason now) t.records;
    lease_tokens = erase k t.lease_tokens;
  },
)

-- `cancel`.
unfoldable pub cancel : String → String → ℕ → Transport → Bool × Transport
cancel task_id reason now t = cancel_row (lookup task_id t.records) task_id reason now t
