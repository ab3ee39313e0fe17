-- ===== src/Tasks/Records.antt =====
-- The tasks, claims and records of src/blackbase/resources/transport.py, and what it keeps. Time is in
-- milliseconds.
use blackbase.Prelude.{ℕ, Bool, true, false, String, [], ◌∷◌, Option, contains, Dict, insert, lower}
use blackbase.Tasks.Worker.{WorkerDescriptor, TaskEnvelope}

pub data TaskStatus : Type 0 where
  queued leased succeeded failed cancelled : TaskStatus

pub data TransportError : Type 0 where
  different_envelope needs_success needs_failure wrong_task lease_lost : TransportError

-- `TaskResult`; `body` is the wire text of the fields that the transport does not read.
pub record TaskResult : Type 0 where
  pub task_id : String
  pub status : String
  pub error : String
  pub body : String

-- `TaskResult.ok`.
unfoldable pub result_ok : TaskResult → Bool
unfolding lower
result_ok r = contains (lower r.status) ("ok" ∷ "success" ∷ "completed" ∷ [])

pub record ClaimedTask : Type 0 where
  pub task : TaskEnvelope
  pub worker_id : String
  pub lease_token : String
  pub attempt : ℕ
  pub lease_expires_at : ℕ

pub record TaskRecord : Type 0 where
  pub task : TaskEnvelope
  pub status : TaskStatus
  pub attempt : ℕ
  pub worker_id : String
  pub lease_expires_at : ℕ
  pub result : Option TaskResult
  pub error : String
  pub updated_at : ℕ

abbrev pub is_queued : TaskStatus → Bool
is_queued queued = true
is_queued leased = false
is_queued succeeded = false
is_queued failed = false
is_queued cancelled = false

abbrev pub is_leased : TaskStatus → Bool
is_leased queued = false
is_leased leased = true
is_leased succeeded = false
is_leased failed = false
is_leased cancelled = false

-- `FINAL_TASK_STATES`, `TaskRecord.final`.
abbrev pub is_final : TaskStatus → Bool
is_final queued = false
is_final leased = false
is_final succeeded = true
is_final failed = true
is_final cancelled = true

pub record Transport : Type 0 where
  pub records : Dict TaskRecord
  pub workers : Dict WorkerDescriptor
  pub lease_tokens : Dict String

abbrev pub put : String → TaskRecord → Transport → Transport
put k r t = record t { records = insert k r t.records }

-- A record nobody holds a lease of.
abbrev pub unleased : TaskEnvelope → TaskStatus → ℕ → Option TaskResult → String → ℕ → TaskRecord
unleased task status attempt result error now = record {
  task = task;
  status = status;
  attempt = attempt;
  worker_id = "";
  lease_expires_at = 0;
  result = result;
  error = error;
  updated_at = now;
}
