-- ===== src/Tasks/Tests.antt =====
-- The queue of src/blackbase/resources/transport.py on one task, which is claimed twice.
use blackbase.Prelude.{
  ℕ, ◌≡◌, refl, List, [], ◌∷◌, Option, none, some, lookup, ok, value_or, ltb→lt, if-elim,
  str_eq_iff, str_eq,
}
use blackbase.Tasks.Worker.{WorkerDescriptor, TaskEnvelope, satisfies, can_run}
use blackbase.Tasks.Records.{Transport, TaskStatus, TaskRecord, TaskResult, ClaimedTask}
use blackbase.Tasks.Transport.{claim, claim_registered, register_worker, submit}
use blackbase.Tasks.Leases.{complete, fail}
use blackbase.Tasks.Progress.{Follows}
use blackbase.Tasks.History.{TaskCall, step, play, play-Follows}
use blackbase.Tasks.Claims.{
  IsKeyed, IsRefused, Takes, complete-once, fail-once, claim-Takes, claim-ends-earlier,
}

abbrev envelope : TaskEnvelope
envelope = record {
  task_id = "task-1";
  task_type = "evaluate";
  requirement = record {
    threads = 1;
    gpus = 0;
    resource_backend = "local";
    device_tokens = [];
    memory_mb = none;
    gpu_memory_mb = none;
    capabilities = [];
  };
  executor_backend = "auto";
  namespace = "default";
  max_retries = 1;
  body = "{}";
}

abbrev worker : WorkerDescriptor
worker = record {
  worker_id = "worker-1";
  executor_backend = "thread";
  resource_backend = "local";
  host = "node";
  capabilities = [];
  offer = some (record {
    threads = 4;
    gpus = 0;
    backend = "local";
    device_tokens = [];
    memory_mb = none;
    gpu_memory_mb = none;
    gpu_memory_mb_by_device = [];
  });
  max_inflight = 2;
  status = "online";
  last_heartbeat_at = 0;
}

abbrev empty_transport : Transport
empty_transport = record { records = []; workers = []; lease_tokens = [] }

abbrev submitted : Transport
submitted = play ((10, TaskCall.submits envelope) ∷ []) empty_transport

submitted-IsKeyed : IsKeyed submitted
unfolding step submit
submitted-IsKeyed k r h =
    if-elim (str_eq "task-1" k) _ _ h (λ hit e. cc (e, (str_eq_iff "task-1" k).0 hit))
      (λ miss e. cc)

abbrev claim_of : Option ClaimedTask → ClaimedTask
claim_of none = record {
  task = envelope;
  worker_id = "";
  lease_token = "";
  attempt = 0;
  lease_expires_at = 0;
}
claim_of (some c) = c

abbrev first_claim : ClaimedTask
first_claim = claim_of (claim_registered worker 1000 [] [] "token-1" 20 submitted).0

abbrev claimed : Transport
claimed = (claim_registered worker 1000 [] [] "token-1" 20 submitted).1

claimed_run :
    claim_registered worker 1000 [] [] "token-1" 20 submitted ≡ (some first_claim, claimed)
unfolding claim_registered step submit can_run satisfies
claimed_run = refl

claim-Takes_example : Takes worker [] [] 20 submitted first_claim claimed
claim-Takes_example =
    claim-Takes worker 1000 [] [] "token-1" 20 submitted submitted-IsKeyed claimed_run

abbrev success : TaskResult
success = record { task_id = "task-1"; status = "ok"; error = ""; body = "{}" }

abbrev failure : TaskResult
failure = record { task_id = "task-1"; status = "error"; error = "crashed"; body = "{}" }

abbrev no_record : TaskRecord
no_record = record {
  task = envelope;
  status = TaskStatus.queued;
  attempt = 0;
  worker_id = "";
  lease_expires_at = 0;
  result = none;
  error = "";
  updated_at = 0;
}

abbrev completed : TaskRecord × Transport
completed = value_or (no_record, claimed) (complete first_claim success 30 claimed)

abbrev failed_once : TaskRecord × Transport
failed_once = value_or (no_record, claimed) (fail first_claim failure 30 claimed)

completed_run : complete first_claim success 30 claimed ≡ ok completed
unfolding complete claim_registered step submit can_run satisfies
completed_run = refl

failed_run : fail first_claim failure 30 claimed ≡ ok failed_once
unfolding fail claim_registered step submit can_run satisfies
failed_run = refl

abbrev second_round : List (ℕ × TaskCall)
second_round = (40, TaskCall.claims worker 1000 [] [] "token-2") ∷ []

complete-once_example : IsRefused first_claim 50 (play second_round completed.1)
complete-once_example = complete-once first_claim success 30 claimed second_round 50 completed_run

fail-once_example : IsRefused first_claim 50 (play second_round failed_once.1)
fail-once_example = fail-once first_claim failure 30 claimed second_round 50 failed_run

completed_lookup : lookup "task-1" completed.1.records ≡ some completed.0
unfolding complete claim_registered step submit can_run satisfies
completed_lookup = refl

play-Follows_example :
    (r : TaskRecord) × (lookup "task-1" (play second_round completed.1).records ≡ some r)
    × Follows completed.0 r
play-Follows_example = play-Follows second_round completed.1 "task-1" completed.0 completed_lookup

abbrev lost_claim : ClaimedTask
lost_claim = record first_claim { lease_token = "token-0"; attempt = 0 }

claim-ends-earlier_example : IsRefused lost_claim 50 (play second_round claimed)
unfolding claim_registered step submit can_run satisfies
claim-ends-earlier_example =
    claim-ends-earlier worker 1000 [] [] "token-1" 20 submitted lost_claim second_round 50
      submitted-IsKeyed claimed_run refl (ltb→lt 0 1 refl)

another : TaskEnvelope
another = record envelope { task_id = "task-2" }

-- Another call runs between the two parts.
claim_run :
    (claim worker 1000 [] [] "token-1" 15 (step (TaskCall.submits another) 16) 20 submitted).0
    ≡ some first_claim
unfolding claim claim_registered register_worker step submit can_run satisfies another
claim_run = refl
