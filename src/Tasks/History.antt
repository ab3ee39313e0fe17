-- ===== src/Tasks/History.antt =====
-- Histories of calls of the transport of src/blackbase/resources/transport.py.
use blackbase.Prelude.{
  ℕ, ◌≡◌, refl, ap, ◌∙◌, true, false, not, String, List, [], ◌∷◌, Option, none, some, lookup,
  Result, ok, err, raise_if, >>-ok,
}
use blackbase.Tasks.Worker.{WorkerDescriptor, TaskEnvelope}
use blackbase.Tasks.Records.{
  TaskRecord, TaskResult, ClaimedTask, Transport, TransportError, succeeded, failed, result_ok,
  needs_success, needs_failure,
}
use blackbase.Tasks.Transport.{
  submit, register_worker, heartbeat_worker, beat_row, recover_expired, claim_registered,
}
use blackbase.Tasks.Leases.{heartbeat_task, complete, fail, cancel}
use blackbase.Tasks.Progress.{
  Follows, Follows-refl, Grows, Grows-refl, Grows-trans, recover_expired-Grows, submit_row-Grows,
  claim_registered-Grows, heartbeat_task-Grows, finish-Grows, cancel-Grows,
}

-- A call of the transport; `claim` is two, `registers` and then `claims` for the registered worker.
pub data TaskCall : Type 0 where
  submits : TaskEnvelope → TaskCall
  registers : WorkerDescriptor → TaskCall
  beats : String → String → TaskCall
  claims : WorkerDescriptor → ℕ → List String → List String → String → TaskCall
  extends : ClaimedTask → ℕ → TaskCall
  completes fails : ClaimedTask → TaskResult → TaskCall
  recovers : TaskCall
  cancels : String → String → TaskCall

abbrev kept : Transport → Result TransportError (TaskRecord × Transport) → Transport
kept t (ok (r, t')) = t'
kept t (err e) = t

-- The transport after a call at a time, whether it returned or raised.
unfoldable pub step : TaskCall → ℕ → Transport → Transport
step (submits task) now t = kept t (submit task now t)
step (registers w) now t = (register_worker w now t).1
step (beats w status) now t = (heartbeat_worker w status now t).1
step (claims w ttl types namespaces token) now t =
    (claim_registered w ttl types namespaces token now t).1
step (extends c ttl) now t = (heartbeat_task c ttl now t).1
step (completes c result) now t = kept t (complete c result now t)
step (fails c result) now t = kept t (fail c result now t)
step recovers now t = (recover_expired now t).0
step (cancels k reason) now t = (cancel k reason now t).1

abbrev pub play : List (ℕ × TaskCall) → Transport → Transport
play [] t = t
play ((now, c) ∷ cs) t = play cs (step c now t)

kept-Grows :
    (t : Transport) (res : Result TransportError (TaskRecord × Transport))
    → ((r : TaskRecord) (t' : Transport) → res ≡ ok (r, t') → Grows t t')
    → Grows t (kept t res)
kept-Grows t (ok (r, t')) grows = grows r t' refl
kept-Grows t (err e) grows = Grows-refl t

same_records-Grows : (t t' : Transport) → t'.records ≡ t.records → Grows t t'
same_records-Grows t t' e = λ k r h. (r, ap (lookup k) e ∙ h, Follows-refl r)

beat_row-records :
    (o : Option WorkerDescriptor) (status : String) (now : ℕ) (t : Transport)
    → (beat_row o status now t).1.records ≡ t.records
beat_row-records none status now t = refl
beat_row-records (some w) status now t = refl

step-Grows : (c : TaskCall) (now : ℕ) (t : Transport) → Grows t (step c now t)
unfolding step submit register_worker heartbeat_worker complete fail
step-Grows (submits task) now t =
    kept-Grows t _ (λ r t' e. submit_row-Grows (lookup task.task_id t.records) task now t refl e)
step-Grows (registers w) now t = same_records-Grows t (register_worker w now t).1 refl
step-Grows (beats w status) now t =
    same_records-Grows t (beat_row (lookup w t.workers) status now t).1
      (beat_row-records (lookup w t.workers) status now t)
step-Grows (claims w ttl types namespaces token) now t =
    claim_registered-Grows w ttl types namespaces token now t
step-Grows (extends c ttl) now t = heartbeat_task-Grows c ttl now t
step-Grows (completes c result) now t = kept-Grows t (complete c result now t) (λ r t' e.
    finish-Grows c result succeeded false now t refl
      (>>-ok (raise_if (not (result_ok result)) needs_success) _ e).1)
step-Grows (fails c result) now t = kept-Grows t (fail c result now t) (λ r t' e.
    finish-Grows c result failed true now t refl
      (>>-ok (raise_if (result_ok result) needs_failure) _ e).1)
step-Grows recovers now t = recover_expired-Grows now t
step-Grows (cancels k reason) now t = cancel-Grows k reason now t

pub play-Grows : (cs : List (ℕ × TaskCall)) (t : Transport) → Grows t (play cs t)
play-Grows [] t = Grows-refl t
play-Grows ((now, c) ∷ cs) t =
    Grows-trans t (step c now t) (play cs (step c now t)) (step-Grows c now t)
      (play-Grows cs (step c now t))

-- Whatever calls are made and whenever, a stored record is not lost: its number of attempts never falls,
-- a lease that ended is not taken up again but by a further attempt (`rank` never falls), and the record
-- of a task in a final state stays as it is.
pub play-Follows :
    (cs : List (ℕ × TaskCall)) (t : Transport) (k : String) (r : TaskRecord)
    → lookup k t.records ≡ some r
    → (r' : TaskRecord) × (lookup k (play cs t).records ≡ some r') × Follows r r'
play-Follows cs t k r h = play-Grows cs t k r h
