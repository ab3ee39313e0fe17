-- ===== src/Tasks/Claims.antt =====
-- The exclusion that the leases of src/blackbase/resources/transport.py give.
use blackbase.Prelude.{
  ℕ, ◌+◌, ◌*◌, ◌<◌, ◌≡◌, refl, sym, ap, ◌∙◌, subst, inl, inr, Bool, true, false, not, String, List,
  Option, none, some, arith, leb, str_eq, str_eq_iff, str_eq_refl, lookup, keys, lookup-insert,
  lookup-map_values, Bool-cases, Option-cases, ok, raise_if, >>-ok, ok-injective, returns, if-elim,
}
use blackbase.Tasks.Worker.{WorkerDescriptor, TaskEnvelope}
use blackbase.Tasks.Records.{
  TaskStatus, TaskRecord, TaskResult, ClaimedTask, Transport, succeeded, failed, is_leased,
  result_ok, wrong_task, lease_lost, needs_success, needs_failure,
}
use blackbase.Tasks.Transport.{
  is_overdue, requeue, recover_expired, leased_record, new_claim, leased_to, is_claimable, first,
  lease_row, claim_registered, active_of, non_empty,
}
use blackbase.Tasks.Leases.{claim_is_current, finished, finish, complete, fail, heartbeat_task}
use blackbase.Tasks.Progress.{rank, first-found, holds-held}
use blackbase.Tasks.History.{play, play-Grows, TaskCall}

-- Records stand under the identifiers of their tasks.
abbrev pub IsKeyed : Transport → Type 0
IsKeyed t = (k : String) (r : TaskRecord) → lookup k t.records ≡ some r → r.task.task_id ≡ k

-- The task has gone past the attempt of a claim.
abbrev pub HasLapsed : ClaimedTask → Transport → Type 0
HasLapsed c t =
    (r : TaskRecord) × (lookup c.task.task_id t.records ≡ some r) × (2 * c.attempt < rank r)

HasLapsed-play :
    (c : ClaimedTask) (cs : List (ℕ × TaskCall)) (t : Transport)
    → HasLapsed c t
    → HasLapsed c (play cs t)
HasLapsed-play c cs t (r, h, l) =
    let (r', h', f) = play-Grows cs t c.task.task_id r h in (r', h', omega (arith, f.forward, l))

HasLapsed-not_current :
    (c : ClaimedTask) (now : ℕ) (t : Transport) → HasLapsed c t → claim_is_current c now t ≡ false
unfolding claim_is_current
HasLapsed-not_current c now t (r, h, l) = elim (Bool-cases (claim_is_current c now t)) [
  | inr miss ↦ miss
  | inl current ↦
      let (held, same) =
        holds-held (lookup c.task.task_id t.records) (lookup c.task.task_id t.lease_tokens) c now
          current h in
      absurd (ground arith)
]

-- What is refused to a worker whose claim is not current.
pub record IsRefused (c : ClaimedTask) (now : ℕ) (t : Transport) : Type 0 where
  pub heartbeat : (ttl : ℕ) → heartbeat_task c ttl now t ≡ (false, t)
  pub complete : (result : TaskResult) → returns (complete c result now t) ≡ false
  pub fail : (result : TaskResult) → returns (fail c result now t) ≡ false

not_current-finish :
    (c : ClaimedTask) (result : TaskResult) (status : TaskStatus) (retry : Bool) (now : ℕ)
    (t : Transport)
    → claim_is_current c now t ≡ false
    → returns (finish c result status retry now t) ≡ false
unfolding finish
not_current-finish c result status retry now t h =
    elim (Bool-cases (str_eq result.task_id c.task.task_id)) [
      | inl same ↦ rw (same, h)
      | inr other ↦ rw other
    ]

not_current-IsRefused :
    (c : ClaimedTask) (now : ℕ) (t : Transport)
    → claim_is_current c now t ≡ false
    → IsRefused c now t
unfolding heartbeat_task complete fail
not_current-IsRefused c now t h = record {
  heartbeat = λ ttl. rw h;
  complete = λ result. elim (Bool-cases (result_ok result)) [
    | inl good ↦ rw good (not_current-finish c result succeeded false now t h)
    | inr bad ↦ rw bad
  ];
  fail = λ result. elim (Bool-cases (result_ok result)) [
    | inl good ↦ rw good
    | inr bad ↦ rw bad (not_current-finish c result failed true now t h)
  ];
}

HasLapsed-IsRefused :
    (c : ClaimedTask) (cs : List (ℕ × TaskCall)) (now : ℕ) (t : Transport)
    → HasLapsed c t
    → IsRefused c now (play cs t)
HasLapsed-IsRefused c cs now t l =
    not_current-IsRefused c now (play cs t)
      (HasLapsed-not_current c now (play cs t) (HasLapsed-play c cs t l))

finish-HasLapsed :
    (c : ClaimedTask) (result : TaskResult) (status : TaskStatus) (retry : Bool) (now : ℕ)
    (t : Transport) {r : TaskRecord} {t' : Transport}
    → is_leased status ≡ false
    → finish c result status retry now t ≡ ok (r, t')
    → HasLapsed c t'
unfolding finish finished
finish-HasLapsed c result status retry now t ended h =
    let (same, h₁) = >>-ok (raise_if (not (str_eq result.task_id c.task.task_id)) wrong_task) _ h in
    let (current, h₂) = >>-ok (raise_if (not (claim_is_current c now t)) lease_lost) _ h₁ in
    subst (λ (p : TaskRecord × Transport). HasLapsed c p.1) (ok-injective h₂)
      (finished c result status retry now, rw lookup-insert (rw str_eq_refl), ground arith)

-- After `complete` returned for a claim, and whatever calls follow, that claim is refused at every
-- time: `heartbeat_task` answers false and changes nothing, and `complete` and `fail` raise.
pub complete-once :
    (c : ClaimedTask) (result : TaskResult) (now : ℕ) (t : Transport) {r : TaskRecord}
    {t' : Transport} (cs : List (ℕ × TaskCall)) (later : ℕ)
    → complete c result now t ≡ ok (r, t')
    → IsRefused c later (play cs t')
unfolding complete
complete-once c result now t cs later h = HasLapsed-IsRefused c cs later _ (
    finish-HasLapsed c result succeeded false now t refl
      (>>-ok (raise_if (not (result_ok result)) needs_success) _ h).1)

-- After `fail` returned for a claim, even if the task was queued again, and whatever calls follow, that
-- claim is refused at every time: `heartbeat_task` answers false and changes nothing, and `complete` and
-- `fail` raise.
pub fail-once :
    (c : ClaimedTask) (result : TaskResult) (now : ℕ) (t : Transport) {r : TaskRecord}
    {t' : Transport} (cs : List (ℕ × TaskCall)) (later : ℕ)
    → fail c result now t ≡ ok (r, t')
    → IsRefused c later (play cs t')
unfolding fail
fail-once c result now t cs later h = HasLapsed-IsRefused c cs later _ (
    finish-HasLapsed c result failed true now t refl
      (>>-ok (raise_if (result_ok result) needs_failure) _ h).1)

-- What `claim` took for a worker, as it was registered.
pub record Takes (w : WorkerDescriptor) (types namespaces : List String) (now : ℕ) (t : Transport)
    (c : ClaimedTask) (t' : Transport) : Type 0 where
  pub taken : TaskRecord
  pub waiting : lookup c.task.task_id (recover_expired now t).0.records ≡ some taken
  pub same_task : c.task ≡ taken.task
  pub fits :
      is_claimable w
        (active_of w.worker_id (recover_expired now t).0)
        (non_empty types)
        (non_empty namespaces)
        taken
      ≡ true
  pub capacity : active_of w.worker_id (recover_expired now t).0 < w.max_inflight
  pub next_attempt : c.attempt ≡ taken.attempt + 1
  pub current : claim_is_current c now t' ≡ true

new_claim-current :
    (k : String) (r : TaskRecord) (worker_id token : String) (ttl now : ℕ) (t : Transport)
    → r.task.task_id ≡ k
    → claim_is_current
        (new_claim r worker_id token ttl now)
        now
        (leased_to k (new_claim r worker_id token ttl now) now t)
      ≡ true
unfolding claim_is_current
new_claim-current k r worker_id token ttl now t e = ground (
  arith,
  lookup-insert k r.task.task_id (leased_record (new_claim r worker_id token ttl now) now)
      t.records,
  lookup-insert k r.task.task_id token t.lease_tokens,
  str_eq_iff k r.task.task_id,
  str_eq_refl worker_id,
  str_eq_refl token,
)

lease_row-Takes :
    (o : Option (String × TaskRecord)) (worker_id token : String) (ttl now : ℕ) (t : Transport)
    {c : ClaimedTask} {t' : Transport}
    → lease_row o worker_id token ttl now t ≡ (some c, t')
    → IsKeyed t
    → ((k : String) (r : TaskRecord) → o ≡ some (k, r) → lookup k t.records ≡ some r)
    → (r : TaskRecord) × (o ≡ some (c.task.task_id, r))
      × (c.task ≡ r.task)
      × (c.attempt ≡ r.attempt + 1)
      × (claim_is_current c now t' ≡ true)
lease_row-Takes none worker_id token ttl now t h keyed found = cc
lease_row-Takes (some (k, r)) worker_id token ttl now t {c} {t'} h keyed found =
    let id = keyed k r (found k r refl) in
    let taken : Path (ClaimedTask × Transport)
        (
          new_claim r worker_id token ttl now,
          leased_to k (new_claim r worker_id token ttl now) now t,
        )
        (c, t') =
      cc in
    subst
      (λ (p : ClaimedTask × Transport).
        (q : TaskRecord) × (Path (Option (String × TaskRecord)) (some (k, r))
          (some (p.0.task.task_id, q)))
        × (p.0.task ≡ q.task)
        × (p.0.attempt ≡ q.attempt + 1)
        × (claim_is_current p.0 now p.1 ≡ true))
      taken
      (
        r,
        ap (λ x. some (x, r)) (sym id),
        refl,
        refl,
        new_claim-current k r worker_id token ttl now t id,
      )

requeue-task : (now : ℕ) (q : TaskRecord) → q.task ≡ (requeue now q).task
unfolding requeue
requeue-task now q = elim (Bool-cases (is_overdue now q)) [
  | inl late ↦ rw late
  | inr fine ↦ rw fine
]

requeued_row :
    (now : ℕ) (o : Option TaskRecord) (r : TaskRecord)
    → Path (Option TaskRecord) (elim o [ none ↦ none | some q ↦ some (requeue now q) ]) (some r)
    → (q : TaskRecord) × (o ≡ some q) × (q.task ≡ r.task)
unfolding requeue
requeued_row now none r h = cc
requeued_row now (some q) r h =
    let e : requeue now q ≡ r = cc in
    (q, refl, subst (λ (x : TaskRecord). q.task ≡ x.task) e (requeue-task now q))

recover_expired-IsKeyed : (now : ℕ) (t : Transport) → IsKeyed t → IsKeyed (recover_expired now t).0
unfolding recover_expired
recover_expired-IsKeyed now t keyed = λ k r h.
    let (q, at, same) =
      requeued_row now (lookup k t.records) r
        (sym (lookup-map_values (requeue now) k t.records) ∙ h) in
    ap (λ (x : TaskEnvelope). x.task_id) (sym same) ∙ keyed k q at

-- Where records stand under the identifiers of their tasks, and whatever has run since the worker was
-- registered, a claim that `claim` returns is of a task that waits after the sweep of overdue leases and passes
-- the filters and the placement test; the worker then held fewer leases than its limit; the attempt is one more
-- than the recorded; the claim is current.
pub claim-Takes :
    (w : WorkerDescriptor) (ttl : ℕ) (types namespaces : List String) (token : String) (now : ℕ)
    (t : Transport) {c : ClaimedTask} {t' : Transport}
    → IsKeyed t
    → claim_registered w ttl types namespaces token now t ≡ (some c, t')
    → Takes w types namespaces now t c t'
unfolding claim_registered active_of recover_expired
claim-Takes w ttl types namespaces token now t {c} {t'} keyed h =
    let swept = (recover_expired now t).0 in
    if-elim (leb w.max_inflight (active_of w.worker_id swept)) _ _ h (λ full h₁. cc)
      (λ room h₁.
        let (r, at, same, next, cur) =
          lease_row-Takes
            (first
              (is_claimable w (active_of w.worker_id swept) (non_empty types)
                (non_empty namespaces))
              (keys swept.records) swept.records)
            w.worker_id token ttl now swept h₁ (recover_expired-IsKeyed now t keyed)
            (λ k q e. (first-found _ (keys swept.records) swept.records e).0) in
        let (there, passed) = first-found _ (keys swept.records) swept.records at in
        record {
          taken = r;
          waiting = there;
          same_task = same;
          fits = passed;
          capacity = ground arith;
          next_attempt = next;
          current = cur;
        })

current-HasLapsed :
    (c earlier : ClaimedTask) (now : ℕ) (t : Transport)
    → claim_is_current c now t ≡ true
    → earlier.task.task_id ≡ c.task.task_id
    → earlier.attempt < c.attempt
    → HasLapsed earlier t
unfolding claim_is_current
current-HasLapsed c earlier now t h same older =
    elim (Option-cases (lookup c.task.task_id t.records)) [
      | inl gone ↦ absurd (cc (gone, h))
      | inr (r, e) ↦
          let (held, at) =
            holds-held (lookup c.task.task_id t.records) (lookup c.task.task_id t.lease_tokens) c
              now h e in
          (r, ap (λ x. lookup x t.records) same ∙ e, omega (arith, at, older))
    ]

-- When a worker gets a claim of a task, every claim of that task with a smaller attempt is refused from
-- then on, whatever calls follow and at every time.
pub claim-ends-earlier :
    (w : WorkerDescriptor) (ttl : ℕ) (types namespaces : List String) (token : String) (now : ℕ)
    (t : Transport) {c : ClaimedTask} {t' : Transport} (earlier : ClaimedTask)
    (cs : List (ℕ × TaskCall)) (later : ℕ)
    → IsKeyed t
    → claim_registered w ttl types namespaces token now t ≡ (some c, t')
    → earlier.task.task_id ≡ c.task.task_id
    → earlier.attempt < c.attempt
    → IsRefused earlier later (play cs t')
claim-ends-earlier w ttl types namespaces token now t {c} {t'} earlier cs later keyed h same older =
    let taken = claim-Takes w ttl types namespaces token now t keyed h in
    HasLapsed-IsRefused earlier cs later t'
      (current-HasLapsed c earlier now t' taken.current same older)
