-- ===== src/Tasks/Progress.antt =====
-- What no call of the transport of src/blackbase/resources/transport.py undoes.
use blackbase.Prelude.{
  ℕ, ◌+◌, ◌*◌, ◌≤◌, ◌≡◌, refl, sym, ap, ◌∙◌, subst, inl, inr, Bool, true, false, not, String, List,
  [], ◌∷◌, Option, none, some, arith, if◌then◌else◌, leb, str_eq, str_eq_iff, Dict, lookup, insert,
  erase, keys, lookup-insert, lookup-map_values, Bool-cases, Option-cases, ok, raise_if, >>-ok,
  ok-injective, if-elim,
}
use blackbase.Tasks.Worker.{WorkerDescriptor, TaskEnvelope, task_eq}
use blackbase.Tasks.Records.{
  TaskStatus, TaskRecord, TaskResult, ClaimedTask, Transport, is_leased, is_queued, is_final,
  wrong_task, lease_lost,
}
use blackbase.Tasks.Transport.{
  is_overdue, requeue, submit_row, recover_expired, is_claimable, first, lease_row,
  claim_registered, active_of, non_empty,
}
use blackbase.Tasks.Leases.{
  holds, claim_is_current, extend, heartbeat_task, finished, finish, cancel_row, cancel,
}

-- How far a task has come: each claim, and each end of a lease, moves it on.
abbrev pub rank : TaskRecord → ℕ
rank r = 2 * r.attempt + (if is_leased r.status then 0 else 1)

-- `r'` comes later than `r` in the life of a task.
pub record Follows (r r' : TaskRecord) : Type 0 where
  pub forward : rank r ≤ rank r'
  pub settled : is_final r.status ≡ true → r' ≡ r

pub Follows-refl : (r : TaskRecord) → Follows r r
Follows-refl r = record { forward = omega arith; settled = λ f. refl }

pub Follows-trans : {a b c : TaskRecord} → Follows a b → Follows b c → Follows a c
Follows-trans {a} {b} {c} p q = record {
  forward = omega (arith, p.forward, q.forward);
  settled =
      λ f. let e = p.settled f in q.settled (ap (λ (x : TaskRecord). is_final x.status) e ∙ f) ∙ e;
}

-- No record is lost, and each comes later.
abbrev pub Grows : Transport → Transport → Type 0
Grows t t' =
    (k : String) (r : TaskRecord)
    → lookup k t.records ≡ some r
    → (r' : TaskRecord) × (lookup k t'.records ≡ some r') × Follows r r'

pub Grows-refl : (t : Transport) → Grows t t
Grows-refl t = λ k r h. (r, h, Follows-refl r)

pub Grows-trans : (a b c : Transport) → Grows a b → Grows b c → Grows a c
Grows-trans a b c p q = λ k r h.
    let (r₁, h₁, f₁) = p k r h in let (r₂, h₂, f₂) = q k r₁ h₁ in (r₂, h₂, Follows-trans f₁ f₂)

-- A write of one record that comes later than the one it replaces, if any.
pub insert-Grows :
    (t : Transport) (k : String) (r' : TaskRecord) (workers : Dict WorkerDescriptor)
    (tokens : Dict String)
    → ((r : TaskRecord) → lookup k t.records ≡ some r → Follows r r')
    → Grows t (record { records = insert k r' t.records; workers = workers; lease_tokens = tokens })
insert-Grows t k r' workers tokens later = λ j r h. elim (Bool-cases (str_eq k j)) [
  | inl hit ↦ (
    r',
    ground (arith, lookup-insert k j r' t.records),
    later r (ap (λ x. lookup x t.records) ((str_eq_iff k j).0 hit) ∙ h),
  )
  | inr miss ↦ (r, ground (arith, lookup-insert k j r' t.records), Follows-refl r)
]

requeue-Follows : (now : ℕ) (r : TaskRecord) → Follows r (requeue now r)
unfolding requeue
requeue-Follows now r = elim (Bool-cases (is_overdue now r)) [
  | inl late ↦ rw late (record { forward = ground arith; settled = λ f. ground arith })
  | inr fine ↦ rw fine (Follows-refl r)
]

pub recover_expired-Grows : (now : ℕ) (t : Transport) → Grows t (recover_expired now t).0
unfolding recover_expired
recover_expired-Grows now t =
    λ k r h. (requeue now r, rw lookup-map_values (rw h), requeue-Follows now r)

pub submit_row-Grows :
    (o : Option TaskRecord) (task : TaskEnvelope) (now : ℕ) (t : Transport) {r : TaskRecord}
    {t' : Transport}
    → lookup task.task_id t.records ≡ o
    → submit_row o task now t ≡ ok (r, t')
    → Grows t t'
submit_row-Grows none task now t e h =
    subst (λ (p : TaskRecord × Transport). Grows t p.1) (ok-injective h)
      (insert-Grows t task.task_id _ t.workers t.lease_tokens (λ r f. cc))
submit_row-Grows (some current) task now t e h =
    if-elim (task_eq current.task task) _ _ h
      (λ same h₁.
        subst (λ (p : TaskRecord × Transport). Grows t p.1) (ok-injective h₁) (Grows-refl t))
      (λ other h₁. cc)

-- What `first` finds is stored and passes the test.
pub first-found :
    (p : TaskRecord → Bool) (ks : List String) (d : Dict TaskRecord) {k : String} {r : TaskRecord}
    → first p ks d ≡ some (k, r)
    → (lookup k d ≡ some r) × (p r ≡ true)
first-found p [] d h = cc
first-found p (j ∷ ks) d {k} {r} h = elim (Option-cases (lookup j d)) [
  | inl none_there ↦ first-found p ks d (ground arith)
  | inr (q, there) ↦ elim (Bool-cases (p q)) [
    | inl hit ↦ (ground arith, ground arith)
    | inr miss ↦ first-found p ks d (ground arith)
  ]
]

lease_row-Grows :
    (o : Option (String × TaskRecord)) (worker_id token : String) (ttl now : ℕ) (t : Transport)
    → ((k : String) (r : TaskRecord)
        → o ≡ some (k, r)
        → (lookup k t.records ≡ some r) × (is_queued r.status ≡ true))
    → Grows t (lease_row o worker_id token ttl now t).1
lease_row-Grows none worker_id token ttl now t found = Grows-refl t
lease_row-Grows (some (k, r)) worker_id token ttl now t found =
    insert-Grows t k _ t.workers (insert k token t.lease_tokens) (λ q h.
      let (at, free) = found k r refl in
      let e : some r ≡ some q = sym at ∙ h in
      let a : r.attempt ≡ q.attempt = cc in
      let f : is_queued q.status ≡ true = cc in
      record { forward = ground arith; settled = λ f. ground arith })

pub claim_registered-Grows :
    (w : WorkerDescriptor) (ttl : ℕ) (types namespaces : List String) (token : String) (now : ℕ)
    (t : Transport)
    → Grows t (claim_registered w ttl types namespaces token now t).1
unfolding claim_registered is_claimable
claim_registered-Grows w ttl types namespaces token now t =
    let swept = (recover_expired now t).0 in
    Grows-trans t swept (claim_registered w ttl types namespaces token now t).1
      (recover_expired-Grows now t)
      (if-elim {P = Grows swept (claim_registered w ttl types namespaces token now t).1}
        (leb w.max_inflight (active_of w.worker_id swept)) _ _ refl
        (λ full h.
          subst (λ (p : Option ClaimedTask × Transport). Grows swept p.1) h (Grows-refl swept))
        (λ room h.
          subst (λ (p : Option ClaimedTask × Transport). Grows swept p.1) h
            (lease_row-Grows
              (first
                (is_claimable w (active_of w.worker_id swept) (non_empty types)
                  (non_empty namespaces))
                (keys swept.records) swept.records)
              w.worker_id token ttl now swept
              (λ k r e.
                let (at, passed) = first-found _ (keys swept.records) swept.records e in
                (at, ground arith)))))

some-injective : {a b : TaskRecord} → Path (Option TaskRecord) (some a) (some b) → a ≡ b
some-injective h = cc

extend-Grows :
    (o : Option TaskRecord) (k : String) (ttl now : ℕ) (t : Transport)
    → lookup k t.records ≡ o
    → ((r : TaskRecord) → o ≡ some r → is_leased r.status ≡ true)
    → Grows t (extend o k ttl now t)
extend-Grows none k ttl now t e held = Grows-refl t
extend-Grows (some r) k ttl now t e held = insert-Grows t k _ t.workers t.lease_tokens (λ q h.
    let i : some r ≡ some q = sym e ∙ h in
    let a : r.attempt ≡ q.attempt = cc in
    let l = held q i in record { forward = ground arith; settled = λ f. ground arith })

cancel_row-Grows :
    (o : Option TaskRecord) (k reason : String) (now : ℕ) (t : Transport)
    → lookup k t.records ≡ o
    → Grows t (cancel_row o k reason now t).1
cancel_row-Grows none k reason now t e = Grows-refl t
cancel_row-Grows (some r) k reason now t e =
    if-elim {P = Grows t (cancel_row (some r) k reason now t).1} (is_final r.status) _ _ refl
      (λ done h. subst (λ (p : Bool × Transport). Grows t p.1) h (Grows-refl t))
      (λ live h.
        subst (λ (p : Bool × Transport). Grows t p.1) h
          (insert-Grows t k _ t.workers (erase k t.lease_tokens) (λ q h'.
            let i : some r ≡ some q = sym e ∙ h' in
            let a : r.attempt ≡ q.attempt = cc in
            let st : is_final q.status ≡ false = cc in
            record { forward = ground arith; settled = λ f. ground arith })))

pub holds-held :
    (o : Option TaskRecord) (token : Option String) (c : ClaimedTask) (now : ℕ) {q : TaskRecord}
    → holds o token c now ≡ true
    → o ≡ some q
    → (is_leased q.status ≡ true) × (q.attempt ≡ c.attempt)
holds-held none token c now h e = cc
holds-held (some r) token c now {q} h e =
    subst (λ (x : TaskRecord). (is_leased x.status ≡ true) × (x.attempt ≡ c.attempt))
      (some-injective e) (ground arith, ground arith)

pub heartbeat_task-Grows :
    (c : ClaimedTask) (ttl now : ℕ) (t : Transport) → Grows t (heartbeat_task c ttl now t).1
unfolding heartbeat_task claim_is_current
heartbeat_task-Grows c ttl now t =
    if-elim {P = Grows t (heartbeat_task c ttl now t).1}
      (holds (lookup c.task.task_id t.records) (lookup c.task.task_id t.lease_tokens) c now) _ _
      refl
      (λ current h.
        subst (λ (p : Bool × Transport). Grows t p.1) h
          (extend-Grows (lookup c.task.task_id t.records) c.task.task_id ttl now t refl
            (λ r e. (holds-held _ _ c now current e).0)))
      (λ stale h. subst (λ (p : Bool × Transport). Grows t p.1) h (Grows-refl t))

finished-Follows :
    (c : ClaimedTask) (result : TaskResult) (status : TaskStatus) (retry : Bool) (now : ℕ)
    {q : TaskRecord}
    → is_leased status ≡ false
    → (is_leased q.status ≡ true) × (q.attempt ≡ c.attempt)
    → Follows q (finished c result status retry now)
unfolding finished
finished-Follows c result status retry now {q} ended held =
    let l = held.0 in
    let a = held.1 in record { forward = ground arith; settled = λ f. absurd (ground arith) }

pub finish-Grows :
    (c : ClaimedTask) (result : TaskResult) (status : TaskStatus) (retry : Bool) (now : ℕ)
    (t : Transport) {r : TaskRecord} {t' : Transport}
    → is_leased status ≡ false
    → finish c result status retry now t ≡ ok (r, t')
    → Grows t t'
unfolding finish claim_is_current finished
finish-Grows c result status retry now t ended h =
    let (same, h₁) = >>-ok (raise_if (not (str_eq result.task_id c.task.task_id)) wrong_task) _ h in
    let (current, h₂) = >>-ok (raise_if (not (claim_is_current c now t)) lease_lost) _ h₁ in
    subst (λ (p : TaskRecord × Transport). Grows t p.1) (ok-injective h₂)
      (insert-Grows t c.task.task_id (finished c result status retry now) t.workers
        (erase c.task.task_id t.lease_tokens)
        (λ q e. finished-Follows c result status retry now ended (
          holds-held (lookup c.task.task_id t.records) (lookup c.task.task_id t.lease_tokens) c now
            (ground (arith, current)) e)))

pub cancel-Grows :
    (task_id reason : String) (now : ℕ) (t : Transport) → Grows t (cancel task_id reason now t).1
unfolding cancel
cancel-Grows task_id reason now t =
    cancel_row-Grows (lookup task_id t.records) task_id reason now t refl
