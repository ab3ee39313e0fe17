-- ===== src/Budget/Charged.antt =====
-- The units charged to the reservations of src/blackbase/resources/budget.py, over its calls.
use blackbase.Prelude.{
  ℕ, ◌+◌, ◌-◌, ◌≤◌, ◌≡◌, refl, ap, ◌∙◌, subst, inl, inr, Bool, ◌&&◌, ◌||◌, not, String, List, [],
  ◌∷◌, Option, none, some, arith, ltb, ◌==◌, str_eq, lookup, insert, total, total-insert,
  total-insert_new, total-map_values, ok, raise_if, >>-ok, >>=-ok, ok-injective, Bool-cases,
  Result-cases, if-elim, pos, pos_part,
}
use blackbase.Lease.{LeaseTable, is_current}
use blackbase.Budget.{
  Reservation, BudgetRow, BudgetDb, Snapshot, is_open, is_completed, fence_current, inactive,
  over_reservation, under_consumed, not_fenced, completed, cancelled, reclaim, reclaim_stale,
  configure, configure_row, status_of, reservation, budget_name, budget_limit, budget_row,
  reservation_amount, checked_id,
}
use blackbase.Budget.Operations.{
  ReserveArgs, admit, commit_units, complete_row, consume_row, cancel_row, reserve, complete,
  consume, cancel, new_reservation, identifier_of,
}
use blackbase.Budget.History.{BudgetCall, run_call, kept, play}

-- The units that all reservations have consumed.
unfoldable pub charged : BudgetDb → ℕ
charged db = total (λ r. r.completed) db.reservations

completed-reclaim :
    (now : ℕ) (t : LeaseTable) (r : Reservation) → (reclaim now t r).completed ≡ r.completed
unfolding reclaim
completed-reclaim now t r = ground arith

reclaim_stale-charged : (now : ℕ) (db : BudgetDb) → charged (reclaim_stale now db).0 ≡ charged db
unfolding charged reclaim_stale
reclaim_stale-charged now db =
    total-map_values (λ r. r.completed) (reclaim now db.leases) db.reservations
      (completed-reclaim now db.leases)

consume_row-charged :
    (o : Option Reservation) (k : String) (delta now : ℕ) (db : BudgetDb) {r : Reservation}
    {db' : BudgetDb}
    → lookup k db.reservations ≡ o
    → consume_row o k delta now db ≡ ok (r, db')
    → charged db' ≡ charged db + delta
unfolding charged commit_units
consume_row-charged none k delta now db e h = cc
consume_row-charged (some r) k delta now db e h =
    let (opened, h₁) = >>-ok (raise_if (not (is_open r.status)) inactive) _ h in
    let (room, h₂) = >>-ok (raise_if (ltb r.amount (r.completed + delta)) over_reservation) _ h₁ in
    let h₃ = (>>-ok (raise_if (not (fence_current now db.leases r)) not_fenced) _ h₂).1 in
    subst
      (λ (p : Reservation × BudgetDb).
        total (λ r. r.completed) p.1.reservations
        ≡ total (λ r. r.completed) db.reservations + delta)
      (ok-injective h₃)
      (omega (
        arith,
        total-insert (λ r. r.completed) k
            (record r { completed = r.completed + delta; updated_at = now }) r db.reservations e,
      ))

complete_row-charged :
    (o : Option Reservation) (k : String) (count now : ℕ) (db : BudgetDb) {r : Reservation}
    {db' : BudgetDb}
    → lookup k db.reservations ≡ o
    → complete_row o k count now db ≡ ok (r, db')
    → charged db ≤ charged db'
unfolding charged commit_units
complete_row-charged none k count now db e h = cc
complete_row-charged (some r) k count now db e h =
    if-elim (is_completed r.status && r.completed == count) _ _ h
      (λ replay h₁.
        subst (λ (p : Reservation × BudgetDb). charged db ≤ charged p.1) (ok-injective h₁)
          (omega arith))
      (λ fresh h₁.
        let (opened, h₂) = >>-ok (raise_if (not (is_open r.status)) inactive) _ h₁ in
        let (room, h₃) = >>-ok (raise_if (ltb r.amount count) over_reservation) _ h₂ in
        let (up, h₄) = >>-ok (raise_if (ltb count r.completed) under_consumed) _ h₃ in
        let h₅ = (>>-ok (raise_if (not (fence_current now db.leases r)) not_fenced) _ h₄).1 in
        let done = record r { status = completed; completed = count; updated_at = now } in
        let more = total-insert (λ r. r.completed) k done r db.reservations e in
        subst (λ (p : Reservation × BudgetDb). charged db ≤ charged p.1) (ok-injective h₅)
          (elim (Bool-cases (count - r.completed == 0)) [
            | inl same ↦ rw same (ground (arith, more))
            | inr other ↦ rw other (ground (arith, more))
          ]))

cancel_row-charged :
    (o : Option Reservation) (k : String) (now : ℕ) (db : BudgetDb)
    → lookup k db.reservations ≡ o
    → charged (cancel_row o k now db).1 ≡ charged db
unfolding charged
cancel_row-charged none k now db e = refl
cancel_row-charged (some r) k now db e =
    let ended = record r { status = cancelled; updated_at = now } in
    let same = total-insert (λ r. r.completed) k ended r db.reservations e in
    elim (Bool-cases (not (is_open r.status) || not (fence_current now db.leases r))) [
      | inl left ↦ rw left refl
      | inr taken ↦ rw taken (omega (arith, same))
    ]

admit-charged :
    (o : Option Reservation) (r : Reservation) (db : BudgetDb) {r' : Reservation} {db' : BudgetDb}
    → lookup r.reservation_id db.reservations ≡ o
    → admit o r db ≡ ok (r', db')
    → charged db ≤ charged db'
unfolding charged
admit-charged (some old) r db e h =
    if-elim
      (str_eq old.budget r.budget
        && old.amount == r.amount
        && str_eq old.lease_id r.lease_id
        && old.fencing_token == r.fencing_token)
      _ _ h
      (λ same h₁.
        subst (λ (p : Reservation × BudgetDb). charged db ≤ charged p.1) (ok-injective h₁)
          (omega arith))
      (λ other h₁. cc)
admit-charged none r db e h =
    let (row, found, h₁) = >>=-ok (budget_row r.budget db) _ h in
    let (fits, h₂) = >>-ok _ _ h₁ in
    let more = total-insert_new (λ r. r.completed) r.reservation_id r db.reservations e in
    let grown : charged db ≤ total (λ r. r.completed) (insert r.reservation_id r db.reservations) =
      omega (arith, more) in
    subst (λ (p : Reservation × BudgetDb). charged db ≤ charged p.1) (ok-injective h₂) grown

reserve-charged :
    (a : ReserveArgs) (now : ℕ) (db : BudgetDb) {r : Reservation} {db' : BudgetDb}
    → reserve a now db ≡ ok (r, db')
    → charged db ≤ charged db'
unfolding reserve
reserve-charged a now db h =
    let (name, n, h₁) = >>=-ok (budget_name a.budget) _ h in
    let (amount, m, h₂) = >>=-ok (reservation_amount a.amount) _ h₁ in
    let (f, h₃) =
      >>-ok (raise_if (not (is_current a.lease_id a.fencing_token now db.leases)) not_fenced) _
        h₂ in
    let more =
      admit-charged
        (lookup (identifier_of a.reservation_id a.fresh) (reclaim_stale now db).0.reservations)
        (new_reservation a name amount now) (reclaim_stale now db).0 refl h₃ in
    omega (arith, reclaim_stale-charged now db, more)

-- A call of `consume` that returns charges its units.
pub consume-charged :
    (i : String) (n now : ℕ) (db : BudgetDb) {r : Reservation} {db' : BudgetDb}
    → consume i (pos n) now db ≡ ok (r, db')
    → charged db' ≡ charged db + n
unfolding consume reservation_amount
consume-charged i n now db h =
    let (k, hk, h₁) = >>=-ok (checked_id i) _ h in
    let (d, hd, h₂) = >>=-ok (reservation_amount (pos n)) _ h₁ in
    let more = consume_row-charged (lookup k db.reservations) k d now db refl h₂ in
    let same : n ≡ d = ok-injective (>>-ok _ _ hd).1 in omega (arith, more, same)

configure_row-charged :
    (o : Option BudgetRow) (n : String) (m now : ℕ) (db : BudgetDb) {db' : BudgetDb}
    → configure_row o n m now db ≡ ok db'
    → charged db ≤ charged db'
unfolding charged
configure_row-charged (some row) n m now db h =
    if-elim (row.limit == m) _ _ h
      (λ same h₁. subst (λ x. charged db ≤ charged x) (ok-injective h₁) (omega arith))
      (λ other h₁. cc)
configure_row-charged none n m now db h =
    subst (λ x. charged db ≤ charged x) (ok-injective h) (omega arith)

pub run_call-charged :
    (c : BudgetCall) (now : ℕ) (db : BudgetDb) {db' : BudgetDb}
    → run_call c now db ≡ ok db'
    → charged db ≤ charged db'
unfolding run_call configure complete consume cancel reservation status_of charged
run_call-charged (BudgetCall.configure_call name limit) now db h =
    let (n, hn, h₁) = >>=-ok (budget_name name) _ h in
    let (m, hm, h₂) = >>=-ok (budget_limit limit) _ h₁ in
    configure_row-charged (lookup n db.budgets) n m now db h₂
run_call-charged (BudgetCall.reserve_call a) now db h =
    let (p, hp, h₁) = >>=-ok (reserve a now db) _ h in
    subst (λ x. charged db ≤ charged x) (ok-injective h₁) (reserve-charged a now db hp)
run_call-charged (BudgetCall.complete_call i count) now db h =
    let (p, hp, h₁) = >>=-ok (complete i count now db) _ h in
    let (k, hk, h₂) = >>=-ok (checked_id i) _ hp in
    subst (λ x. charged db ≤ charged x) (ok-injective h₁)
      (complete_row-charged (lookup k db.reservations) k (pos_part count) now db refl h₂)
run_call-charged (BudgetCall.consume_call i amount) now db h =
    let (p, hp, h₁) = >>=-ok (consume i amount now db) _ h in
    let (k, hk, h₂) = >>=-ok (checked_id i) _ hp in
    let (d, hd, h₃) = >>=-ok (reservation_amount amount) _ h₂ in
    let more = consume_row-charged (lookup k db.reservations) k d now db refl h₃ in
    subst (λ x. charged db ≤ charged x) (ok-injective h₁) (omega (arith, more))
run_call-charged (BudgetCall.cancel_call i) now db h =
    let (p, hp, h₁) = >>=-ok (cancel i now db) _ h in
    let (k, hk, h₂) = >>=-ok (checked_id i) _ hp in
    let same = cancel_row-charged (lookup k db.reservations) k now db refl in
    subst (λ x. charged db ≤ charged x)
      (ap (λ (q : Bool × BudgetDb). q.1) (ok-injective h₂) ∙ ok-injective h₁) (omega (arith, same))
run_call-charged (BudgetCall.reservation_call i) now db h =
    let (p, hp, h₁) = >>=-ok (reservation i now db) _ h in
    let (k, hk, h₂) = >>=-ok (checked_id i) _ hp in
    let same = reclaim_stale-charged now db in
    subst (λ x. charged db ≤ charged x)
      (ap (λ (q : Option Reservation × BudgetDb). q.1) (ok-injective h₂) ∙ ok-injective h₁)
      (omega (arith, same))
run_call-charged (BudgetCall.status_call name) now db h =
    let (p, hp, h₁) = >>=-ok (status_of name now db) _ h in
    let (k, hk, h₂) = >>=-ok (budget_name name) _ hp in
    let (row, hr, h₃) = >>=-ok (budget_row k (reclaim_stale now db).0) _ h₂ in
    let same = reclaim_stale-charged now db in
    subst (λ x. charged db ≤ charged x)
      (ap (λ (q : Snapshot × BudgetDb). q.1) (ok-injective h₃) ∙ ok-injective h₁)
      (omega (arith, same))
run_call-charged (BudgetCall.leases_written t) now db h =
    subst (λ x. charged db ≤ charged x) (ok-injective h) (omega arith)

pub play-charged : (cs : List (ℕ × BudgetCall)) (db : BudgetDb) → charged db ≤ charged (play cs db)
play-charged [] db = omega arith
play-charged ((now, c) ∷ cs) db =
    let rest = play-charged cs (kept db (run_call c now db)) in
    let here : charged db ≤ charged (kept db (run_call c now db)) =
      elim (Result-cases (run_call c now db)) [
        | inl (db', e) ↦ rw e (run_call-charged c now db e)
        | inr (x, e) ↦ rw e (omega arith)
      ] in
    omega (arith, rest, here)
