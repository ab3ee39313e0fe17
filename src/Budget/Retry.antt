-- ===== src/Budget/Retry.antt =====
-- Retries of `complete` of src/blackbase/resources/budget.py.
use blackbase.Prelude.{
  ℕ, ◌-◌, ◌≡◌, refl, subst, inl, inr, true, ◌&&◌, not, ◌==◌, String, Option, none, some, arith, ltb,
  str_eq_refl, lookup, lookup-insert, ok, raise_if, >>-ok, >>=-ok, ok-injective, if-elim,
  Bool-cases, ℤ, pos_part,
}
use blackbase.Budget.{
  Reservation, BudgetDb, completed, is_open, is_completed, fence_current, checked_id, inactive,
  over_reservation, under_consumed, not_fenced,
}
use blackbase.Budget.Operations.{complete_row, complete, commit_units}

-- A row that is completed with a count.
abbrev HasCompleted : String → ℕ → Reservation × BudgetDb → Type 0
HasCompleted k count p =
    (lookup k p.1.reservations ≡ some p.0)
    × ((is_completed p.0.status && p.0.completed == count) ≡ true)

complete_row-HasCompleted :
    (o : Option Reservation) (k : String) (count now : ℕ) (db : BudgetDb) {r : Reservation}
    {db' : BudgetDb}
    → lookup k db.reservations ≡ o
    → complete_row o k count now db ≡ ok (r, db')
    → HasCompleted k count (r, db')
unfolding commit_units
complete_row-HasCompleted none k count now db e h = cc
complete_row-HasCompleted (some r) k count now db e h =
    if-elim (is_completed r.status && r.completed == count) _ _ h
      (λ replay h₁. subst (HasCompleted k count) (ok-injective h₁) (e, replay))
      (λ fresh h₁.
        let (opened, h₂) = >>-ok (raise_if (not (is_open r.status)) inactive) _ h₁ in
        let (room, h₃) = >>-ok (raise_if (ltb r.amount count) over_reservation) _ h₂ in
        let (up, h₄) = >>-ok (raise_if (ltb count r.completed) under_consumed) _ h₃ in
        let h₅ = (>>-ok (raise_if (not (fence_current now db.leases r)) not_fenced) _ h₄).1 in
        let done = record r { status = completed; completed = count; updated_at = now } in
        subst (HasCompleted k count) (ok-injective h₅) (
          elim (Bool-cases (count - r.completed == 0)) [
            | inl same ↦ rw same (rw lookup-insert (rw str_eq_refl refl))
            | inr more ↦ rw more (rw lookup-insert (rw str_eq_refl refl))
          ],
          ground arith,
        ))

complete_row-again :
    (k : String) (count later : ℕ) (p : Reservation × BudgetDb)
    → HasCompleted k count p
    → complete_row (lookup k p.1.reservations) k count later p.1 ≡ ok p
complete_row-again k count later p (stored, done) = rw stored (rw done refl)

-- `complete` may be retried: after it returned, the same call at any later time returns the same
-- reservation and changes nothing, whether or not the lease is current then.
pub complete-again :
    (i : String) (count : ℤ) (now later : ℕ) (db : BudgetDb) {r : Reservation} {db' : BudgetDb}
    → complete i count now db ≡ ok (r, db')
    → complete i count later db' ≡ ok (r, db')
unfolding complete
complete-again i count now later db {r} {db'} h =
    let (k, named, h₁) = >>=-ok (checked_id i) _ h in
    rw named (
      complete_row-again k (pos_part count) later (r, db')
        (complete_row-HasCompleted (lookup k db.reservations) k (pos_part count) now db refl h₁))
