-- ===== src/Budget/Operations.antt =====
-- The writing transactions of `SQLiteBudgetAuthority` in src/blackbase/resources/budget.py.
use blackbase.Prelude.{
  ℕ, ◌+◌, ◌-◌, Bool, true, false, ◌&&◌, ◌||◌, not, String, Option, none, some, if◌then◌else◌, ltb,
  ◌==◌, str_eq, Dict, lookup, insert, is_empty, Result, ok, err, raise_if, ◌>>=◌, ◌>>◌, ℤ, pos_part,
}
use blackbase.Lease.{is_current}
use blackbase.Budget.{
  Reservation, BudgetRow, BudgetDb, BudgetError, active, completed, cancelled, is_open,
  is_completed, budget_name, reservation_amount, checked_id, fence_current, reclaim_stale, reserved,
  budget_row, unknown_reservation, reused, exceeded, not_fenced, inactive, over_reservation,
  under_consumed,
}

-- What `reserve` is given; `fresh` is the identifier that it draws if none is asked for.
pub record ReserveArgs : Type 0 where
  pub budget : String
  pub amount : ℤ
  pub lease_id : String
  pub fencing_token : ℕ
  pub reservation_id : Option String
  pub fresh : String

-- `str(reservation_id or f"budget-{uuid4().hex}")`.
abbrev pub identifier_of : Option String → String → String
identifier_of none fresh = fresh
identifier_of (some i) fresh = if is_empty i then fresh else i

-- The row that `reserve` inserts.
abbrev pub new_reservation : ReserveArgs → String → ℕ → ℕ → Reservation
new_reservation a name amount now = record {
  reservation_id = identifier_of a.reservation_id a.fresh;
  budget = name;
  amount = amount;
  lease_id = a.lease_id;
  fencing_token = a.fencing_token;
  status = active;
  completed = 0;
  created_at = now;
  updated_at = now;
}

-- The end of `reserve`, by the row already stored under the identifier.
abbrev pub admit :
    Option Reservation → Reservation → BudgetDb → Result BudgetError (Reservation × BudgetDb)
admit (some old) r db =
    if str_eq old.budget r.budget
      && old.amount == r.amount
      && str_eq old.lease_id r.lease_id
      && old.fencing_token == r.fencing_token
    then ok (old, db)
    else err reused
admit none r db = do
  row ← budget_row r.budget db
  raise_if (ltb (row.limit - row.committed - reserved r.budget db) r.amount) exceeded
  ok (r, record db { reservations = insert r.reservation_id r db.reservations })

-- `reserve`.
unfoldable pub reserve : ReserveArgs → ℕ → BudgetDb → Result BudgetError (Reservation × BudgetDb)
unfolding budget_name reservation_amount reclaim_stale budget_row reserved
reserve a now db = do
  name ← budget_name a.budget
  requested ← reservation_amount a.amount
  raise_if (not (is_current a.lease_id a.fencing_token now db.leases)) not_fenced
  let db' = (reclaim_stale now db).0
  admit (lookup (identifier_of a.reservation_id a.fresh) db'.reservations)
      (new_reservation a name requested now) db'

abbrev pub add_committed : Option BudgetRow → String → ℕ → ℕ → Dict BudgetRow → Dict BudgetRow
add_committed none name delta now rows = rows
add_committed (some row) name delta now rows =
    insert name (record row { committed = row.committed + delta; updated_at = now }) rows

-- `UPDATE resource_budgets SET committed_amount = committed_amount + delta` for one budget.
unfoldable pub commit_units : String → ℕ → ℕ → BudgetDb → BudgetDb
commit_units name delta now db = record db {
  budgets = add_committed (lookup name db.budgets) name delta now db.budgets;
}

-- `UPDATE resource_budget_reservations` for one reservation.
abbrev pub put_reservation : String → Reservation → BudgetDb → BudgetDb
put_reservation identifier r db = record db { reservations = insert identifier r db.reservations }

-- The tests and writes of `complete` on the row of the reservation.
abbrev pub complete_row :
    Option Reservation → String → ℕ → ℕ → BudgetDb → Result BudgetError (Reservation × BudgetDb)
complete_row none identifier count now db = err unknown_reservation
complete_row (some r) identifier count now db =
    if is_completed r.status && r.completed == count then ok (r, db) else do
      raise_if (not (is_open r.status)) inactive
      raise_if (ltb r.amount count) over_reservation
      raise_if (ltb count r.completed) under_consumed
      raise_if (not (fence_current now db.leases r)) not_fenced
      let delta = count - r.completed
      let charged = if delta == 0 then db else commit_units r.budget delta now db
      let done = record r { status = completed; completed = count; updated_at = now }
      ok (done, put_reservation identifier done charged)

-- `complete`.
unfoldable pub complete : String → ℤ → ℕ → BudgetDb → Result BudgetError (Reservation × BudgetDb)
unfolding checked_id commit_units
complete reservation_id count now db = do
  identifier ← checked_id reservation_id
  complete_row (lookup identifier db.reservations) identifier (pos_part count) now db

abbrev pub consume_row :
    Option Reservation → String → ℕ → ℕ → BudgetDb → Result BudgetError (Reservation × BudgetDb)
consume_row none identifier delta now db = err unknown_reservation
consume_row (some r) identifier delta now db = do
  raise_if (not (is_open r.status)) inactive
  raise_if (ltb r.amount (r.completed + delta)) over_reservation
  raise_if (not (fence_current now db.leases r)) not_fenced
  let used = record r { completed = r.completed + delta; updated_at = now }
  ok (used, put_reservation identifier used (commit_units r.budget delta now db))

-- `consume`.
unfoldable pub consume : String → ℤ → ℕ → BudgetDb → Result BudgetError (Reservation × BudgetDb)
unfolding checked_id reservation_amount commit_units
consume reservation_id amount now db = do
  identifier ← checked_id reservation_id
  delta ← reservation_amount amount
  consume_row (lookup identifier db.reservations) identifier delta now db

abbrev pub cancel_row : Option Reservation → String → ℕ → BudgetDb → Bool × BudgetDb
cancel_row none identifier now db = (false, db)
cancel_row (some r) identifier now db =
    if not (is_open r.status) || not (fence_current now db.leases r)
    then (false, db)
    else (true, put_reservation identifier (record r { status = cancelled; updated_at = now }) db)

-- `cancel`.
unfoldable pub cancel : String → ℕ → BudgetDb → Result BudgetError (Bool × BudgetDb)
unfolding checked_id
cancel reservation_id now db = do
  identifier ← checked_id reservation_id
  ok (cancel_row (lookup identifier db.reservations) identifier now db)
