-- ===== src/Budget.antt =====
-- The shared Project budgets: `SQLiteBudgetAuthority` of src/blackbase/resources/budget.py, for one
-- namespace and scope, in the database of the lease authority. A transaction that raises rolls back.
pub mod Operations
pub mod Ledger
pub mod Transactions
pub mod History
pub mod Charged
pub mod Retry
mod Tests
use blackbase.Prelude.{
  ℕ, ◌+◌, ◌-◌, Bool, true, false, ◌&&◌, ◌||◌, not, String, List, [], ◌∷◌, Option, none, some,
  if◌then◌else◌, ltb, leb, ◌==◌, str_eq, Dict, lookup, insert, map_values, total, count_values,
  is_empty, strip, Result, ok, err, raise_if, ◌>>=◌, ◌>>◌, ℤ, pos_part, is_negative,
}
use blackbase.Lease.{LeaseTable, is_current}

pub data ReservationStatus : Type 0 where
  active completed cancelled reclaimed : ReservationStatus

-- `BudgetReservation`, which is also the row of `resource_budget_reservations`.
pub record Reservation : Type 0 where
  pub reservation_id : String
  pub budget : String
  pub amount : ℕ
  pub lease_id : String
  pub fencing_token : ℕ
  pub status : ReservationStatus
  pub completed : ℕ
  pub created_at : ℕ
  pub updated_at : ℕ

-- The row of `resource_budgets`.
pub record BudgetRow : Type 0 where
  pub limit : ℕ
  pub committed : ℕ
  pub updated_at : ℕ

-- The tables, by their primary keys.
pub record BudgetDb : Type 0 where
  pub leases : LeaseTable
  pub budgets : Dict BudgetRow
  pub reservations : Dict Reservation

pub data BudgetError : Type 0 where
  no_name bad_limit bad_amount no_reservation_id : BudgetError
  configured_otherwise unknown_budget unknown_reservation reused : BudgetError
  exceeded not_fenced inactive over_reservation under_consumed : BudgetError

-- `_budget_name`, `_budget_limit`, `_reservation_amount`, `_reservation_id`.
unfoldable pub budget_name : String → Result BudgetError String
budget_name value = do let name = strip value; raise_if (is_empty name) no_name; ok name

unfoldable pub budget_limit : ℤ → Result BudgetError ℕ
budget_limit value = do raise_if (is_negative value) bad_limit; ok (pos_part value)

unfoldable pub reservation_amount : ℤ → Result BudgetError ℕ
reservation_amount value = do raise_if (pos_part value == 0) bad_amount; ok (pos_part value)

unfoldable pub checked_id : String → Result BudgetError String
checked_id value = do raise_if (is_empty value) no_reservation_id; ok value

abbrev pub is_open : ReservationStatus → Bool
is_open active = true
is_open completed = false
is_open cancelled = false
is_open reclaimed = false

abbrev pub is_completed : ReservationStatus → Bool
is_completed active = false
is_completed completed = true
is_completed cancelled = false
is_completed reclaimed = false

-- `_fence_current_locked`.
unfoldable pub fence_current : ℕ → LeaseTable → Reservation → Bool
fence_current now leases r = is_current r.lease_id r.fencing_token now leases

-- The row after the `UPDATE` of `_reclaim_stale_locked`.
unfoldable pub reclaim : ℕ → LeaseTable → Reservation → Reservation
unfolding fence_current
reclaim now leases r =
    if is_open r.status && not (fence_current now leases r)
    then record r { status = reclaimed; updated_at = now }
    else r

-- `_reclaim_stale_locked`; the second part is the row count.
unfoldable pub reclaim_stale : ℕ → BudgetDb → BudgetDb × ℕ
unfolding reclaim
reclaim_stale now db = (
  record db { reservations = map_values (reclaim now db.leases) db.reservations },
  count_values (λ r. is_open r.status && not (fence_current now db.leases r)) db.reservations,
)

-- What a reservation holds back from a budget: `amount - completed_amount` of an active row.
abbrev pub held : String → Reservation → ℕ
held name r = if str_eq r.budget name && is_open r.status then r.amount - r.completed else 0

-- `_reserved_locked`.
unfoldable pub reserved : String → BudgetDb → ℕ
reserved name db = total (held name) db.reservations

abbrev required : Option BudgetRow → Result BudgetError BudgetRow
required none = err unknown_budget
required (some b) = ok b

-- `_budget_row_locked`.
unfoldable pub budget_row : String → BudgetDb → Result BudgetError BudgetRow
budget_row name db = required (lookup name db.budgets)

abbrev pub configure_row :
    Option BudgetRow → String → ℕ → ℕ → BudgetDb → Result BudgetError BudgetDb
configure_row none name maximum now db = ok (record db {
  budgets = insert name (record { limit = maximum; committed = 0; updated_at = now }) db.budgets;
})
configure_row (some row) name maximum now db =
    if row.limit == maximum then ok db else err configured_otherwise

-- `configure`.
unfoldable pub configure : String → ℤ → ℕ → BudgetDb → Result BudgetError BudgetDb
unfolding budget_name budget_limit
configure budget limit now db = do
  name ← budget_name budget
  maximum ← budget_limit limit
  configure_row (lookup name db.budgets) name maximum now db

-- `BudgetSnapshot`.
pub record Snapshot : Type 0 where
  pub budget : String
  pub limit : ℕ
  pub committed : ℕ
  pub reserved_amount : ℕ
  pub reclaimed_count : ℕ

-- `BudgetSnapshot.remaining`.
unfoldable pub remaining : Snapshot → ℕ
remaining s = s.limit - s.committed - s.reserved_amount

-- `status`.
unfoldable pub status_of : String → ℕ → BudgetDb → Result BudgetError (Snapshot × BudgetDb)
unfolding budget_name reclaim_stale budget_row reserved
status_of budget now db = do
  name ← budget_name budget
  let (db', count) = reclaim_stale now db
  row ← budget_row name db'
  ok (
    record {
      budget = name;
      limit = row.limit;
      committed = row.committed;
      reserved_amount = reserved name db';
      reclaimed_count = count;
    },
    db',
  )

-- `reservation`.
unfoldable pub reservation :
    String → ℕ → BudgetDb → Result BudgetError (Option Reservation × BudgetDb)
unfolding checked_id reclaim_stale
reservation reservation_id now db = do
  identifier ← checked_id reservation_id
  let db' = (reclaim_stale now db).0
  ok (lookup identifier db'.reservations, db')
