-- ===== src/Settlement/Journal.antt =====
-- `SQLiteBudgetSettlementJournal` of src/blackbase/resources/budget_settlement.py on the rows of one
-- namespace. Each method runs in one transaction, which an error rolls back: an operation returns the
-- record with the table after it, or an error. A row holds the payload that the code writes as JSON.
use blackbase.Prelude.{
  ◌+◌, Bool, true, false, ◌||◌, not, String, List, [], ◌∷◌, none, some, if◌then◌else◌, str_eq,
  is_empty, Dict, lookup, insert, values, keep, Result, ok, err, raise_if, ◌>>=◌, ◌>>◌, ℤ, pos,
  int_ltb,
}
use blackbase.Settlement.Wire.{
  SettlementError, Fields, text, number, mapping, end, field, is_end, put, fields_eq, Conversions,
  other_authority, unknown_settlement,
}
use blackbase.Settlement.Record.{
  Status, BudgetSettlementRecord, status_text, as_dict, from_dict, prepared, settlement_ready,
  retry_required, settled, reclaimed,
}

pub record Row : Type 0 where
  pub status : Status
  pub payload : Fields
  pub updated_at : ℤ

abbrev pub is_terminal : Status → Bool
is_terminal settled = true
is_terminal reclaimed = true
is_terminal Status.reserve_intent = false
is_terminal prepared = false
is_terminal settlement_ready = false
is_terminal retry_required = false

-- The statuses that `retryable` keeps.
abbrev pub may_retry : Status → Bool
may_retry settlement_ready = true
may_retry retry_required = true
may_retry Status.reserve_intent = false
may_retry prepared = false
may_retry settled = false
may_retry reclaimed = false

unfoldable pub row_of : BudgetSettlementRecord → Row
unfolding as_dict
row_of r = record { status = r.status; payload = as_dict r; updated_at = r.updated_at }

-- `_upsert_locked`.
unfoldable pub upsert : BudgetSettlementRecord → Dict Row → Dict Row
unfolding as_dict
upsert r t = insert r.settlement_id (row_of r) t

-- What a transition writes: its status, usage and error, and whether it counts as an attempt.
pub record Change : Type 0 where
  pub status : Status
  pub usage : Fields
  pub error : Fields
  pub increment_attempts : Bool

abbrev pub or_fields : Fields → Fields → Fields
or_fields f g = if is_end f then g else f

-- The payload that a transition encodes.
unfoldable pub changed_payload : ℤ → Change → BudgetSettlementRecord → Fields
unfolding put as_dict status_text
changed_payload now ch current = put "updated_at" (number now) (
    put "last_error" (mapping ch.error) (
      put "attempts" (number (pos (current.attempts + (if ch.increment_attempts then 1 else 0)))) (
        put "usage" (mapping (or_fields ch.usage current.usage))
          (put "status" (text (status_text ch.status)) (as_dict current)))))

-- An exception's class and text.
pub record Fault : Type 0 where
  pub error_type : String
  pub message : String

abbrev pub fault_fields : Fault → Fields
fault_fields e = field "error_type" (text e.error_type) (field "message" (text e.message) end)

abbrev pub settled_change : Fields → Change
settled_change usage = record {
  status = settled;
  usage = usage;
  error = end;
  increment_attempts = true;
}

abbrev pub reserved_change : Change
reserved_change = record { status = prepared; usage = end; error = end; increment_attempts = false }

abbrev pub ready_change : Fields → Change
ready_change usage = record {
  status = settlement_ready;
  usage = usage;
  error = end;
  increment_attempts = true;
}

abbrev pub retry_change : Fault → Fields → Change
retry_change e usage = record {
  status = retry_required;
  usage = usage;
  error = fault_fields e;
  increment_attempts = true;
}

abbrev pub reclaimed_change : Fault → Fields → Change
reclaimed_change e usage = record {
  status = reclaimed;
  usage = usage;
  error = fault_fields e;
  increment_attempts = true;
}

abbrev pub insert_by_time : Row → List Row → List Row
insert_by_time r [] = r ∷ []
insert_by_time r (s ∷ rows) =
    let rest = s ∷ insert_by_time r rows in
    if int_ltb s.updated_at r.updated_at then rest else r ∷ s ∷ rows

-- `ORDER BY updated_at`.
abbrev pub sort_by_time : List Row → List Row
sort_by_time [] = []
sort_by_time (r ∷ rows) = insert_by_time r (sort_by_time rows)

module _ (c : Conversions) where
  -- `prepare`.
  unfoldable pub prepare :
      ℤ
      → BudgetSettlementRecord
      → Dict Row
      → Result SettlementError (BudgetSettlementRecord × Dict Row)
  unfolding upsert from_dict fields_eq
  prepare now r t = elim (lookup r.settlement_id t) [
    | none ↦ ok (r, upsert r t)
    | some row ↦ from_dict c now row.payload >>= λ current.
        raise_if
          (not (str_eq current.parent_reservation_id r.parent_reservation_id)
            || not (fields_eq current.child_handle r.child_handle))
          other_authority
        >> ok (current, t)
  ]

  -- `_transition`.
  unfoldable pub transition :
      ℤ → String → Change → Dict Row → Result SettlementError (BudgetSettlementRecord × Dict Row)
  unfolding upsert from_dict changed_payload
  transition now settlement_id ch t = elim (lookup settlement_id t) [
    | none ↦ err unknown_settlement
    | some row ↦ from_dict c now row.payload >>= λ current. elim (is_terminal current.status) [
      | true ↦ ok (current, t)
      | false ↦ from_dict c now (changed_payload now ch current) >>= λ updated.
          ok (updated, upsert updated t)
    ]
  ]

  unfoldable pub mark_settled :
      ℤ → String → Fields → Dict Row → Result SettlementError (BudgetSettlementRecord × Dict Row)
  unfolding transition
  mark_settled now settlement_id usage = transition now settlement_id (settled_change usage)

  unfoldable pub mark_reserved :
      ℤ → String → Dict Row → Result SettlementError (BudgetSettlementRecord × Dict Row)
  unfolding transition
  mark_reserved now settlement_id = transition now settlement_id reserved_change

  unfoldable pub mark_ready :
      ℤ → String → Fields → Dict Row → Result SettlementError (BudgetSettlementRecord × Dict Row)
  unfolding transition
  mark_ready now settlement_id usage = transition now settlement_id (ready_change usage)

  unfoldable pub mark_retry :
      ℤ
      → String
      → Fault
      → Fields
      → Dict Row
      → Result SettlementError (BudgetSettlementRecord × Dict Row)
  unfolding transition
  mark_retry now settlement_id e usage = transition now settlement_id (retry_change e usage)

  unfoldable pub mark_reclaimed :
      ℤ
      → String
      → Fault
      → Fields
      → Dict Row
      → Result SettlementError (BudgetSettlementRecord × Dict Row)
  unfolding transition
  mark_reclaimed now settlement_id e usage = transition now settlement_id (reclaimed_change e usage)

  -- The records of some rows.
  unfoldable pub decoded : ℤ → List Row → Result SettlementError (List BudgetSettlementRecord)
  unfolding from_dict
  decoded now [] = ok []
  decoded now (row ∷ rows) = do
    r ← from_dict c now row.payload
    rest ← decoded now rows
    ok (r ∷ rest)

  -- `pending`.
  unfoldable pub pending :
      ℤ → String → Dict Row → Result SettlementError (List BudgetSettlementRecord)
  unfolding decoded is_empty
  pending now project_run_id t = do
    records ← decoded now (sort_by_time (keep (λ row. not (is_terminal row.status)) (values t)))
    ok (keep (λ r. is_empty project_run_id || str_eq r.project_run_id project_run_id) records)

  -- `retryable`.
  unfoldable pub retryable :
      ℤ → String → Dict Row → Result SettlementError (List BudgetSettlementRecord)
  unfolding pending
  retryable now project_run_id t = do
    records ← pending now project_run_id t
    ok (keep (λ r. may_retry r.status) records)
