-- ===== src/Settlement/Book.antt =====
-- The specification of the journal of src/blackbase/resources/budget_settlement.py, a book that maps each
-- settlement to its record, and runs of the journal's calls.
use blackbase.Prelude.{
  ◌+◌, ◌≡◌, true, false, ◌||◌, not, String, List, [], ◌∷◌, Option, none, some, if◌then◌else◌,
  str_eq, Dict, Result, ok, err, raise_if, ◌>>=◌, ◌>>◌, ℤ, pos, int_eq,
}
use blackbase.Settlement.Wire.{
  SettlementError, Fields, plain_fields, fields_eq, Conversions, other_authority,
  unknown_settlement,
}
use blackbase.Settlement.Record.{BudgetSettlementRecord}
use blackbase.Settlement.Journal.{
  Row, Change, Fault, is_terminal, or_fields, prepare, mark_settled, mark_reserved, mark_ready,
  mark_retry, mark_reclaimed, settled_change, reserved_change, ready_change, retry_change,
  reclaimed_change,
}
use blackbase.Settlement.Roundtrip.{IsBuilt}

-- A book: the record of each settlement, if it has one.
abbrev pub Book : Type 0
Book = String → Option BudgetSettlementRecord

abbrev pub write : BudgetSettlementRecord → Book → Book
write r b k = if str_eq r.settlement_id k then some r else b k

unfoldable pub book_prepare :
    BudgetSettlementRecord → Book → Result SettlementError (BudgetSettlementRecord × Book)
unfolding fields_eq
book_prepare r b = elim (b r.settlement_id) [
  | none ↦ ok (r, write r b)
  | some current ↦
      raise_if
        (not (str_eq current.parent_reservation_id r.parent_reservation_id)
          || not (fields_eq current.child_handle r.child_handle))
        other_authority
      >> ok (current, b)
]

abbrev pub changed : ℤ → Change → Fields → Fields → BudgetSettlementRecord → BudgetSettlementRecord
changed now ch usage error r = record r {
  status = ch.status;
  usage = usage;
  attempts = r.attempts + (if ch.increment_attempts then 1 else 0);
  last_error = error;
  updated_at = now;
}

unfoldable pub book_transition :
    ℤ → String → Change → Book → Result SettlementError (BudgetSettlementRecord × Book)
unfolding plain_fields
book_transition now k ch b = elim (b k) [
  | none ↦ err unknown_settlement
  | some current ↦ elim (is_terminal current.status) [
    | true ↦ ok (current, b)
    | false ↦ plain_fields (or_fields ch.usage current.usage) >>= λ usage.
        plain_fields ch.error >>= λ error.
        ok (changed now ch usage error current, write (changed now ch usage error current) b)
  ]
]

-- The calls that change the journal.
pub data SettlementCall : Type 0 where
  prepares : BudgetSettlementRecord → SettlementCall
  settles readies : String → Fields → SettlementCall
  reserves : String → SettlementCall
  retries reclaims : String → Fault → Fields → SettlementCall

abbrev pub IsBuiltCall : SettlementCall → Type 0
IsBuiltCall (prepares r) = IsBuilt r
IsBuiltCall (settles k usage) = Unit
IsBuiltCall (readies k usage) = Unit
IsBuiltCall (reserves k) = Unit
IsBuiltCall (retries k e usage) = Unit
IsBuiltCall (reclaims k e usage) = Unit

-- A call at a clock that is not at zero, of a record that its constructor built.
abbrev pub IsCall : ℤ × SettlementCall → Type 0
IsCall (now, call) = (int_eq now (pos 0) ≡ false) × IsBuiltCall call

unfoldable pub book_step :
    ℤ → SettlementCall → Book → Result SettlementError (BudgetSettlementRecord × Book)
unfolding book_prepare book_transition
book_step now (prepares r) = book_prepare r
book_step now (settles k usage) = book_transition now k (settled_change usage)
book_step now (readies k usage) = book_transition now k (ready_change usage)
book_step now (reserves k) = book_transition now k reserved_change
book_step now (retries k e usage) = book_transition now k (retry_change e usage)
book_step now (reclaims k e usage) = book_transition now k (reclaimed_change e usage)

-- What a call returns to its caller, and the state that it leaves: an error leaves the state as it was.
abbrev pub outcome :
    {X : Type 0}
    → Result SettlementError (BudgetSettlementRecord × X)
    → Result SettlementError BudgetSettlementRecord
outcome (ok (r, x)) = ok r
outcome (err e) = err e

abbrev pub after : {X : Type 0} → Result SettlementError (BudgetSettlementRecord × X) → X → X
after (ok (r, y)) x = y
after (err e) x = x

unfoldable pub book_run :
    List (ℤ × SettlementCall) → Book → List (Result SettlementError BudgetSettlementRecord) × Book
unfolding book_step
book_run [] b = ([], b)
book_run ((now, call) ∷ calls) b =
    let (outcomes, last) = book_run calls (after (book_step now call b) b) in
    (outcome (book_step now call b) ∷ outcomes, last)

module _ (c : Conversions) where
  abbrev pub step :
      ℤ → SettlementCall → Dict Row → Result SettlementError (BudgetSettlementRecord × Dict Row)
  unfolding prepare mark_settled mark_reserved mark_ready mark_retry mark_reclaimed
  step now (prepares r) = prepare c now r
  step now (settles k usage) = mark_settled c now k usage
  step now (readies k usage) = mark_ready c now k usage
  step now (reserves k) = mark_reserved c now k
  step now (retries k e usage) = mark_retry c now k e usage
  step now (reclaims k e usage) = mark_reclaimed c now k e usage

  unfoldable pub run :
      List (ℤ × SettlementCall)
      → Dict Row
      → List (Result SettlementError BudgetSettlementRecord) × Dict Row
  unfolding step
  run [] t = ([], t)
  run ((now, call) ∷ calls) t =
      let (outcomes, last) = run calls (after (step now call t) t) in
      (outcome (step now call t) ∷ outcomes, last)
