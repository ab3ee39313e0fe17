-- ===== src/Settlement/Tests.antt =====
-- The journal of src/blackbase/resources/budget_settlement.py on one settlement.
use blackbase.Prelude.{
  Bool, ◌&&◌, Dict, ◌≡◌, refl, List, [], ◌∷◌, none, some, All, lookup, ok, err, ℤ, pos,
}
use blackbase.Settlement.Wire.{
  Fields, text, number, items, tuple, nil, cons, end, field, Conversions, bad_conversion,
}
use blackbase.Settlement.Record.{
  BudgetSettlementRecord, SettlementArgs, Status, make_record, as_dict, from_dict,
}
use blackbase.Settlement.Journal.{Row, row_of, upsert, retryable}
use blackbase.Settlement.Roundtrip.{IsBuilt, make_record-IsBuilt, make_record-roundtrip}
use blackbase.Settlement.Book.{
  Book, write, SettlementCall, prepares, settles, readies, reserves, retries, IsCall, book_run, run,
}
use blackbase.Settlement.Refinement.{Represents, upsert-Represents, run-refines}
use blackbase.Settlement.History.{Advances, run-Advances}
use blackbase.Settlement.Listing.{count, awaits, retryable-lists}

abbrev strict : Conversions
strict = record {
  str = λ v. "";
  int = λ v. err bad_conversion;
  float = λ v. err bad_conversion;
  dict = λ v. err bad_conversion;
}

abbrev given : SettlementArgs
given = record {
  settlement_id = " s-1 ";
  project_run_id = "run";
  parent_case_run_id = "parent";
  child_case_run_id = "child";
  budget = "evaluations";
  parent_reservation_id = "r-1";
  parent_authority_ref = end;
  child_handle = field "handle_id" (text "h-1") (field "tags" (tuple (cons (text "a") nil)) end);
  requested_amount = pos 4;
  status = " Reserve_Intent";
  usage = end;
  attempts = pos 0;
  last_error = end;
  created_at = pos 0;
  updated_at = pos 0;
}

abbrev intent : BudgetSettlementRecord
intent = record {
  settlement_id = "s-1";
  project_run_id = "run";
  parent_case_run_id = "parent";
  child_case_run_id = "child";
  budget = "evaluations";
  parent_reservation_id = "r-1";
  parent_authority_ref = end;
  child_handle = field "handle_id" (text "h-1") (field "tags" (items (cons (text "a") nil)) end);
  requested_amount = 4;
  status = Status.reserve_intent;
  usage = end;
  attempts = 0;
  last_error = end;
  created_at = pos 7;
  updated_at = pos 7;
}

intent_made : make_record (pos 7) given ≡ ok intent
unfolding make_record
intent_made = refl

make_record-roundtrip_example : from_dict strict (pos 9) (as_dict intent) ≡ ok intent
make_record-roundtrip_example =
    make_record-roundtrip strict (pos 7) (pos 9) given intent refl intent_made

intent-IsBuilt : IsBuilt intent
intent-IsBuilt = make_record-IsBuilt (pos 7) given refl intent_made

abbrev no_book : Book
no_book k = none

empty-Represents : Represents [] no_book
empty-Represents = record { stored = λ k. refl }

abbrev usage : Fields
usage = field "charged_to_parent" (number (pos 3)) end

abbrev life : List (ℤ × SettlementCall)
life =
    (pos 8, prepares intent)
    ∷ (pos 9, reserves "s-1")
    ∷ (pos 10, readies "s-1" usage)
    ∷ (pos 11, retries "s-1" (record { error_type = "TimeoutError"; message = "busy" }) end)
    ∷ (pos 12, settles "s-1" usage)
    ∷ (pos 13, readies "s-2" usage)
    ∷ []

life-IsCall : All IsCall life
life-IsCall = (
  (refl, intent-IsBuilt),
  ((refl, tt), ((refl, tt), ((refl, tt), ((refl, tt), ((refl, tt), tt))))),
)

run-refines_example :
    ((run strict life []).0 ≡ (book_run life no_book).0)
    × Represents (run strict life []).1 (book_run life no_book).1
run-refines_example = run-refines strict life [] no_book life-IsCall empty-Represents

intent-Represents : Represents (upsert intent []) (write intent no_book)
intent-Represents = upsert-Represents intent [] no_book intent-IsBuilt empty-Represents

run-Advances_example :
    (s : BudgetSettlementRecord) × (lookup "s-1" (upsert intent []) ≡ some (row_of intent))
    × (lookup "s-1" (run strict life (upsert intent [])).1 ≡ some (row_of s))
    × Advances intent s
run-Advances_example =
    run-Advances strict life (upsert intent []) (write intent no_book) "s-1" intent life-IsCall
      intent-Represents refl

abbrev ended : BudgetSettlementRecord
ended = record intent { settlement_id = "s-2"; status = Status.settlement_ready; usage = usage }

ended_made :
    make_record
      (pos 7)
      (record given { settlement_id = "s-2"; status = "settlement_ready"; usage = usage })
    ≡ ok ended
unfolding make_record
ended_made = refl

ended-IsBuilt : IsBuilt ended
ended-IsBuilt =
    make_record-IsBuilt (pos 7)
      (record given { settlement_id = "s-2"; status = "settlement_ready"; usage = usage }) refl
      ended_made

abbrev two_rows : Dict Row
two_rows = ("s-1", row_of intent) ∷ ("s-2", row_of ended) ∷ []

two_rows_listed : retryable strict (pos 9) "run" two_rows ≡ ok (ended ∷ [])
unfolding retryable row_of
two_rows_listed = refl

retryable-lists_example :
    (out : List BudgetSettlementRecord) × (retryable strict (pos 9) "run" two_rows ≡ ok out)
    × ((q : BudgetSettlementRecord → Bool)
        → count q out ≡ count (λ r. awaits "run" r && q r) (intent ∷ ended ∷ []))
retryable-lists_example =
    retryable-lists strict (pos 9) "run" two_rows (intent ∷ ended ∷ []) refl
      (intent-IsBuilt, (ended-IsBuilt, tt))
