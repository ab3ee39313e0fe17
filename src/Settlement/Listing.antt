-- ===== src/Settlement/Listing.antt =====
-- What `pending` and `retryable` of src/blackbase/resources/budget_settlement.py return.
use blackbase.Prelude.{
  ℕ, ◌≡◌, refl, ◌∙◌, inl, inr, Bool, true, false, ◌&&◌, ◌||◌, not, String, List, [], ◌∷◌,
  if◌then◌else◌, str_eq, is_empty, Bool-cases, All, Dict, values, keep, length, ok, ℤ, int_ltb,
}
use blackbase.Settlement.Wire.{Conversions}
use blackbase.Settlement.Record.{BudgetSettlementRecord, Status}
use blackbase.Settlement.Journal.{
  Row, is_terminal, row_of, insert_by_time, sort_by_time, decoded, pending, retryable, may_retry,
}
use blackbase.Settlement.Roundtrip.{IsBuilt, from_dict-as_dict}

-- The rows that hold some records.
abbrev pub rows_of : List BudgetSettlementRecord → List Row
rows_of [] = []
rows_of (r ∷ rs) = row_of r ∷ rows_of rs

insert_record : BudgetSettlementRecord → List BudgetSettlementRecord → List BudgetSettlementRecord
insert_record r [] = r ∷ []
insert_record r (s ∷ rs) =
    let rest = s ∷ insert_record r rs in
    if int_ltb s.updated_at r.updated_at then rest else r ∷ s ∷ rs

sort_records : List BudgetSettlementRecord → List BudgetSettlementRecord
unfolding insert_record
sort_records [] = []
sort_records (r ∷ rs) = insert_record r (sort_records rs)

abbrev live : BudgetSettlementRecord → Bool
live r = not (is_terminal r.status)

-- Whether a record is one of the project run, or no run is asked for.
abbrev of_run : String → BudgetSettlementRecord → Bool
unfolding is_empty
of_run run r = is_empty run || str_eq r.project_run_id run

abbrev retries_of : BudgetSettlementRecord → Bool
retries_of r = may_retry r.status

insert_by_time-rows_of :
    (r : BudgetSettlementRecord) (rs : List BudgetSettlementRecord)
    → insert_by_time (row_of r) (rows_of rs) ≡ rows_of (insert_record r rs)
unfolding insert_record row_of
insert_by_time-rows_of r [] = refl
insert_by_time-rows_of r (s ∷ rs) = elim (Bool-cases (int_ltb s.updated_at r.updated_at)) [
  | inl before ↦ rw (before, insert_by_time-rows_of r rs) refl
  | inr after ↦ rw after refl
]

sort_by_time-rows_of :
    (rs : List BudgetSettlementRecord) → sort_by_time (rows_of rs) ≡ rows_of (sort_records rs)
unfolding sort_records
sort_by_time-rows_of [] = refl
sort_by_time-rows_of (r ∷ rs) =
    rw (sort_by_time-rows_of rs) (insert_by_time-rows_of r (sort_records rs))

keep-rows_of :
    (rs : List BudgetSettlementRecord)
    → keep (λ row. not (is_terminal row.status)) (rows_of rs) ≡ rows_of (keep live rs)
unfolding row_of
keep-rows_of [] = refl
keep-rows_of (r ∷ rs) = elim (Bool-cases (is_terminal r.status)) [
  | inl done ↦ rw done (keep-rows_of rs)
  | inr unsettled ↦ rw (unsettled, keep-rows_of rs) refl
]

module _ {A : Type 0} where
  All-keep : (P : A → Type 0) (p : A → Bool) (xs : List A) → All P xs → All P (keep p xs)
  All-keep P p [] h = h
  All-keep P p (x ∷ xs) h = elim (Bool-cases (p x)) [
    | inl kept ↦ rw kept (h.0, All-keep P p xs h.1)
    | inr left ↦ rw left (All-keep P p xs h.1)
  ]

  -- How many elements of a list pass a test.
  abbrev pub count : (A → Bool) → List A → ℕ
  count p xs = length (keep p xs)

  count-keep : (p q : A → Bool) (xs : List A) → count q (keep p xs) ≡ count (λ x. p x && q x) xs
  count-keep p q [] = refl
  count-keep p q (x ∷ xs) = elim (Bool-cases (p x)) [
    | inl kept ↦ elim (Bool-cases (q x)) [
      | inl hit ↦ rw (kept, hit, count-keep p q xs) refl
      | inr miss ↦ rw (kept, miss, count-keep p q xs) refl
    ]
    | inr left ↦ rw (left, count-keep p q xs) refl
  ]

  count-ext : (p q : A → Bool) (xs : List A) → ((x : A) → p x ≡ q x) → count p xs ≡ count q xs
  count-ext p q [] h = refl
  count-ext p q (x ∷ xs) h = elim (Bool-cases (q x)) [
    | inl hit ↦ rw (h x, hit, count-ext p q xs h) refl
    | inr miss ↦ rw (h x, miss, count-ext p q xs h) refl
  ]

insert_record-count :
    (q : BudgetSettlementRecord → Bool) (r : BudgetSettlementRecord)
    (rs : List BudgetSettlementRecord)
    → count q (insert_record r rs) ≡ count q (r ∷ rs)
unfolding insert_record
insert_record-count q r [] = refl
insert_record-count q r (s ∷ rs) = elim (Bool-cases (int_ltb s.updated_at r.updated_at)) [
  | inr after ↦ rw after refl
  | inl before ↦ elim (Bool-cases (q r)) [
    | inl a ↦ elim (Bool-cases (q s)) [
      | inl b ↦ rw (before, a, b, insert_record-count q r rs) (rw a refl)
      | inr b ↦ rw (before, a, b, insert_record-count q r rs) (rw a refl)
    ]
    | inr a ↦ elim (Bool-cases (q s)) [
      | inl b ↦ rw (before, a, b, insert_record-count q r rs) (rw a refl)
      | inr b ↦ rw (before, a, b, insert_record-count q r rs) (rw a refl)
    ]
  ]
]

sort_records-count :
    (q : BudgetSettlementRecord → Bool) (rs : List BudgetSettlementRecord)
    → count q (sort_records rs) ≡ count q rs
unfolding sort_records
sort_records-count q [] = refl
sort_records-count q (r ∷ rs) =
    insert_record-count q r (sort_records rs) ∙ elim (Bool-cases (q r)) [
      | inl hit ↦ rw (hit, sort_records-count q rs) refl
      | inr miss ↦ rw (miss, sort_records-count q rs) refl
    ]

insert_record-All :
    (r : BudgetSettlementRecord) (rs : List BudgetSettlementRecord)
    → IsBuilt r
    → All IsBuilt rs
    → All IsBuilt (insert_record r rs)
unfolding insert_record
insert_record-All r [] b h = (b, tt)
insert_record-All r (s ∷ rs) b h = elim (Bool-cases (int_ltb s.updated_at r.updated_at)) [
  | inl before ↦ rw before (h.0, insert_record-All r rs b h.1)
  | inr after ↦ rw after (b, h)
]

sort_records-All :
    (rs : List BudgetSettlementRecord) → All IsBuilt rs → All IsBuilt (sort_records rs)
unfolding sort_records
sort_records-All [] h = tt
sort_records-All (r ∷ rs) h = insert_record-All r (sort_records rs) h.0 (sort_records-All rs h.1)

decoded-rows_of :
    (c : Conversions) (now : ℤ) (rs : List BudgetSettlementRecord)
    → All IsBuilt rs
    → decoded c now (rows_of rs) ≡ ok rs
unfolding decoded row_of
decoded-rows_of c now [] h = refl
decoded-rows_of c now (r ∷ rs) h =
    rw (from_dict-as_dict c now r h.0, decoded-rows_of c now rs h.1) refl

-- Whether the run of the child has ended and its parent has yet to be settled with.
abbrev pub has_ended : Status → Bool
has_ended Status.reserve_intent = false
has_ended Status.prepared = false
has_ended Status.settlement_ready = true
has_ended Status.retry_required = true
has_ended Status.settled = false
has_ended Status.reclaimed = false

-- The records that a caller may retry, of one project run or of every run.
unfoldable pub awaits : String → BudgetSettlementRecord → Bool
unfolding is_empty
awaits run r = (is_empty run || str_eq r.project_run_id run) && has_ended r.status

listed : String → List BudgetSettlementRecord → List BudgetSettlementRecord
listed run rs = keep retries_of (keep (of_run run) (sort_records (keep live rs)))

retryable-listed :
    (c : Conversions) (now : ℤ) (run : String) (t : Dict Row) (rs : List BudgetSettlementRecord)
    → values t ≡ rows_of rs
    → All IsBuilt rs
    → retryable c now run t ≡ ok (listed run rs)
unfolding retryable pending listed of_run
retryable-listed c now run t rs e h =
    rw
      (
        e,
        keep-rows_of rs,
        sort_by_time-rows_of (keep live rs),
        decoded-rows_of c now (sort_records (keep live rs))
            (sort_records-All (keep live rs) (All-keep IsBuilt live rs h)),
      )
      refl

may_retry-live :
    (s : Status) (b q : Bool)
    → (not (is_terminal s) && (b && (may_retry s && q))) ≡ ((b && has_ended s) && q)
may_retry-live Status.reserve_intent false q = refl
may_retry-live Status.reserve_intent true q = refl
may_retry-live Status.prepared false q = refl
may_retry-live Status.prepared true q = refl
may_retry-live Status.settlement_ready false q = refl
may_retry-live Status.settlement_ready true q = refl
may_retry-live Status.retry_required false q = refl
may_retry-live Status.retry_required true q = refl
may_retry-live Status.settled false q = refl
may_retry-live Status.settled true q = refl
may_retry-live Status.reclaimed false q = refl
may_retry-live Status.reclaimed true q = refl

listed-count :
    (q : BudgetSettlementRecord → Bool) (run : String) (rs : List BudgetSettlementRecord)
    → count q (listed run rs) ≡ count (λ r. awaits run r && q r) rs
unfolding listed awaits of_run
listed-count q run rs =
    count-keep retries_of q (keep (of_run run) (sort_records (keep live rs)))
    ∙ count-keep (of_run run) (λ r. retries_of r && q r) (sort_records (keep live rs))
    ∙ sort_records-count (λ r. of_run run r && (retries_of r && q r)) (keep live rs)
    ∙ count-keep live (λ r. of_run run r && (retries_of r && q r)) rs
    ∙ count-ext (λ r. live r && (of_run run r && (retries_of r && q r))) (λ r. awaits run r && q r)
        rs (λ r. may_retry-live r.status (of_run run r) (q r))

-- On a table whose rows hold records as the constructor builds them, `retryable` returns a list without an
-- error, and the list has each record of the asked run (of every run when none is named) whose status is
-- settlement_ready or retry_required as often as the table has it, and no other: any test counts the same.
pub retryable-lists :
    (c : Conversions) (now : ℤ) (run : String) (t : Dict Row) (rs : List BudgetSettlementRecord)
    → values t ≡ rows_of rs
    → All IsBuilt rs
    → (out : List BudgetSettlementRecord) × (retryable c now run t ≡ ok out)
      × ((q : BudgetSettlementRecord → Bool) → count q out ≡ count (λ r. awaits run r && q r) rs)
retryable-lists c now run t rs e h =
    (listed run rs, retryable-listed c now run t rs e h, λ q. listed-count q run rs)
