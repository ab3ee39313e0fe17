-- ===== src/Batch/Tests.antt =====
-- Dispositions of src/blackbase/contracts/batch.py on five items.
use blackbase.Prelude.{
  ℕ, ◌+◌, ◌≡◌, refl, true, not, List, [], ◌∷◌, ◌++◌, none, some, map, length, take, arith, ok,
  returns, pos,
}
use blackbase.Batch.{
  BatchDisposition, BatchArgs, Note, make_batch, compose, prefix, for_range, gather, is_among,
  rejected_indices, accepted_count,
}
use blackbase.Batch.Validity.{IsValid, make_batch-IsValid}
use blackbase.Batch.Compose.{compose-returns, compose-gather, prefix-take}
use blackbase.Batch.Ranges.{rejected_indices-partition, for_range-split}

abbrev first_args : BatchArgs
first_args = record {
  proposed_count = pos 5;
  accepted_indices = pos 0 ∷ pos 2 ∷ pos 3 ∷ [];
  reason = "admission";
  reservation_id = "r-1";
  metadata = [];
}

abbrev first : BatchDisposition
first = record {
  proposed_count = 5;
  accepted_indices = 0 ∷ 2 ∷ 3 ∷ [];
  reason = "admission";
  reservation_id = "r-1";
  metadata = [];
}

first_made : make_batch first_args ≡ ok first
unfolding make_batch
first_made = refl

make_batch-IsValid_example : IsValid first
make_batch-IsValid_example = make_batch-IsValid first_args first_made

abbrev later_args : BatchArgs
later_args = record {
  proposed_count = pos 3;
  accepted_indices = pos 1 ∷ pos 2 ∷ [];
  reason = "";
  reservation_id = "";
  metadata = [];
}

abbrev later : BatchDisposition
later = record {
  proposed_count = 3;
  accepted_indices = 1 ∷ 2 ∷ [];
  reason = "unspecified";
  reservation_id = "";
  metadata = [];
}

later-IsValid : IsValid later
unfolding make_batch
later-IsValid = make_batch-IsValid later_args refl

compose-returns_example : returns (compose first later none []) ≡ true
compose-returns_example =
    compose-returns first later none [] make_batch-IsValid_example later-IsValid

abbrev both : BatchDisposition
both = record {
  proposed_count = 5;
  accepted_indices = 2 ∷ 3 ∷ [];
  reason = "unspecified";
  reservation_id = "r-1";
  metadata =
      (
        "stages",
        Note.stages (record { reason = "admission"; proposed_count = 5; accepted_count = 3 })
            (record { reason = "unspecified"; proposed_count = 3; accepted_count = 2 }),
      )
      ∷ [];
}

composed_run : compose first later none [] ≡ ok both
unfolding compose
composed_run = refl

abbrev points : List ℕ
points = 10 ∷ 11 ∷ 12 ∷ 13 ∷ 14 ∷ []

compose-gather_example :
    IsValid both
    × ((kept : List ℕ) × (gather points first.accepted_indices ≡ some kept)
        × (gather points both.accepted_indices ≡ gather kept later.accepted_indices))
compose-gather_example =
    compose-gather first later both none [] points make_batch-IsValid_example later-IsValid
      composed_run refl

prefix-take_example :
    (d : BatchDisposition) × (prefix (pos 5) (pos 2) "budget" "" [] ≡ ok d)
    × (gather points d.accepted_indices ≡ some (take 2 points))
prefix-take_example = prefix-take 5 2 "budget" "" [] points (omega arith) refl

rejected_indices-partition_example :
    (length (rejected_indices first) + accepted_count first ≡ first.proposed_count)
    × (is_among 1 (rejected_indices first) ≡ not (is_among 1 first.accepted_indices))
rejected_indices-partition_example =
    rejected_indices-partition first 1 make_batch-IsValid_example (omega arith)

for_range-split_example :
    (l r : BatchDisposition) × (for_range (pos 0) (pos 2) first ≡ ok l)
    × (for_range (pos 2) (pos 5) first ≡ ok r)
    × (l.proposed_count + r.proposed_count ≡ 5)
    × (l.accepted_indices ++ map (λ i. i + 2) r.accepted_indices ≡ first.accepted_indices)
for_range-split_example = for_range-split 2 first make_batch-IsValid_example (omega arith)
