-- ===== src/Batch.antt =====
-- `BatchDisposition` of src/blackbase/contracts/batch.py: which items of a proposal survive a decision.
pub mod Gather
pub mod Validity
pub mod Compose
pub mod Ranges
mod Tests
use blackbase.Prelude.{
  ℕ, zero, suc, ◌+◌, ◌-◌, Bool, true, false, ◌&&◌, ◌||◌, not, String, List, [], ◌∷◌, ◌++◌, Option,
  none, some, map, if◌then◌else◌, ltb, leb, ◌==◌, length, get_elem?, keep, any, Dict, insert,
  update, is_empty, Result, ok, err, raise_if, ◌>>=◌, ◌>>◌, ℤ, pos, negsuc, is_negative, pos_part,
  int_ltb, int_eq,
}

pub data BatchError : Type 0 where
  negative_count not_increasing out_of_proposal bad_prefix bad_range cardinality_mismatch
        index_error :
      BatchError

-- A stage of the audit that `compose` writes.
pub record Stage : Type 0 where
  pub reason : String
  pub proposed_count : ℕ
  pub accepted_count : ℕ

-- A value of the metadata: a caller's, as a text, or one that the methods write.
pub data Note : Type 0 where
  text : String → Note
  parent_range : ℕ → ℕ → Note
  stages : Stage → Stage → Note

pub record BatchDisposition : Type 0 where
  pub proposed_count : ℕ
  pub accepted_indices : List ℕ
  pub reason : String
  pub reservation_id : String
  pub metadata : Dict Note

-- What the constructor is given.
pub record BatchArgs : Type 0 where
  pub proposed_count : ℤ
  pub accepted_indices : List ℤ
  pub reason : String
  pub reservation_id : String
  pub metadata : Dict Note

abbrev pub insert_sorted : ℤ → List ℤ → List ℤ
insert_sorted i [] = i ∷ []
insert_sorted i (j ∷ js) =
    let rest = j ∷ insert_sorted i js in
    if int_ltb i j then i ∷ j ∷ js else if int_eq i j then j ∷ js else rest

-- `tuple(sorted(set(indices)))`.
unfoldable pub sorted_set : List ℤ → List ℤ
sorted_set [] = []
sorted_set (i ∷ is) = insert_sorted i (sorted_set is)

abbrev pub ints_eq : List ℤ → List ℤ → Bool
ints_eq [] [] = true
ints_eq [] (j ∷ js) = false
ints_eq (i ∷ is) [] = false
ints_eq (i ∷ is) (j ∷ js) = int_eq i j && ints_eq is js

-- `value or default`.
abbrev pub or_text : String → String → String
or_text value default = if is_empty value then default else value

-- `BatchDisposition.__post_init__`.
unfoldable pub make_batch : BatchArgs → Result BatchError BatchDisposition
unfolding sorted_set is_empty
make_batch a = do
  raise_if (is_negative a.proposed_count) negative_count
  raise_if (not (ints_eq a.accepted_indices (sorted_set a.accepted_indices))) not_increasing
  raise_if (any (λ i. is_negative i || not (int_ltb i a.proposed_count)) a.accepted_indices)
      out_of_proposal
  ok (record {
    proposed_count = pos_part a.proposed_count;
    accepted_indices = map pos_part a.accepted_indices;
    reason = or_text a.reason "unspecified";
    reservation_id = a.reservation_id;
    metadata = a.metadata;
  })

unfoldable pub accepted_count : BatchDisposition → ℕ
accepted_count d = length d.accepted_indices

-- `index in set(indices)`.
abbrev pub is_among : ℕ → List ℕ → Bool
is_among i [] = false
is_among i (j ∷ js) = j == i || is_among i js

-- `range(start, start + n)`.
abbrev pub range : ℕ → ℕ → List ℕ
range start zero = []
range start (suc n) = start ∷ range (suc start) n

unfoldable pub rejected_indices : BatchDisposition → List ℕ
rejected_indices d = keep (λ i. not (is_among i d.accepted_indices)) (range 0 d.proposed_count)

unfoldable pub is_changed : BatchDisposition → Bool
unfolding accepted_count
is_changed d = not (accepted_count d == d.proposed_count)

abbrev pub prefix_args : ℤ → ℕ → String → String → Dict Note → BatchArgs
prefix_args proposed accepted reason reservation_id metadata = record {
  proposed_count = proposed;
  accepted_indices = map pos (range 0 accepted);
  reason = reason;
  reservation_id = reservation_id;
  metadata = metadata;
}

-- `BatchDisposition.prefix`.
unfoldable pub prefix : ℤ → ℤ → String → String → Dict Note → Result BatchError BatchDisposition
unfolding make_batch
prefix proposed accepted reason reservation_id metadata = do
  raise_if (is_negative proposed) negative_count
  raise_if (is_negative accepted || int_ltb proposed accepted) bad_prefix
  make_batch (prefix_args proposed (pos_part accepted) reason reservation_id metadata)

-- The indices of a range, counted from its start.
abbrev pub shifted : ℕ → ℕ → List ℕ → List ℕ
shifted start end is = map (λ i. i - start) (keep (λ i. leb start i && ltb i end) is)

abbrev pub range_args : ℕ → ℕ → BatchDisposition → BatchArgs
range_args start end d = record {
  proposed_count = pos (end - start);
  accepted_indices = map pos (shifted start end d.accepted_indices);
  reason = d.reason;
  reservation_id = d.reservation_id;
  metadata = insert "parent_range" (parent_range start end) d.metadata;
}

-- `for_range`.
unfoldable pub for_range : ℤ → ℤ → BatchDisposition → Result BatchError BatchDisposition
unfolding make_batch
for_range start end d = do
  raise_if (is_negative start || int_ltb end start || int_ltb (pos d.proposed_count) end) bad_range
  make_batch (range_args (pos_part start) (pos_part end) d)

abbrev pub cons? {ℓ} : {A : Type ℓ} → Option A → Option (List A) → Option (List A)
cons? none rest = none
cons? (some x) none = none
cons? (some x) (some xs) = some (x ∷ xs)

-- `tuple(items[i] for i in indices)`; `none` is the `IndexError`.
abbrev pub gather {ℓ} : {A : Type ℓ} → List A → List ℕ → Option (List A)
gather xs [] = some []
gather xs (i ∷ is) = cons? (get_elem? xs i) (gather xs is)

abbrev pub or_index_error : Option (List ℕ) → Result BatchError (List ℕ)
or_index_error none = err index_error
or_index_error (some is) = ok is

abbrev stage_of : BatchDisposition → Stage
stage_of d = record {
  reason = d.reason;
  proposed_count = d.proposed_count;
  accepted_count = length d.accepted_indices;
}

abbrev given_reason : Option String → String → String
given_reason none default = default
given_reason (some r) default = or_text r default

abbrev pub composed_args :
    BatchDisposition → BatchDisposition → Option String → Dict Note → List ℕ → BatchArgs
unfolding update is_empty
composed_args first later reason metadata accepted = record {
  proposed_count = pos first.proposed_count;
  accepted_indices = map pos accepted;
  reason = given_reason reason (or_text later.reason first.reason);
  reservation_id = or_text later.reservation_id first.reservation_id;
  metadata = update (("stages", stages (stage_of first) (stage_of later)) ∷ []) metadata;
}

-- `compose`: `first.compose(later, reason=..., metadata=...)`.
unfoldable pub compose :
    BatchDisposition
    → BatchDisposition
    → Option String
    → Dict Note
    → Result BatchError BatchDisposition
unfolding make_batch update is_empty
compose first later reason metadata = do
  raise_if (not (later.proposed_count == length first.accepted_indices)) cardinality_mismatch
  accepted ← or_index_error (gather first.accepted_indices later.accepted_indices)
  make_batch (composed_args first later reason metadata accepted)
