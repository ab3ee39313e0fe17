-- ===== src/Batch/Validity.antt =====
-- What the constructor of src/blackbase/contracts/batch.py accepts.
use blackbase.Prelude.{
  ℕ, ◌<◌, ◌≡◌, refl, sym, ap, subst, inl, inr, Bool, true, false, ◌||◌, not, List, [], ◌∷◌, map,
  arith, All, any, Bool-cases, ok, raise_if, >>-ok, ok-injective, ℤ, pos, negsuc, is_negative,
  pos_part, int_ltb, int_eq,
}
use blackbase.Batch.{
  BatchArgs, BatchDisposition, insert_sorted, sorted_set, ints_eq, make_batch, or_text,
  not_increasing, out_of_proposal,
}
use blackbase.Batch.Gather.{Increasing, Below}

pub record IsValid (d : BatchDisposition) : Type 0 where
  pub increasing : Increasing d.accepted_indices
  pub within : Below d.proposed_count d.accepted_indices

-- Strictly increasing integers.
abbrev Rising : List ℤ → Type 0
Rising [] = Unit
Rising (i ∷ is) = All (λ j. int_ltb i j ≡ true) is × Rising is

int_ltb_trans : (i j k : ℤ) → int_ltb i j ≡ true → int_ltb j k ≡ true → int_ltb i k ≡ true
int_ltb_trans (pos a) (pos b) (pos c) h g = ground arith
int_ltb_trans (pos a) (pos b) (negsuc c) h g = cc
int_ltb_trans (pos a) (negsuc b) k h g = cc
int_ltb_trans (negsuc a) (pos b) (pos c) h g = refl
int_ltb_trans (negsuc a) (pos b) (negsuc c) h g = cc
int_ltb_trans (negsuc a) (negsuc b) (pos c) h g = refl
int_ltb_trans (negsuc a) (negsuc b) (negsuc c) h g = ground arith

int_ltb_total : (i j : ℤ) → int_ltb i j ≡ false → int_eq i j ≡ false → int_ltb j i ≡ true
int_ltb_total (pos a) (pos b) h g = ground arith
int_ltb_total (pos a) (negsuc b) h g = refl
int_ltb_total (negsuc a) (pos b) h g = cc
int_ltb_total (negsuc a) (negsuc b) h g = ground arith

int_eq→eq : (i j : ℤ) → int_eq i j ≡ true → i ≡ j
int_eq→eq (pos a) (pos b) h = ground arith
int_eq→eq (pos a) (negsuc b) h = cc
int_eq→eq (negsuc a) (pos b) h = cc
int_eq→eq (negsuc a) (negsuc b) h = ground arith

int_eq_refl : (i : ℤ) → int_eq i i ≡ true
int_eq_refl (pos a) = ground arith
int_eq_refl (negsuc a) = ground arith

ints_eq→eq : (is js : List ℤ) → ints_eq is js ≡ true → is ≡ js
ints_eq→eq [] [] h = refl
ints_eq→eq [] (j ∷ js) h = cc
ints_eq→eq (i ∷ is) [] h = cc
ints_eq→eq (i ∷ is) (j ∷ js) h = ground (arith, int_eq→eq i j, ints_eq→eq is js)

ints_eq_refl : (is : List ℤ) → ints_eq is is ≡ true
ints_eq_refl [] = refl
ints_eq_refl (i ∷ is) = ground (arith, int_eq_refl i, ints_eq_refl is)

All-above :
    (i j : ℤ) (is : List ℤ)
    → int_ltb i j ≡ true
    → All (λ k. int_ltb j k ≡ true) is
    → All (λ k. int_ltb i k ≡ true) is
All-above i j [] h a = tt
All-above i j (k ∷ is) h a = (int_ltb_trans i j k h a.0, All-above i j is h a.1)

insert_sorted-above :
    (m i : ℤ) (is : List ℤ)
    → int_ltb m i ≡ true
    → All (λ k. int_ltb m k ≡ true) is
    → All (λ k. int_ltb m k ≡ true) (insert_sorted i is)
insert_sorted-above m i [] h a = (h, tt)
insert_sorted-above m i (j ∷ is) h a = elim (Bool-cases (int_ltb i j)) [
  | inl lt ↦ rw lt (h, (a.0, a.1))
  | inr ge ↦ elim (Bool-cases (int_eq i j)) [
    | inl same ↦ rw (ge, same) (a.0, a.1)
    | inr other ↦ rw (ge, other) (a.0, insert_sorted-above m i is h a.1)
  ]
]

insert_sorted-Rising : (i : ℤ) (is : List ℤ) → Rising is → Rising (insert_sorted i is)
insert_sorted-Rising i [] r = (tt, tt)
insert_sorted-Rising i (j ∷ is) r = elim (Bool-cases (int_ltb i j)) [
  | inl lt ↦ rw lt ((lt, All-above i j is lt r.0), (r.0, r.1))
  | inr ge ↦ elim (Bool-cases (int_eq i j)) [
    | inl same ↦ rw (ge, same) (r.0, r.1)
    | inr other ↦
        rw (ge, other)
          (
            insert_sorted-above j i is (int_ltb_total i j ge other) r.0,
            insert_sorted-Rising i is r.1,
          )
  ]
]

sorted_set-Rising : (is : List ℤ) → Rising (sorted_set is)
unfolding sorted_set
sorted_set-Rising [] = tt
sorted_set-Rising (i ∷ is) = insert_sorted-Rising i (sorted_set is) (sorted_set-Rising is)

insert_sorted_first :
    (i : ℤ) (is : List ℤ) → All (λ k. int_ltb i k ≡ true) is → insert_sorted i is ≡ i ∷ is
insert_sorted_first i [] a = refl
insert_sorted_first i (j ∷ is) a = rw (a.0) refl

-- Increasing integers are their own sorted set.
sorted_set_self : (is : List ℤ) → Rising is → sorted_set is ≡ is
unfolding sorted_set
sorted_set_self [] r = refl
sorted_set_self (i ∷ is) r = rw (sorted_set_self is r.1) (insert_sorted_first i is r.0)

Rising-map : (is : List ℕ) → Increasing is → Rising (map pos is)
Rising-map [] r = tt
Rising-map (i ∷ is) r = (above i is r.0, Rising-map is r.1)
  where
    above :
        (i : ℕ) (is : List ℕ)
        → All (λ j. i < j) is
        → All (λ k. int_ltb (pos i) k ≡ true) (map pos is)
    above i [] a = tt
    above i (j ∷ is) a = (let l = a.0 in ground arith, above i is a.1)

Increasing-map :
    (is : List ℤ) → any is_negative is ≡ false → Rising is → Increasing (map pos_part is)
Increasing-map [] n r = tt
Increasing-map (pos i ∷ is) n r = (above i is n r.0, Increasing-map is n r.1)
  where
    above :
        (i : ℕ) (is : List ℤ)
        → any is_negative is ≡ false
        → All (λ k. int_ltb (pos i) k ≡ true) is
        → All (λ j. i < j) (map pos_part is)
    above i [] n a = tt
    above i (pos j ∷ is) n a = (let l = a.0 in ground arith, above i is n a.1)
    above i (negsuc j ∷ is) n a = cc
Increasing-map (negsuc i ∷ is) n r = cc

-- The test of the indices against the number of items.
abbrev pub is_outside : ℤ → ℤ → Bool
is_outside count i = is_negative i || not (int_ltb i count)

any_outside-negative :
    (count : ℤ) (is : List ℤ) → any (is_outside count) is ≡ false → any is_negative is ≡ false
any_outside-negative count [] h = refl
any_outside-negative count (i ∷ is) h = ground (arith, any_outside-negative count is)

any_outside-Below :
    (count : ℕ) (is : List ℤ)
    → any (is_outside (pos count)) is ≡ false
    → Below count (map pos_part is)
any_outside-Below count [] h = tt
any_outside-Below count (pos i ∷ is) h =
    (ground (arith, h), any_outside-Below count is (ground (arith, h)))
any_outside-Below count (negsuc i ∷ is) h = cc

Below-any_outside :
    (count : ℕ) (is : List ℕ) → Below count is → any (is_outside (pos count)) (map pos is) ≡ false
Below-any_outside count [] b = refl
Below-any_outside count (i ∷ is) b = let l = b.0 in ground (arith, Below-any_outside count is b.1)

pub map-pos : (is : List ℕ) → map pos_part (map pos is) ≡ is
map-pos [] = refl
map-pos (i ∷ is) = ap (λ l. i ∷ l) (map-pos is)

-- The constructor on indices that are increasing and below the count.
pub make_batch-pos :
    (a : BatchArgs) (count : ℕ) (is : List ℕ)
    → a.proposed_count ≡ pos count
    → a.accepted_indices ≡ map pos is
    → Increasing is
    → Below count is
    → (d : BatchDisposition) × (make_batch a ≡ ok d)
      × (d.proposed_count ≡ count)
      × (d.accepted_indices ≡ is)
      × IsValid d
unfolding make_batch
make_batch-pos a count is p q inc below = (
  made,
  rw
      (
        p,
        q,
        sorted_set_self (map pos is) (Rising-map is inc),
        ints_eq_refl,
        Below-any_outside count is below,
        map-pos,
      )
      refl,
  refl,
  refl,
  record { increasing = inc; within = below },
)
  where
    made : BatchDisposition
    made = record {
      proposed_count = count;
      accepted_indices = is;
      reason = or_text a.reason "unspecified";
      reservation_id = a.reservation_id;
      metadata = a.metadata;
    }

-- What the constructor returns is valid: its indices increase strictly and lie below its count.
pub make_batch-IsValid : (a : BatchArgs) {d : BatchDisposition} → make_batch a ≡ ok d → IsValid d
unfolding make_batch
make_batch-IsValid a h = checked a.proposed_count a.accepted_indices h
  where
    checked :
        (count : ℤ) (is : List ℤ) {d : BatchDisposition}
        → make_batch (record a { proposed_count = count; accepted_indices = is }) ≡ ok d
        → IsValid d
    checked (negsuc n) is h = cc
    checked (pos n) is h =
        let (ordered, h₁) =
          >>-ok (raise_if (not (ints_eq is (sorted_set is))) not_increasing) _ h in
        let (inside, h₂) = >>-ok (raise_if (any (is_outside (pos n)) is) out_of_proposal) _ h₁ in
        let inside' : any (is_outside (pos n)) is ≡ false = ground (arith, inside) in
        let same = ints_eq→eq is (sorted_set is) (ground (arith, ordered)) in
        subst IsValid (ok-injective h₂) (record {
          increasing =
              Increasing-map is (any_outside-negative (pos n) is inside')
                (subst Rising (sym same) (sorted_set-Rising is));
          within = any_outside-Below n is inside';
        })
