-- ===== src/Batch/Ranges.antt =====
-- The complement of the accepted indices and the projection onto a range: `rejected_indices` and
-- `for_range` of src/blackbase/contracts/batch.py.
use blackbase.Prelude.{
  ℕ, zero, suc, ◌+◌, ◌-◌, ◌≤◌, ◌<◌, ◌≡◌, refl, sym, ap, subst, inl, inr, Bool, true, false, ◌&&◌,
  not, List, [], ◌∷◌, ◌++◌, map, arith, ltb, leb, ◌==◌, length, keep, All, Bool-cases, ok, pos,
}
use blackbase.Batch.{
  BatchDisposition, for_range, range_args, shifted, range, is_among, rejected_indices,
  accepted_count,
}
use blackbase.Batch.Gather.{Increasing, Below}
use blackbase.Batch.Validity.{IsValid, make_batch-pos}

length-range : (s n : ℕ) → length (range s n) ≡ n
length-range s zero = refl
length-range s (suc n) = omega (arith, length-range (suc s) n)

is_among-range : (i s n : ℕ) → is_among i (range s n) ≡ leb s i && ltb i (s + n)
is_among-range i s zero = ground arith
is_among-range i s (suc n) = ground (arith, is_among-range i (suc s) n)

is_among-keep : (p : ℕ → Bool) (i : ℕ) (xs : List ℕ) → is_among i (keep p xs) ≡ is_among i xs && p i
is_among-keep p i [] = refl
is_among-keep p i (x ∷ xs) = elim (Bool-cases (x == i)) [
  | inl same ↦ let e : x ≡ i = ground arith in ground (arith, is_among-keep p i xs, ap p e)
  | inr other ↦ ground (arith, is_among-keep p i xs)
]

is_among-above : (m i : ℕ) (is : List ℕ) → All (λ j. m < j) is → i ≤ m → is_among i is ≡ false
is_among-above m i [] a le = refl
is_among-above m i (j ∷ is) a le = let l = a.0 in ground (arith, is_among-above m i is a.1 le)

-- The numbers of a range that are not in a list.
abbrev others : List ℕ → List ℕ → List ℕ
others is xs = keep (λ i. not (is_among i is)) xs

others-skip :
    (j s n : ℕ) (is : List ℕ) → j < s → others (j ∷ is) (range s n) ≡ others is (range s n)
others-skip j s zero is lt = refl
others-skip j s (suc n) is lt = ground (arith, others-skip j (suc s) n is (omega arith))

length-others_none : (s n : ℕ) → length (others [] (range s n)) ≡ n
length-others_none s zero = refl
length-others_none s (suc n) = omega (arith, length-others_none (suc s) n)

length-others :
    (s n : ℕ) (is : List ℕ)
    → Increasing is
    → All (λ i. s ≤ i) is
    → Below (s + n) is
    → length (others is (range s n)) + length is ≡ n
length-others s n [] inc lo hi = omega (arith, length-others_none s n)
length-others s zero (j ∷ is) inc lo hi = let a = lo.0 in let b = hi.0 in omega arith
length-others s (suc n) (j ∷ is) inc lo hi = elim (Bool-cases (j == s)) [
  | inl same ↦
      let e : j ≡ s = ground arith in
      let ih =
        length-others (suc s) n is inc.1 (subst (λ k. All (λ i. k < i) is) e inc.0)
          (subst (λ k. Below k is) (omega arith) hi.1) in
      rw (same, others-skip j (suc s) n is (omega arith)) (omega arith)
  | inr other ↦
      let after : s < j = let l = lo.0 in ground arith in
      let ih =
        length-others (suc s) n (j ∷ is) inc (after, weaken s j is after inc.0)
          (subst (λ k. Below k (j ∷ is)) (omega arith) hi) in
      rw (other, is_among-above j s is inc.0 (omega arith)) (omega arith)
]
  where
    weaken : (s j : ℕ) (is : List ℕ) → s < j → All (λ i. j < i) is → All (λ i. s < i) is
    weaken s j [] lt a = tt
    weaken s j (i ∷ is) lt a = (let l = a.0 in omega arith, weaken s j is lt a.1)

All-zero : (is : List ℕ) → All (λ i. 0 ≤ i) is
All-zero [] = tt
All-zero (i ∷ is) = (omega arith, All-zero is)

-- Of a valid disposition, the accepted and the rejected indices are as many as the proposed items, and
-- an item below the proposed count is among the rejected exactly when it is not among the accepted.
pub rejected_indices-partition :
    (d : BatchDisposition) (i : ℕ)
    → IsValid d
    → i < d.proposed_count
    → (length (rejected_indices d) + accepted_count d ≡ d.proposed_count)
      × (is_among i (rejected_indices d) ≡ not (is_among i d.accepted_indices))
unfolding rejected_indices accepted_count
rejected_indices-partition d i v lt = (
  length-others 0 d.proposed_count d.accepted_indices v.increasing (All-zero d.accepted_indices)
      (subst (λ k. Below k d.accepted_indices) (omega arith) v.within),
  rw
      (
        is_among-keep (λ j. not (is_among j d.accepted_indices)) i (range 0 d.proposed_count),
        is_among-range i 0 d.proposed_count,
      )
      (ground arith),
)

-- The indices of a range.
abbrev between : ℕ → ℕ → List ℕ → List ℕ
between s e is = keep (λ i. leb s i && ltb i e) is

between-above :
    (m s e : ℕ) (is : List ℕ)
    → s ≤ m
    → All (λ j. m < j) is
    → All (λ j. m - s < j) (map (λ i. i - s) (between s e is))
between-above m s e [] le a = tt
between-above m s e (i ∷ is) le a = elim (Bool-cases (leb s i && ltb i e)) [
  | inl inside ↦ rw inside (let l = a.0 in omega arith, between-above m s e is le a.1)
  | inr outside ↦ rw outside (between-above m s e is le a.1)
]

shifted-Increasing : (s e : ℕ) (is : List ℕ) → Increasing is → Increasing (shifted s e is)
shifted-Increasing s e [] inc = tt
shifted-Increasing s e (i ∷ is) inc = elim (Bool-cases (leb s i && ltb i e)) [
  | inl inside ↦
      rw inside (between-above i s e is (ground arith) inc.0, shifted-Increasing s e is inc.1)
  | inr outside ↦ rw outside (shifted-Increasing s e is inc.1)
]

shifted-Below : (s e : ℕ) (is : List ℕ) → Below (e - s) (shifted s e is)
shifted-Below s e [] = tt
shifted-Below s e (i ∷ is) = elim (Bool-cases (leb s i && ltb i e)) [
  | inl inside ↦ rw inside (ground arith, shifted-Below s e is)
  | inr outside ↦ rw outside (shifted-Below s e is)
]

-- Shifting back gives the indices of the range.
shifted-back : (s e : ℕ) (is : List ℕ) → map (λ i. i + s) (shifted s e is) ≡ between s e is
shifted-back s e [] = refl
shifted-back s e (i ∷ is) = elim (Bool-cases (leb s i && ltb i e)) [
  | inl inside ↦
      let here : i - s + s ≡ i = ground arith in
      rw (inside, here) (ap (λ l. i ∷ l) (shifted-back s e is))
  | inr outside ↦ rw outside (shifted-back s e is)
]

between-none : (k e : ℕ) (is : List ℕ) → All (λ j. k ≤ j) is → between 0 k is ≡ []
between-none k e [] a = refl
between-none k e (i ∷ is) a = let l = a.0 in ground (arith, between-none k e is a.1)

between-whole : (k e : ℕ) (is : List ℕ) → All (λ j. k ≤ j) is → Below e is → between k e is ≡ is
between-whole k e [] a b = refl
between-whole k e (i ∷ is) a b =
    let l = a.0 in let l' = b.0 in ground (arith, between-whole k e is a.1 b.1)

between-split :
    (k e : ℕ) (is : List ℕ)
    → k ≤ e
    → Increasing is
    → Below e is
    → between 0 k is ++ between k e is ≡ is
between-split k e [] le inc b = refl
between-split k e (i ∷ is) le inc b = elim (Bool-cases (ltb i k)) [
  | inl left ↦
      let low : leb 0 i ≡ true = ground arith in
      let out : leb k i ≡ false = ground arith in
      rw (low, left, out) (ap (λ l. i ∷ l) (between-split k e is le inc.1 b.1))
  | inr right ↦
      let all : All (λ j. k ≤ j) (i ∷ is) = (ground arith, weaken k i is (ground arith) inc.0) in
      rw (between-none k e (i ∷ is) all, between-whole k e (i ∷ is) all b) refl
]
  where
    weaken : (k i : ℕ) (is : List ℕ) → k ≤ i → All (λ j. i < j) is → All (λ j. k ≤ j) is
    weaken k i [] le a = tt
    weaken k i (j ∷ is) le a = (let l = a.0 in omega arith, weaken k i is le a.1)

for_range-pos :
    (s e : ℕ) (d : BatchDisposition)
    → IsValid d
    → s ≤ e
    → e ≤ d.proposed_count
    → (c : BatchDisposition) × (for_range (pos s) (pos e) d ≡ ok c)
      × (c.proposed_count ≡ e - s)
      × (map (λ i. i + s) c.accepted_indices ≡ between s e d.accepted_indices)
unfolding for_range
for_range-pos s e d v le top =
    let before : ltb e s ≡ false = ground arith in
    let inside : ltb d.proposed_count e ≡ false = ground arith in
    let (c, made, count, is, valid) =
      make_batch-pos (range_args s e d) (e - s) (shifted s e d.accepted_indices) refl refl
        (shifted-Increasing s e d.accepted_indices v.increasing)
        (shifted-Below s e d.accepted_indices) in
    (c, rw (before, inside) made, count, rw is (shifted-back s e d.accepted_indices))

-- Cut a valid disposition at any place within the proposal: both ranges are accepted by `for_range`, the
-- parts decide on as many items as their ranges have, and the accepted indices of the first part followed by
-- those of the second, moved by the place, are those of the whole.
pub for_range-split :
    (k : ℕ) (d : BatchDisposition)
    → IsValid d
    → k ≤ d.proposed_count
    → (l r : BatchDisposition) × (for_range (pos 0) (pos k) d ≡ ok l)
      × (for_range (pos k) (pos d.proposed_count) d ≡ ok r)
      × (l.proposed_count + r.proposed_count ≡ d.proposed_count)
      × (l.accepted_indices ++ map (λ i. i + k) r.accepted_indices ≡ d.accepted_indices)
for_range-split k d v le =
    let (l, made, count, is) = for_range-pos 0 k d v (omega arith) le in
    let (r, made', count', is') = for_range-pos k d.proposed_count d v le (omega arith) in
    (
      l,
      r,
      made,
      made',
      omega arith,
      rw (sym (map_zero l.accepted_indices), is, is')
          (between-split k d.proposed_count d.accepted_indices le v.increasing v.within),
    )
  where
    map_zero : (is : List ℕ) → map (λ i. i + 0) is ≡ is
    map_zero [] = refl
    map_zero (i ∷ is) = ground (arith, map_zero is)
