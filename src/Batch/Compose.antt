-- ===== src/Batch/Compose.antt =====
-- Chained and partial decisions: `compose`, `prefix` and `for_range` of src/blackbase/contracts/batch.py.
use blackbase.Prelude.{
  ℕ, zero, suc, ◌+◌, ◌≤◌, ◌<◌, ◌≡◌, refl, sym, ap, ◌∙◌, subst, inl, inr, true, false, String, List,
  [], ◌∷◌, Option, some, arith, ltb, ◌==◌, length, get_elem?, take, drop, All, Dict, Bool-cases, ok,
  returns, ok-injective, pos,
}
use blackbase.Batch.{
  BatchDisposition, Note, compose, prefix, prefix_args, composed_args, gather, range,
}
use blackbase.Batch.Gather.{
  Increasing, Below, gather-found, gather-gather, gather-All, gather-Increasing, get_elem?-found,
}
use blackbase.Batch.Validity.{IsValid, make_batch-pos}

-- What `compose` returns when the counts agree: the indices that the later decision selects of the first's.
record Composes (a b c : BatchDisposition) : Type 0 where
  selected : gather a.accepted_indices b.accepted_indices ≡ some c.accepted_indices
  same_count : c.proposed_count ≡ a.proposed_count
  valid : IsValid c

compose-Composes :
    (a b : BatchDisposition) (reason : Option String) (metadata : Dict Note)
    → IsValid a
    → IsValid b
    → b.proposed_count ≡ length a.accepted_indices
    → (c : BatchDisposition) × (compose a b reason metadata ≡ ok c) × Composes a b c
unfolding compose
compose-Composes a b reason metadata v w same =
    let (ks, at, l) =
      gather-found a.accepted_indices b.accepted_indices
        (subst (λ n. Below n b.accepted_indices) same w.within) in
    let inc =
      gather-Increasing a.accepted_indices b.accepted_indices v.increasing w.increasing at in
    let below =
      gather-All (λ i. i < a.proposed_count) a.accepted_indices b.accepted_indices v.within at in
    let test : (b.proposed_count == length a.accepted_indices) ≡ true = ground (arith, same) in
    let (d, made, count, is, valid) =
      make_batch-pos (composed_args a b reason metadata ks) a.proposed_count ks refl refl inc
        below in
    (
      d,
      rw (test, at) made,
      record { selected = at ∙ ap some (sym is); same_count = count; valid = valid },
    )

-- `compose` of valid dispositions returns exactly when the later one decides on as many items as the
-- first accepted.
pub compose-returns :
    (a b : BatchDisposition) (reason : Option String) (metadata : Dict Note)
    → IsValid a
    → IsValid b
    → returns (compose a b reason metadata) ≡ (b.proposed_count == length a.accepted_indices)
unfolding compose
compose-returns a b reason metadata v w =
    elim (Bool-cases (b.proposed_count == length a.accepted_indices)) [
      | inl same ↦
          let (c, e, s) = compose-Composes a b reason metadata v w (ground (arith, same)) in
          ap returns e ∙ sym same
      | inr other ↦ rw other refl
    ]

-- Where `compose` returns, it is valid and stands for the two decisions in turn: the items of any
-- proposal that it selects are those that the later decision selects of those that the first selects.
pub compose-gather :
    {A : Type 0} (a b c : BatchDisposition) (reason : Option String) (metadata : Dict Note)
    (items : List A)
    → IsValid a
    → IsValid b
    → compose a b reason metadata ≡ ok c
    → length items ≡ a.proposed_count
    → IsValid c
      × ((kept : List A) × (gather items a.accepted_indices ≡ some kept)
          × (gather items c.accepted_indices ≡ gather kept b.accepted_indices))
compose-gather a b c reason metadata items v w h n =
    let same : (b.proposed_count == length a.accepted_indices) ≡ true =
      sym (compose-returns a b reason metadata v w) ∙ ap returns h in
    let (c', e, s) = compose-Composes a b reason metadata v w (ground (arith, same)) in
    let (kept, at, l) =
      gather-found items a.accepted_indices
        (subst (λ k. Below k a.accepted_indices) (sym n) v.within) in
    let eq : c' ≡ c = ok-injective (sym e ∙ h) in
    subst
      (λ (d : BatchDisposition).
        IsValid d
        × ((kept : List _) × (gather items a.accepted_indices ≡ some kept)
            × (gather items d.accepted_indices ≡ gather kept b.accepted_indices)))
      eq
      (s.valid, (kept, at, gather-gather items a.accepted_indices b.accepted_indices at s.selected))

drop-get_elem? :
    {A : Type 0} (xs : List A) (i : ℕ) {x : A}
    → get_elem? xs i ≡ some x
    → drop i xs ≡ x ∷ drop (suc i) xs
drop-get_elem? [] i h = cc
drop-get_elem? (y ∷ xs) zero h = cc
drop-get_elem? (y ∷ xs) (suc i) h = drop-get_elem? xs i h

gather-range :
    {A : Type 0} (xs : List A) (i n : ℕ)
    → i + n ≤ length xs
    → gather xs (range i n) ≡ some (take n (drop i xs))
gather-range xs i zero h = refl
gather-range xs i (suc n) h =
    let (x, at) = get_elem?-found xs i (omega arith) in
    rw (at, gather-range xs (suc i) n (omega arith), drop-get_elem? xs i at) refl

range-Above : (i n m : ℕ) → m ≤ i → All (λ j. m ≤ j) (range i n)
range-Above i zero m h = tt
range-Above i (suc n) m h = (h, range-Above (suc i) n m (omega arith))

range-Increasing : (i n : ℕ) → Increasing (range i n)
range-Increasing i zero = tt
range-Increasing i (suc n) =
    (range-Above (suc i) n (suc i) (omega arith), range-Increasing (suc i) n)

range-Below : (i n m : ℕ) → i + n ≤ m → Below m (range i n)
range-Below i zero m h = tt
range-Below i (suc n) m h = (omega arith, range-Below (suc i) n m (omega arith))

-- Where the accepted count is at most the proposed one, `prefix` returns a disposition that selects
-- that many items from the front of any proposal of the proposed length.
pub prefix-take :
    {A : Type 0} (proposed accepted : ℕ) (reason reservation_id : String) (metadata : Dict Note)
    (items : List A)
    → accepted ≤ proposed
    → length items ≡ proposed
    → (d : BatchDisposition) × (prefix (pos proposed) (pos accepted) reason reservation_id metadata
        ≡ ok d)
      × (gather items d.accepted_indices ≡ some (take accepted items))
unfolding prefix
prefix-take proposed accepted reason reservation_id metadata items le n =
    let test : ltb proposed accepted ≡ false = ground arith in
    let (d, made, count, is, valid) =
      make_batch-pos (prefix_args (pos proposed) accepted reason reservation_id metadata) proposed
        (range 0 accepted) refl refl (range-Increasing 0 accepted)
        (range-Below 0 accepted proposed (omega arith)) in
    (d, rw test made, rw is (gather-range items 0 accepted (omega arith)))
