-- ===== src/Dag/Repeats.antt =====
-- The order of src/blackbase/project/dag.py has no Case twice and nothing but Cases.
use blackbase.Prelude.{
  ℕ, zero, suc, ◌≡◌, refl, subst, inl, inr, Bool, true, false, String, List, [], ◌∷◌, ◌++◌, some,
  arith, str_eq_refl, contains, keep, length, Dict, lookup, Bool-cases, Result, ok, ok-injective,
}
use blackbase.Dag.{
  DagError, is_ready, ready_cases, after_round, round, sort_rounds, stable_topological_order,
}
use blackbase.Dag.Remaining.{ready-empty, remaining_row, contains-keep, contains-append}

-- No text stands twice.
abbrev pub Distinct : List String → Type 0
Distinct [] = Unit
Distinct (x ∷ xs) = (contains x xs ≡ false) × Distinct xs

Distinct-keep : (p : String → Bool) (xs : List String) → Distinct xs → Distinct (keep p xs)
Distinct-keep p [] h = tt
Distinct-keep p (x ∷ xs) h = elim (Bool-cases (p x)) [
  | inl hit ↦ rw hit (ground (arith, contains-keep p x xs, h.0), Distinct-keep p xs h.1)
  | inr miss ↦ rw miss (Distinct-keep p xs h.1)
]

Distinct-append :
    (xs ys : List String)
    → Distinct xs
    → Distinct ys
    → ((x : String) → contains x ys ≡ true → contains x xs ≡ false)
    → Distinct (xs ++ ys)
Distinct-append [] ys dx dy apart = dy
Distinct-append (x ∷ xs) ys dx dy apart = (
  elim (Bool-cases (contains x ys)) [
    | inl both ↦ absurd (let a = apart x both in ground (arith, a, str_eq_refl x))
    | inr only ↦ ground (arith, contains-append x xs ys, dx.0, only)
  ],
  Distinct-append xs ys dx.1 dy (λ z c. let a = apart z c in ground (arith, a)),
)

-- What is placed is distinct, drawn from the Cases, and does not remain.
record Apart (cases : List String) (d : Dict (List String)) (order : List String) : Type 0 where
  waiting : (n : String) (rs : List String) → lookup n d ≡ some rs → contains n order ≡ false
  drawn : (n : String) → contains n order ≡ true → contains n cases ≡ true
  once : Distinct order

Apart-round :
    (cases : List String) (d : Dict (List String)) (order : List String)
    → Distinct cases
    → Apart cases d order
    → Apart cases (after_round (ready_cases cases d) d) (order ++ ready_cases cases d)
Apart-round cases d order unlike a = record {
  waiting = λ n rs' h.
      let (later, (rs, was, is)) = remaining_row (ready_cases cases d) n d rs' h in
      ground (arith, a.waiting n rs was, later, contains-append n order (ready_cases cases d));
  drawn = λ n c.
      let k = contains-keep (λ m. is_ready (lookup m d)) n cases in
      ground (arith, a.drawn n, k, contains-append n order (ready_cases cases d), c);
  once =
      Distinct-append order (ready_cases cases d) a.once (Distinct-keep _ cases unlike)
        (λ x c. a.waiting x [] (ready-empty cases d x c));
}

sort_rounds-Apart :
    (n : ℕ) (cases : List String) (d : Dict (List String)) (order : List String)
    {result : List String}
    → Distinct cases
    → Apart cases d order
    → sort_rounds n cases d order ≡ ok result
    → Apart cases [] result
unfolding sort_rounds
sort_rounds-Apart zero cases d order unlike a h = cc
sort_rounds-Apart (suc n) cases d order {result} unlike a h =
    by_round d (ready_cases cases d) h
      (λ e. sort_rounds-Apart n cases _ _ unlike (Apart-round cases d order unlike a) e)
  where
    by_round :
        (d₁ : Dict (List String)) (ready : List String) {rest : Result DagError (List String)}
        → round d₁ ready order rest ≡ ok result
        → (rest ≡ ok result → Apart cases [] result)
        → Apart cases [] result
    by_round [] ready e k =
        subst (Apart cases []) (ok-injective e)
          (record { waiting = λ m rs f. cc f; drawn = a.drawn; once = a.once })
    by_round (p ∷ ps) [] e k = cc e
    by_round (p ∷ ps) (r ∷ rs) e k = k e

order-Apart :
    (cases : List String) (dependencies : Dict (List String)) {order : List String}
    → Distinct cases
    → stable_topological_order cases dependencies ≡ ok order
    → Apart cases [] order
unfolding stable_topological_order
order-Apart cases dependencies unlike h =
    sort_rounds-Apart (suc (length dependencies)) cases dependencies [] unlike
      (record { waiting = λ n rs f. refl; drawn = λ n c. cc c; once = tt }) h

pub order-Distinct :
    (cases : List String) (dependencies : Dict (List String)) {order : List String}
    → Distinct cases
    → stable_topological_order cases dependencies ≡ ok order
    → Distinct order
order-Distinct cases dependencies unlike h = (order-Apart cases dependencies unlike h).once

pub order-drawn :
    (cases : List String) (dependencies : Dict (List String)) {order : List String}
    → Distinct cases
    → stable_topological_order cases dependencies ≡ ok order
    → (n : String) → contains n order ≡ true
    → contains n cases ≡ true
order-drawn cases dependencies unlike h = (order-Apart cases dependencies unlike h).drawn
