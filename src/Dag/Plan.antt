-- ===== src/Dag/Plan.antt =====
-- What `DagStagePlan.from_stage` of src/blackbase/project/dag.py returns.
use blackbase.Prelude.{
  suc, ◌≤◌, ◌≡◌, refl, sym, ◌∙◌, subst, inl, inr, true, not, String, List, [], ◌∷◌, ◌++◌, some,
  arith, str_eq, str_eq_iff, is_empty, if◌then◌else◌, contains, keep, any, length, length-keep-le,
  Dict, lookup, keys, Bool-cases, ok, raise_if, >>-ok, >>=-ok, ok-injective, ◌==◌,
}
use blackbase.Dag.{
  Stage, DagStagePlan, unique, normalize_named_mapping, explicit_for, inferred_for, for_cases,
  or_none, merged, from_stage, stable_topological_order, no_cases, duplicate_case, unknown_case,
}
use blackbase.Dag.Repeats.{Distinct, order-Distinct, order-drawn}
use blackbase.Dag.Remaining.{contains-keep}
use blackbase.Dag.Order.{Schedules, order-Schedules}

length-unique-le : (xs : List String) → length (unique xs) ≤ length xs
unfolding unique
length-unique-le [] = omega arith
length-unique-le (x ∷ xs) =
    omega (arith, length-unique-le xs, length-keep-le (λ y. not (str_eq y x)) (unique xs))

contains-unique : (x : String) (xs : List String) → contains x (unique xs) ≡ contains x xs
unfolding unique
contains-unique x [] = refl
contains-unique x (y ∷ ys) = elim (Bool-cases (str_eq y x)) [
  | inl hit ↦ rw hit
  | inr miss ↦ ground (
    arith,
    contains-keep (λ z. not (str_eq z y)) x (unique ys),
    contains-unique x ys,
    str_eq_iff x y,
    str_eq_iff y x,
  )
]

-- Removing a text that is there makes the list shorter.
length-keep-lt :
    (x : String) (xs : List String)
    → contains x xs ≡ true
    → suc (length (keep (λ y. not (str_eq y x)) xs)) ≤ length xs
length-keep-lt x [] h = cc
length-keep-lt x (y ∷ ys) h =
    ground (arith, length-keep-lt x ys, length-keep-le (λ z. not (str_eq z x)) ys)

-- A list as long as the set of its items has no item twice.
length-unique-Distinct : (xs : List String) → length xs ≡ length (unique xs) → Distinct xs
unfolding unique
length-unique-Distinct [] h = tt
length-unique-Distinct (x ∷ xs) h =
    let short = length-keep-le (λ y. not (str_eq y x)) (unique xs) in
    (
      elim (Bool-cases (contains x (unique xs))) [
        | inl twice ↦
            absurd (omega (arith, h, length-unique-le xs, length-keep-lt x (unique xs) twice))
        | inr once ↦ sym (contains-unique x xs) ∙ once
      ],
      length-unique-Distinct xs (omega (arith, h, short, length-unique-le xs)),
    )

lookup-merged :
    (n : String) (cases : List String) (explicit inferred : Dict (List String))
    → contains n cases ≡ true
    → (ds : List String) × (lookup n (merged cases explicit inferred) ≡ some ds)
unfolding unique
lookup-merged n [] explicit inferred h = cc
lookup-merged n (c ∷ cs) explicit inferred h = elim (Bool-cases (str_eq c n)) [
  | inl hit ↦ (unique (or_none (lookup c explicit) ++ or_none (lookup c inferred)), rw hit)
  | inr miss ↦ let (ds, e) = lookup-merged n cs explicit inferred (ground arith) in (ds, rw miss e)
]

-- The plan of a Stage: its Cases are the declared ones, none twice; its order has each of
-- them once and nothing else, and each item of the order stands after all its dependencies.
pub record IsPlan (s : Stage) (p : DagStagePlan) : Type 0 where
  pub same_cases : p.cases ≡ s.cases
  pub distinct : Distinct p.cases
  pub scheduled : Schedules p.dependencies p.topological_order
  pub complete : (n : String) → contains n p.cases ≡ true → contains n p.topological_order ≡ true
  pub once : Distinct p.topological_order
  pub drawn : (n : String) → contains n p.topological_order ≡ true → contains n p.cases ≡ true

-- A plan that `from_stage` returns has the Cases of the Stage, none twice; its order has each of
-- them once and nothing else, and each item of the order stands after all the dependencies of that Case.
pub from_stage-IsPlan : (s : Stage) {p : DagStagePlan} → from_stage s ≡ ok p → IsPlan s p
unfolding from_stage
from_stage-IsPlan s h =
    let stage_name = if is_empty s.name then "stage" else s.name in
    let (some_case, h₁) = >>-ok (raise_if (length s.cases == 0) no_cases) _ h in
    let (once, h₂) =
      >>-ok (raise_if (not (length s.cases == length (unique s.cases))) duplicate_case) _ h₁ in
    let (by_name, n, h₃) = >>=-ok (normalize_named_mapping s.depends_on []) _ h₂ in
    let (known, h₄) =
      >>-ok (raise_if (any (λ k. not (contains k s.cases)) (keys by_name)) unknown_case) _ h₃ in
    let (explicit, e, h₅) = >>=-ok (for_cases (explicit_for s.cases by_name) s.cases) _ h₄ in
    let (inputs, i, h₆) = >>=-ok (normalize_named_mapping s.input_artifacts []) _ h₅ in
    let (known', h₇) =
      >>-ok (raise_if (any (λ k. not (contains k s.cases)) (keys inputs)) unknown_case) _ h₆ in
    let (inferred, f, h₈) =
      >>=-ok
        (for_cases (λ c. inferred_for stage_name s.cases c (or_none (lookup c inputs)) []) s.cases)
        _ h₇ in
    let (order, o, h₉) =
      >>=-ok (stable_topological_order s.cases (merged s.cases explicit inferred)) _ h₈ in
    let sched = order-Schedules s.cases (merged s.cases explicit inferred) o in
    let once_each = length-unique-Distinct s.cases (ground (arith, once)) in
    subst (IsPlan s) (ok-injective h₉) (record {
      same_cases = refl;
      distinct = once_each;
      scheduled = sched;
      once = order-Distinct s.cases (merged s.cases explicit inferred) once_each o;
      drawn = order-drawn s.cases (merged s.cases explicit inferred) once_each o;
      complete = λ k c.
          let (ds, at) = lookup-merged k s.cases explicit inferred c in sched.complete k ds at;
    })
