-- ===== src/Dag/Order.antt =====
-- The order of src/blackbase/project/dag.py puts every Case after its dependencies.
use blackbase.Prelude.{
  ℕ, zero, suc, ◌≡◌, sym, ◌∙◌, subst, ◌⊎◌, inl, inr, Bool, true, false, ◌||◌, String, List, [], ◌∷◌,
  ◌++◌, some, arith, str_eq, str_eq_refl, contains, length, Dict, lookup, Bool-cases, Result, ok,
  ok-injective,
}
use blackbase.Dag.{
  DagError, ready_cases, difference, after_round, round, sort_rounds, stable_topological_order,
}
use blackbase.Dag.Remaining.{
  contains-append, ready-empty, remaining_row, remaining_left, contains-difference,
}

-- Each item of the list has its dependencies in `seen` or before it in the list.
abbrev pub Placed : Dict (List String) → (String → Bool) → List String → Type 0
Placed d seen [] = Unit
Placed d seen (n ∷ ns) =
    ((ds : List String)
      → lookup n d ≡ some ds
      → (x : String) → contains x ds ≡ true
      → seen x ≡ true)
    × Placed d (λ x. str_eq n x || seen x) ns

Placed-weaken :
    (d : Dict (List String)) (seen seen' : String → Bool) (ns : List String)
    → ((x : String) → seen x ≡ true → seen' x ≡ true)
    → Placed d seen ns
    → Placed d seen' ns
Placed-weaken d seen seen' [] w p = tt
Placed-weaken d seen seen' (n ∷ ns) w p = (
  λ ds h x c. w x (p.0 ds h x c),
  Placed-weaken d (λ x. str_eq n x || seen x) (λ x. str_eq n x || seen' x) ns
      (λ x s. ground (arith, w x)) p.1,
)

Placed-append :
    (d : Dict (List String)) (seen : String → Bool) (ns ms : List String)
    → Placed d seen ns
    → Placed d (λ x. contains x ns || seen x) ms
    → Placed d seen (ns ++ ms)
Placed-append d seen [] ms p q = q
Placed-append d seen (n ∷ ns) ms p q = (
  p.0,
  Placed-append d (λ x. str_eq n x || seen x) ns ms p.1
      (Placed-weaken d (λ x. contains x (n ∷ ns) || seen x)
        (λ x. contains x ns || (str_eq n x || seen x)) ms (λ x s. ground arith) q),
)

-- Items whose dependencies are all in `seen` may stand in any order.
Placed-all :
    (d : Dict (List String)) (seen : String → Bool) (ns : List String)
    → ((n : String)
        → contains n ns ≡ true
        → (ds : List String) → lookup n d ≡ some ds
        → (x : String) → contains x ds ≡ true
        → seen x ≡ true)
    → Placed d seen ns
Placed-all d seen [] h = tt
Placed-all d seen (n ∷ ns) h = (
  h n (rw str_eq_refl),
  Placed-weaken d seen (λ x. str_eq n x || seen x) ns (λ x s. ground arith)
      (Placed-all d seen ns (λ m c. h m (ground arith))),
)

-- The rounds so far: what remains of a Case is what `order` lacks of its dependencies.
record Sorted (deps remaining : Dict (List String)) (order : List String) : Type 0 where
  left :
      (n : String) (ds : List String)
      → lookup n deps ≡ some ds
      → (contains n order ≡ true) ⊎ ((rs : List String) × (lookup n remaining ≡ some rs))
  waits :
      (n : String) (ds rs : List String)
      → lookup n deps ≡ some ds
      → lookup n remaining ≡ some rs
      → (x : String) → contains x ds ≡ true
      → (contains x rs || contains x order) ≡ true
  placed : Placed deps (λ x. false) order

Sorted-round :
    (cases : List String) (deps d : Dict (List String)) (order : List String)
    → Sorted deps d order
    → Sorted deps (after_round (ready_cases cases d) d) (order ++ ready_cases cases d)
Sorted-round cases deps d order s = record {
  left = λ n ds h. elim (s.left n ds h) [
    | inl done ↦ inl (ground (arith, contains-append n order (ready_cases cases d)))
    | inr (rs, at) ↦ elim (Bool-cases (contains n (ready_cases cases d))) [
      | inl now ↦ inl (ground (arith, contains-append n order (ready_cases cases d)))
      | inr later ↦ inr (
        difference (ready_cases cases d) rs,
        remaining_left (ready_cases cases d) n d rs later at,
      )
    ]
  ];
  waits = λ n ds rs' h at x c.
      let (later, (rs, was, is)) = remaining_row (ready_cases cases d) n d rs' at in
      let w = s.waits n ds rs h was x c in
      rw is (
        ground (
          arith,
          w,
          contains-append x order (ready_cases cases d),
          contains-difference (ready_cases cases d) x rs,
        ));
  placed =
      Placed-append deps (λ x. false) order (ready_cases cases d) s.placed
        (Placed-all deps (λ x. contains x order || false) (ready_cases cases d)
          (λ n c ds h x m.
            let w = s.waits n ds [] h (ready-empty cases d n c) x m in ground (arith, w)));
}

-- An order that has every Case of `deps`, each after its dependencies.
pub record Schedules (deps : Dict (List String)) (order : List String) : Type 0 where
  pub complete : (n : String) (ds : List String) → lookup n deps ≡ some ds → contains n order ≡ true
  pub placed : Placed deps (λ x. false) order

sort_rounds-Schedules :
    (n : ℕ) (cases : List String) (deps d : Dict (List String)) (order : List String)
    {result : List String}
    → Sorted deps d order
    → sort_rounds n cases d order ≡ ok result
    → Schedules deps result
unfolding sort_rounds
sort_rounds-Schedules zero cases deps d order s h = cc
sort_rounds-Schedules (suc n) cases deps d order {result} s h =
    by_round d (ready_cases cases d) s h
      (λ e. sort_rounds-Schedules n cases deps _ _ (Sorted-round cases deps d order s) e)
  where
    by_round :
        (d₁ : Dict (List String)) (ready : List String) {rest : Result DagError (List String)}
        → Sorted deps d₁ order
        → round d₁ ready order rest ≡ ok result
        → (rest ≡ ok result → Schedules deps result)
        → Schedules deps result
    by_round [] ready s₁ e k = subst (Schedules deps) (ok-injective e) (record {
      complete = λ m ds f. elim (s₁.left m ds f) [ inl done ↦ done | inr (rs, at) ↦ cc at ];
      placed = s₁.placed;
    })
    by_round (p ∷ ps) [] s₁ e k = cc e
    by_round (p ∷ ps) (r ∷ rs) s₁ e k = k e

-- An order that `_stable_topological_order` returns has every Case of the dependencies, and each item
-- stands after all the dependencies of that Case.
pub order-Schedules :
    (cases : List String) (dependencies : Dict (List String)) {order : List String}
    → stable_topological_order cases dependencies ≡ ok order
    → Schedules dependencies order
unfolding stable_topological_order
order-Schedules cases dependencies h =
    sort_rounds-Schedules (suc (length dependencies)) cases dependencies dependencies []
      (record {
        left = λ n ds e. inr (ds, e);
        waits = λ n ds rs e f x c.
            let same : some ds ≡ some rs = sym e ∙ f in
            let c' : contains x rs ≡ true = cc in ground arith;
        placed = tt;
      })
      h
