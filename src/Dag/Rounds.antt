-- ===== src/Dag/Rounds.antt =====
-- The loop of src/blackbase/project/dag.py ends, and it finds an order wherever there is one.
use blackbase.Prelude.{
  ℕ, zero, suc, ◌<◌, ◌≡◌, ◌≢◌, refl, sym, ap, ◌∙◌, true, false, not, String, List, [], ◌∷◌, ◌++◌,
  some, arith, str_eq_refl, contains, length, Dict, lookup, Result, err,
}
use blackbase.Dag.{
  DagError, out_of_rounds, is_ready, ready_cases, difference, after_round, round, sort_rounds,
  stable_topological_order,
}
use blackbase.Dag.Remaining.{after_round-lt, remaining_row, remaining_left, contains-keep}
use blackbase.Prelude.{returns}

round-bounded :
    (d : Dict (List String)) (ready order : List String) (rest : Result DagError (List String))
    → ((r : String) (rs : List String) → ready ≡ r ∷ rs → rest ≢ err out_of_rounds)
    → round d ready order rest ≢ err out_of_rounds
round-bounded [] ready order rest enough = λ h. cc
round-bounded (p ∷ ps) [] order rest enough = λ h. cc
round-bounded (p ∷ ps) (r ∷ rs) order rest enough = enough r rs refl

sort_rounds-bounded :
    (n : ℕ) (cases : List String) (d : Dict (List String)) (order : List String)
    → length d < n
    → sort_rounds n cases d order ≢ err out_of_rounds
unfolding sort_rounds
sort_rounds-bounded zero cases d order h = absurd (omega arith)
sort_rounds-bounded (suc n) cases d order h =
    round-bounded d (ready_cases cases d) order _ (λ r rs e.
      sort_rounds-bounded n cases (after_round (ready_cases cases d) d)
        (order ++ ready_cases cases d)
        (let l = after_round-lt cases d r rs e in rw e (omega arith)))

-- The topological sort never runs out of the rounds that it is given, whatever the Cases and dependencies.
pub order-terminates :
    (cases : List String) (dependencies : Dict (List String))
    → stable_topological_order cases dependencies ≢ err out_of_rounds
unfolding stable_topological_order
order-terminates cases dependencies =
    sort_rounds-bounded (suc (length dependencies)) cases dependencies [] (omega arith)

-- Dependencies that lead down: `height` falls from a Case to each of its dependencies, which is a Case too.
pub record IsGrounded (height : String → ℕ) (cases : List String) (d : Dict (List String))
    : Type 0 where
  pub listed : (n : String) (rs : List String) → lookup n d ≡ some rs → contains n cases ≡ true
  pub inside :
      (n : String) (rs : List String)
      → lookup n d ≡ some rs
      → (x : String) → contains x rs ≡ true
      → ((v : List String) × (lookup x d ≡ some v)) × (height x < height n)

-- Going down from any Case one comes to a Case that is ready.
find-ready :
    (height : String → ℕ) (cases : List String) (d : Dict (List String))
    → IsGrounded height cases d
    → (k : ℕ) (n : String) (rs : List String) → lookup n d ≡ some rs
    → height n < k
    → (m : String) × (lookup m d ≡ some [])
find-ready height cases d g zero n rs h l = absurd (omega arith)
find-ready height cases d g (suc k) n [] h l = (n, h)
find-ready height cases d g (suc k) n (x ∷ xs) h l =
    let ((v, at), lower) = g.inside n (x ∷ xs) h x (rw str_eq_refl) in
    find-ready height cases d g k x v at (omega arith)

IsGrounded-round :
    (height : String → ℕ) (cases : List String) (d : Dict (List String))
    → IsGrounded height cases d
    → IsGrounded height cases (after_round (ready_cases cases d) d)
IsGrounded-round height cases d g = record {
  listed = λ n rs' h.
      let (later, (rs, was, is)) = remaining_row (ready_cases cases d) n d rs' h in
      g.listed n rs was;
  inside = λ n rs' h x c.
      let (later, (rs, was, is)) = remaining_row (ready_cases cases d) n d rs' h in
      let c' : contains x (difference (ready_cases cases d) rs) ≡ true =
        ap (contains x) (sym is) ∙ c in
      let kept = contains-keep (λ y. not (contains y (ready_cases cases d))) x rs in
      let ((v, at), lower) = g.inside n rs was x (ground (arith, kept, c')) in
      let waits : contains x (ready_cases cases d) ≡ false = ground (arith, kept, c') in
      (
        (difference (ready_cases cases d) v, remaining_left (ready_cases cases d) x d v waits at),
        lower,
      );
}

-- Something is ready as long as something remains.
ready-found :
    (height : String → ℕ) (cases : List String) (d : Dict (List String)) (n : String)
    (rs : List String)
    → IsGrounded height cases d
    → lookup n d ≡ some rs
    → ready_cases cases d ≢ []
ready-found height cases d n rs g h =
    let (m, at) = find-ready height cases d g (suc (height n)) n rs h (omega arith) in
    let listed = g.listed m [] at in
    λ none_ready.
      let in_ready : contains m (ready_cases cases d) ≡ true =
        ground (arith, contains-keep (λ y. is_ready (lookup y d)) m cases, listed, at) in
      cc (in_ready, ap (contains m) none_ready)

sort_rounds-returns :
    (height : String → ℕ) (n : ℕ) (cases : List String) (d : Dict (List String))
    (order : List String)
    → IsGrounded height cases d
    → length d < n
    → returns (sort_rounds n cases d order) ≡ true
unfolding sort_rounds
sort_rounds-returns height zero cases d order g h = absurd (omega arith)
sort_rounds-returns height (suc n) cases d order g h =
    by_round d (ready_cases cases d) _ refl (λ k rs e. ready-found height cases d k rs g e)
      (λ r rs e.
        sort_rounds-returns height n cases (after_round (ready_cases cases d) d)
          (order ++ ready_cases cases d) (IsGrounded-round height cases d g)
          (let l = after_round-lt cases d r rs e in rw e (omega arith)))
  where
    by_round :
        (d₁ : Dict (List String)) (ready : List String) (rest : Result DagError (List String))
        → ready_cases cases d ≡ ready
        → ((k : String) (rs : List String) → lookup k d₁ ≡ some rs → ready ≢ [])
        → ((r : String) (rs : List String) → ready ≡ r ∷ rs → returns rest ≡ true)
        → returns (round d₁ ready order rest) ≡ true
    by_round [] ready rest e found more = refl
    by_round ((k, v) ∷ ps) [] rest e found more = absurd (found k v (rw str_eq_refl refl) refl)
    by_round (p ∷ ps) (r ∷ rs) rest e found more = more r rs refl

-- `_stable_topological_order` returns an order whenever the dependencies are Cases of the list and some
-- height falls along every dependency, that is, unless there is a cycle.
pub order-returns :
    (height : String → ℕ) (cases : List String) (dependencies : Dict (List String))
    → IsGrounded height cases dependencies
    → returns (stable_topological_order cases dependencies) ≡ true
unfolding stable_topological_order
order-returns height cases dependencies g =
    sort_rounds-returns height (suc (length dependencies)) cases dependencies [] g (omega arith)
