-- ===== src/Context/Tests.antt =====
-- A store of src/blackbase/context/context_store.py whose entries live for ten ticks by default.
use blackbase.Prelude.{ℕ, ◌≡◌, refl, List, [], ◌∷◌, none, some, lookup, pos, arith}
use blackbase.Context.{get, snapshot}
use blackbase.Context.Refinement.{
  ContextCall, Timed, shown, run, cell_run, empty_store, run-shows, gets, sets, deletes, patches,
  snapshots,
}

abbrev calls : List (ℕ × ContextCall ℕ)
calls =
    (1, sets "a" 5 none)
    ∷ (2, sets "b" 6 (some (pos 0)))
    ∷ (3, patches (("c", 7) ∷ ("a", 8) ∷ []) ("b" ∷ []) (some (pos 4)))
    ∷ (5, snapshots)
    ∷ (7, gets "a")
    ∷ (8, sets "b" 9 none)
    ∷ (9, deletes "c")
    ∷ []

calls-Timed : Timed 0 calls 17
calls-Timed = (
  omega arith,
  (
    omega arith,
    (omega arith, (omega arith, (omega arith, (omega arith, (omega arith, omega arith))))),
  ),
)

run-shows_example :
    ((get 17 "b" (run calls (empty_store (some (pos 10))))).0
      ≡ shown 17 (cell_run (some (pos 10)) calls (λ j. none) "b"))
    × (lookup "b" (snapshot 17 (run calls (empty_store (some (pos 10))))).0
        ≡ shown 17 (cell_run (some (pos 10)) calls (λ j. none) "b"))
run-shows_example = run-shows (some (pos 10)) calls 17 "b" calls-Timed

b_run : (get 17 "b" (run calls (empty_store (some (pos 10))))).0 ≡ some 9
unfolding get run
b_run = refl

a_run : (get 17 "a" (run calls (empty_store (some (pos 10))))).0 ≡ none
unfolding get run
a_run = refl
