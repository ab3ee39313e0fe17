-- ===== src/Dag/Tests.antt =====
-- A Stage of src/blackbase/project/dag.py with three Cases, one of which is trained from another's Artifact.
use blackbase.Prelude.{
  ℕ, ◌<◌, ◌≡◌, ◌≢◌, refl, List, [], ◌∷◌, some, lookup, ok, err, returns, String, str_eq, str_eq_iff,
  if◌then◌else◌, Dict, arith, true, if-elim, subst, ltb→lt, split_dots, is_empty,
}
use blackbase.Dag.{Stage, DagStagePlan, from_stage, stable_topological_order, cycle, out_of_rounds}
use blackbase.Dag.Plan.{IsPlan, from_stage-IsPlan}
use blackbase.Dag.Rounds.{IsGrounded, order-returns, order-terminates}

abbrev stage : Stage
stage = record {
  name = "train";
  cases = "report" ∷ "fit" ∷ "load" ∷ [];
  depends_on = ("report", "fit" ∷ "fit" ∷ []) ∷ [];
  input_artifacts = ("fit", "train.load.table" ∷ "other.table" ∷ []) ∷ [];
}

abbrev dependencies : Dict (List String)
dependencies = ("report", "fit" ∷ []) ∷ ("fit", "load" ∷ []) ∷ ("load", []) ∷ []

abbrev plan : DagStagePlan
plan = record {
  stage_name = "train";
  cases = stage.cases;
  dependencies = dependencies;
  explicit_dependencies = ("report", "fit" ∷ []) ∷ ("fit", []) ∷ ("load", []) ∷ [];
  inferred_dependencies = ("report", []) ∷ ("fit", "load" ∷ []) ∷ ("load", []) ∷ [];
  topological_order = "load" ∷ "fit" ∷ "report" ∷ [];
}

plan_order : from_stage stage ≡ ok plan
unfolding from_stage split_dots is_empty
plan_order = refl

cycle_run :
    stable_topological_order ("a" ∷ "b" ∷ []) (("a", "b" ∷ []) ∷ ("b", "a" ∷ []) ∷ []) ≡ err cycle
unfolding stable_topological_order
cycle_run = refl

from_stage-IsPlan_example : IsPlan stage plan
from_stage-IsPlan_example = from_stage-IsPlan stage plan_order

abbrev height : String → ℕ
height n = if str_eq n "report" then 2 else if str_eq n "fit" then 1 else 0

abbrev small : Dict (List String)
small = ("fit", "load" ∷ []) ∷ ("load", []) ∷ []

fit_step :
    (n x : String)
    → "fit" ≡ n
    → "load" ≡ x
    → ((v : List String) × (lookup x small ≡ some v)) × (height x < height n)
fit_step n x p q =
    subst (λ n'. ((v : List String) × (lookup x small ≡ some v)) × (height x < height n')) p
      (subst (λ x'. ((v : List String) × (lookup x' small ≡ some v)) × (height x' < height "fit")) q
        (([], refl), ltb→lt 0 1 refl))

small-IsGrounded : IsGrounded height ("fit" ∷ "load" ∷ []) small
small-IsGrounded = record {
  listed = λ n rs h. ground (arith, str_eq_iff "fit" n, str_eq_iff "load" n);
  inside = λ n rs h x c.
      if-elim (str_eq "fit" n) _ _ h
        (λ fit e.
          fit_step n x ((str_eq_iff "fit" n).0 fit)
            ((str_eq_iff "load" x).0 (ground (arith, e, c))))
        (λ other e. absurd (ground (arith, e, c)));
}

order-returns_example : returns (stable_topological_order ("fit" ∷ "load" ∷ []) small) ≡ true
order-returns_example = order-returns height ("fit" ∷ "load" ∷ []) small small-IsGrounded

order-terminates_example :
    stable_topological_order ("a" ∷ "b" ∷ []) (("a", "b" ∷ []) ∷ ("b", "a" ∷ []) ∷ [])
    ≢ err out_of_rounds
order-terminates_example =
    order-terminates ("a" ∷ "b" ∷ []) (("a", "b" ∷ []) ∷ ("b", "a" ∷ []) ∷ [])
