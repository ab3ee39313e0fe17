-- ===== src/Dag.antt =====
-- `DagStagePlan` of src/blackbase/project/dag.py: the dependencies of the Cases of a Stage, declared and
-- inferred, and their stable topological order. Wrongly typed documents are not modelled.
pub mod Remaining
pub mod Order
pub mod Rounds
pub mod Repeats
pub mod Plan
mod Tests
use blackbase.Prelude.{
  ℕ, zero, suc, Bool, true, false, ◌&&◌, not, String, List, [], ◌∷◌, ◌++◌, Option, none, some,
  if◌then◌else◌, ◌==◌, str_eq, contains, keep, any, length, Dict, lookup, insert, erase, keys,
  map_values, Result, ok, err, raise_if, ◌>>=◌, ◌>>◌, split_dots, is_empty,
}

pub data DagError : Type 0 where
  no_cases duplicate_case duplicate_key unknown_case : DagError
  missing_dependency self_dependency own_artifact cycle out_of_rounds : DagError

-- The document of a Stage. The mappings are lists of entries, since two keys may have the same text;
-- `input_artifacts` has the registry keys of a Case's inputs.
pub record Stage : Type 0 where
  pub name : String
  pub cases : List String
  pub depends_on : List (String × List String)
  pub input_artifacts : List (String × List String)

pub record DagStagePlan : Type 0 where
  pub stage_name : String
  pub cases : List String
  pub dependencies : Dict (List String)
  pub explicit_dependencies : Dict (List String)
  pub inferred_dependencies : Dict (List String)
  pub topological_order : List String

-- `dict.fromkeys(xs)`: the first occurrences.
unfoldable pub unique : List String → List String
unique [] = []
unique (x ∷ xs) = x ∷ keep (λ y. not (str_eq y x)) (unique xs)

abbrev add_new :
    Option (List String)
    → String
    → List String
    → Dict (List String)
    → Result DagError (Dict (List String))
add_new (some old) name value d = err duplicate_key
add_new none name value d = ok (insert name value d)

-- `_normalize_named_mapping`.
unfoldable pub normalize_named_mapping :
    List (String × List String) → Dict (List String) → Result DagError (Dict (List String))
normalize_named_mapping [] d = ok d
normalize_named_mapping ((name, value) ∷ entries) d = do
  d' ← add_new (lookup name d) name value d
  normalize_named_mapping entries d'

-- `len(parts) >= 3 and parts[0] == stage_name and parts[1] in case_set`, else `parts[0] in case_set`.
abbrev producer_of : List String → String → List String → Option String
producer_of [] stage_name cases = none
producer_of (p ∷ []) stage_name cases = none
producer_of (p ∷ q ∷ []) stage_name cases = if contains p cases then some p else none
producer_of (p ∷ q ∷ r ∷ ps) stage_name cases =
    if str_eq p stage_name && contains q cases
    then some q
    else if contains p cases
    then some p
    else none

-- `_producer_case_for_registry_key`.
unfoldable pub producer_case : String → String → List String → Option String
producer_case registry_key stage_name cases =
    producer_of (keep (λ p. not (is_empty p)) (split_dots registry_key)) stage_name cases

abbrev pub or_none : Option (List String) → List String
or_none none = []
or_none (some xs) = xs

-- The declared dependencies of one Case.
unfoldable pub explicit_for :
    List String → Dict (List String) → String → Result DagError (List String)
unfolding unique
explicit_for cases by_name case_name = do
  let normalized = unique (or_none (lookup case_name by_name))
  raise_if (any (λ d. not (contains d cases)) normalized) missing_dependency
  raise_if (contains case_name normalized) self_dependency
  ok normalized

abbrev add_producer : Option String → String → List String → Result DagError (List String)
add_producer none case_name producers = ok producers
add_producer (some p) case_name producers =
    if str_eq p case_name
    then err own_artifact
    else ok (if contains p producers then producers else producers ++ p ∷ [])

-- The inferred dependencies of one Case, from its registry keys.
unfoldable pub inferred_for :
    String → List String → String → List String → List String → Result DagError (List String)
unfolding producer_case
inferred_for stage_name cases case_name [] producers = ok producers
inferred_for stage_name cases case_name (key ∷ registry_keys) producers = do
  producers' ← add_producer (producer_case key stage_name cases) case_name producers
  inferred_for stage_name cases case_name registry_keys producers'

-- A loop over the Cases that fills a dict.
abbrev pub for_cases :
    (String → Result DagError (List String)) → List String → Result DagError (Dict (List String))
for_cases f [] = ok []
for_cases f (c ∷ cs) = do ds ← f c; rest ← for_cases f cs; ok ((c, ds) ∷ rest)

abbrev pub is_ready : Option (List String) → Bool
is_ready none = false
is_ready (some []) = true
is_ready (some (d ∷ ds)) = false

abbrev pub ready_cases : List String → Dict (List String) → List String
ready_cases cases remaining = keep (λ name. is_ready (lookup name remaining)) cases

abbrev pub erase_all : List String → Dict (List String) → Dict (List String)
erase_all [] d = d
erase_all (x ∷ xs) d = erase_all xs (erase x d)

-- `pending.difference_update(ready)`.
abbrev pub difference : List String → List String → List String
difference ready = keep (λ d. not (contains d ready))

abbrev pub after_round : List String → Dict (List String) → Dict (List String)
after_round ready remaining = map_values (difference ready) (erase_all ready remaining)

-- The tests of the loop: nothing remains, nothing is ready, or another round.
abbrev pub round :
    Dict (List String)
    → List String
    → List String
    → Result DagError (List String)
    → Result DagError (List String)
round [] ready order rest = ok order
round (p ∷ ps) [] order rest = err cycle
round (p ∷ ps) (r ∷ rs) order rest = rest

-- The `while` loop of `_stable_topological_order`, for at most as many rounds as its first argument.
unfoldable pub sort_rounds :
    ℕ → List String → Dict (List String) → List String → Result DagError (List String)
sort_rounds zero cases remaining order = err out_of_rounds
sort_rounds (suc n) cases remaining order =
    let ready = ready_cases cases remaining in
    let rest = sort_rounds n cases (after_round ready remaining) (order ++ ready) in
    round remaining ready order rest

-- `_stable_topological_order`.
unfoldable pub stable_topological_order :
    List String → Dict (List String) → Result DagError (List String)
unfolding sort_rounds
stable_topological_order cases dependencies =
    sort_rounds (suc (length dependencies)) cases dependencies []

-- `{case: tuple(dict.fromkeys((*explicit[case], *inferred[case])))}` over the Cases.
abbrev pub merged : List String → Dict (List String) → Dict (List String) → Dict (List String)
merged [] explicit inferred = []
merged (c ∷ cs) explicit inferred =
    (c, unique (or_none (lookup c explicit) ++ or_none (lookup c inferred)))
    ∷ merged cs explicit inferred

-- `DagStagePlan.from_stage`.
unfoldable pub from_stage : Stage → Result DagError DagStagePlan
unfolding is_empty unique normalize_named_mapping explicit_for inferred_for stable_topological_order
from_stage s = do
  let stage_name = if is_empty s.name then "stage" else s.name
  let cases = s.cases
  raise_if (length cases == 0) no_cases
  raise_if (not (length cases == length (unique cases))) duplicate_case
  explicit_by_name ← normalize_named_mapping s.depends_on []
  raise_if (any (λ k. not (contains k cases)) (keys explicit_by_name)) unknown_case
  explicit ← for_cases (explicit_for cases explicit_by_name) cases
  inputs_by_name ← normalize_named_mapping s.input_artifacts []
  raise_if (any (λ k. not (contains k cases)) (keys inputs_by_name)) unknown_case
  inferred ←
      for_cases (λ c. inferred_for stage_name cases c (or_none (lookup c inputs_by_name)) []) cases
  order ← stable_topological_order cases (merged cases explicit inferred)
  ok (record {
    stage_name = stage_name;
    cases = cases;
    dependencies = merged cases explicit inferred;
    explicit_dependencies = explicit;
    inferred_dependencies = inferred;
    topological_order = order;
  })
