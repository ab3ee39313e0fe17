-- ===== src/Grants.antt =====
-- `ResourceGrantPool` of src/blackbase/resources/grant_pool.py: slices of one parent grant. Memory sizes are
-- whole numbers. The parent's grant and lease, from which the constructor reads the totals, are given
-- as a `PoolConfig`; of the child's context only what the pool computes is kept.
pub mod Counts
pub mod Invariant
pub mod History
mod Tests
use blackbase.Prelude.{
  ℕ, zero, suc, ◌+◌, ◌-◌, Bool, true, false, ◌&&◌, ◌||◌, not, String, List, [], ◌∷◌, ◌++◌, Option,
  none, some, if◌then◌else◌, ltb, leb, ◌==◌, str_eq, is_empty, strip, lower, contains, length, take,
  all, max, Dict, lookup, insert, erase, values, Result, ok, err, raise_if, ◌>>=◌, ◌>>◌,
}
use Prim.Native.Char.{code}
use text.Mathlib.Text.{starts_with}

pub data GrantError : Type 0 where
  repeated_tokens over_total tokens_outside capabilities_outside other_backend
        other_compute_backend :
      GrantError
  cpu_only device_outside deadline_expired token_not_available : GrantError

pub record Quantities : Type 0 where
  pub workers : ℕ
  pub threads : ℕ
  pub gpus : ℕ
  pub memory_mb : ℕ
  pub gpu_memory_mb : ℕ

abbrev pub zip_with : (ℕ → ℕ → ℕ) → Quantities → Quantities → Quantities
zip_with f a b = record {
  workers = f a.workers b.workers;
  threads = f a.threads b.threads;
  gpus = f a.gpus b.gpus;
  memory_mb = f a.memory_mb b.memory_mb;
  gpu_memory_mb = f a.gpu_memory_mb b.gpu_memory_mb;
}

-- `a[name] <= b[name]` for all names.
abbrev pub fits : Quantities → Quantities → Bool
fits a b =
    leb a.workers b.workers
    && (leb a.threads b.threads
        && (leb a.gpus b.gpus
            && (leb a.memory_mb b.memory_mb && leb a.gpu_memory_mb b.gpu_memory_mb)))

-- What the constructor reads of the parent's grant.
pub record PoolConfig : Type 0 where
  pub totals : Quantities
  pub tokens : List String
  pub capabilities : List String
  pub backend : String
  pub compute_backend : String
  pub device : String
  pub resolved_devices : Dict String

-- A request, and what `_requested_resources` makes of it.
pub record Resources : Type 0 where
  pub quantities : Quantities
  pub device_tokens : List String
  pub backend : String
  pub compute_backend : String
  pub device : String
  pub capabilities : List String

-- `ResourceSubgrant`.
pub record Subgrant : Type 0 where
  pub grant_id : String
  pub quantities : Quantities
  pub device_tokens : List String
  pub resolved_devices : Dict String
  pub backend : String
  pub compute_backend : String
  pub device : String

pub record Pool : Type 0 where
  pub available : Quantities
  pub available_tokens : List String
  pub active : Dict Subgrant

unfoldable pub initial : PoolConfig → Pool
initial cfg = record { available = cfg.totals; available_tokens = cfg.tokens; active = [] }

-- `_requested_resources`: at least as many GPUs as named tokens.
unfoldable pub requested_resources : Resources → Resources
requested_resources r = record r {
  quantities = record r.quantities { gpus = max r.quantities.gpus (length r.device_tokens) };
}

abbrev pub has_repeat : List String → Bool
has_repeat [] = false
has_repeat (t ∷ ts) = contains t ts || has_repeat ts

abbrev pub is_subset : List String → List String → Bool
is_subset xs ys = all (λ x. contains x ys) xs

-- `_is_generic_resource_value`.
unfoldable pub is_generic : String → Bool
unfolding strip lower is_empty
is_generic s =
    is_empty (lower (strip s)) || contains (lower (strip s)) ("auto" ∷ "any" ∷ "none" ∷ [])

-- `_is_accelerator_device`.
unfoldable pub is_accelerator : String → Bool
unfolding strip lower
is_accelerator s =
    starts_with (lower (strip s)) "accelerator"
    || starts_with (lower (strip s)) "cuda"
    || starts_with (lower (strip s)) "gpu"
    || starts_with (lower (strip s)) "mps"
    || starts_with (lower (strip s)) "rocm"
    || starts_with (lower (strip s)) "xpu"

has_colon : String → Bool
has_colon String.[] = false
has_colon (String.◌∷◌ c s) = code c == 58 || has_colon s

-- `_is_specific_device`.
unfoldable pub is_specific : String → Bool
unfolding is_accelerator strip lower has_colon
is_specific s = is_accelerator s && has_colon (lower (strip s))

abbrev pub or_auto : String → String
unfolding is_empty
or_auto s = if is_empty s then "auto" else s

abbrev lowered : List String → List String
unfolding lower
lowered [] = []
lowered (s ∷ ss) = lower s ∷ lowered ss

module _ (cfg : PoolConfig) where
  abbrev has_accelerator : Bool
  unfolding is_accelerator
  has_accelerator = ltb 0 cfg.totals.gpus || ltb 0 (length cfg.tokens) || is_accelerator cfg.device

  abbrev is_allowed_device : String → Bool
  unfolding lower
  is_allowed_device device =
      contains (lower device)
        (lower cfg.device ∷ (lowered cfg.tokens ++ lowered (values cfg.resolved_devices)))

  abbrev conflicts : String → Bool
  unfolding is_generic lower
  conflicts compute_backend =
      not (is_generic (lower cfg.compute_backend))
      && (not (is_generic (lower (or_auto compute_backend)))
          && not (str_eq (lower (or_auto compute_backend)) (lower cfg.compute_backend)))

  -- `_validate_static`.
  unfoldable pub validate_static : Resources → Result GrantError (Unit {0})
  unfolding is_generic is_accelerator is_specific lower is_empty
  validate_static r = do
    raise_if (not (fits r.quantities cfg.totals)) over_total
    raise_if (not (is_subset r.device_tokens cfg.tokens)) tokens_outside
    raise_if (not (is_subset r.capabilities cfg.capabilities)) capabilities_outside
    let backend = lower (or_auto r.backend)
    raise_if (not (is_empty backend || contains backend ("auto" ∷ "any" ∷ lower cfg.backend ∷ [])))
        other_backend
    raise_if (conflicts r.compute_backend) other_compute_backend
    let device = or_auto r.device
    raise_if (is_accelerator device && not has_accelerator) cpu_only
    raise_if (is_accelerator device && (is_specific device && not (is_allowed_device device)))
        device_outside
    ok tt

  -- `_can_allocate`.
  unfoldable pub can_allocate : Resources → Pool → Bool
  can_allocate r p =
      fits r.quantities p.available
      && (if ltb 0 (length r.device_tokens)
          then is_subset r.device_tokens p.available_tokens
          else if ltb 0 (length cfg.tokens) && ltb 0 r.quantities.gpus
          then leb r.quantities.gpus (length p.available_tokens)
          else true)

  abbrev pub allocated_tokens : Resources → Pool → List String
  allocated_tokens r p =
      if ltb 0 (length r.device_tokens)
      then r.device_tokens
      else if ltb 0 r.quantities.gpus
      then take r.quantities.gpus p.available_tokens
      else []

  abbrev noted : String → Option String → Dict String → Dict String
  noted t none found = found
  noted t (some d) found = insert t d found

  -- The devices of some tokens, in their order.
  abbrev resolved : List String → Dict String → Dict String
  resolved [] found = found
  resolved (t ∷ ts) found = resolved ts (noted t (lookup t cfg.resolved_devices) found)

  abbrev device_of : Resources → List String → String
  unfolding is_generic
  device_of r (d ∷ ds) = d
  device_of r [] =
      if ltb 0 r.quantities.gpus
      then cfg.device
      else if not (is_generic (or_auto r.device))
      then or_auto r.device
      else cfg.device

  -- The child's grant.
  unfoldable pub granted : String → Resources → List String → Subgrant
  unfolding is_generic
  granted grant_id r tokens = record {
    grant_id = grant_id;
    quantities = r.quantities;
    device_tokens = tokens;
    resolved_devices = resolved tokens [];
    backend = cfg.backend;
    compute_backend =
        if is_generic (or_auto r.compute_backend)
        then cfg.compute_backend
        else or_auto r.compute_backend;
    device = device_of r (values (resolved tokens []));
  }

  -- `len(order)`: the distinct tokens of the parent's grant.
  abbrev distinct_count : List String → ℕ
  distinct_count [] = 0
  distinct_count (s ∷ ss) = (if contains s ss then 0 else 1) + distinct_count ss

  -- `order.get(token, len(order))`: the last index of a token in `ss`, whose first has the given index.
  abbrev place : ℕ → List String → String → ℕ
  place index [] t = distinct_count cfg.tokens
  place index (s ∷ ss) t =
      let later = place (index + 1) ss t in
      if str_eq s t && not (contains t ss) then index else later

  abbrev insert_token : String → List String → List String
  insert_token t [] = t ∷ []
  insert_token t (s ∷ ss) =
      let rest = s ∷ insert_token t ss in
      if ltb (place 0 cfg.tokens s) (place 0 cfg.tokens t) then rest else t ∷ s ∷ ss

  abbrev pub sort_tokens : List String → List String
  sort_tokens [] = []
  sort_tokens (t ∷ ts) = insert_token t (sort_tokens ts)

-- `tokens.remove(t)` for each token; `none` is the `ValueError`.
abbrev pub with_first : String → Option (List String) → Option (List String)
with_first s none = none
with_first s (some ts) = some (s ∷ ts)

abbrev pub remove_token : String → List String → Option (List String)
remove_token t [] = none
remove_token t (s ∷ ss) =
    let rest = with_first s (remove_token t ss) in if str_eq s t then some ss else rest

abbrev pub remove_tokens : List String → List String → Option (List String)
remove_tokens [] free = some free
remove_tokens (t ∷ ts) free = elim (remove_token t free) [
  | none ↦ none
  | some left ↦ remove_tokens ts left
]

-- One round of the loop of `acquire`: it raises, waits for a release, or has a grant and the pool after it.
pub data Attempt : Type 0 where
  raised : GrantError → Attempt
  waits : Attempt
  grants : Subgrant → Pool → Attempt

module _ (cfg : PoolConfig) where
  abbrev pub taken : String → Resources → Pool → Attempt
  taken grant_id r p = elim (remove_tokens (allocated_tokens cfg r p) p.available_tokens) [
    | none ↦ raised token_not_available
    | some left ↦ grants (granted cfg grant_id r (allocated_tokens cfg r p)) (record {
      available = zip_with (λ a b. a - b) p.available r.quantities;
      available_tokens = left;
      active = insert grant_id (granted cfg grant_id r (allocated_tokens cfg r p)) p.active;
    })
  ]

  -- The checks before the loop, and one round: `now` is the clock in it.
  unfoldable pub acquire : ℕ → ℕ → String → Resources → Pool → Attempt
  unfolding validate_static can_allocate requested_resources
  acquire now deadline_at grant_id request p =
      if has_repeat request.device_tokens
      then raised repeated_tokens
      else (elim (validate_static cfg (requested_resources request)) [
        | err e ↦ raised e
        | ok _ ↦
            if ltb 0 deadline_at && leb deadline_at now
            then raised deadline_expired
            else if can_allocate cfg (requested_resources request) p
            then taken grant_id (requested_resources request) p
            else waits
      ])

  -- The exit of the `with` block of a grant.
  unfoldable pub release : Subgrant → Pool → Pool
  release g p = record {
    available = zip_with (λ a b. a + b) p.available g.quantities;
    available_tokens = sort_tokens cfg (p.available_tokens ++ g.device_tokens);
    active = erase g.grant_id p.active;
  }
