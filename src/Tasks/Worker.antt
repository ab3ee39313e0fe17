-- ===== src/Tasks/Worker.antt =====
-- What a task asks for and a worker offers: `TaskEnvelope`, `ResourceRequirement`, `ResourceOffer` and
-- `WorkerDescriptor` of src/blackbase/resources/model.py, after their normalisation. Memory is in whole MB.
use blackbase.Prelude.{
  ℕ, Bool, true, false, ◌&&◌, ◌||◌, not, String, List, [], ◌∷◌, Option, none, some, ltb, leb, ◌==◌,
  str_eq, contains, all, any, keep, Dict, lookup, values, lower, has_colon, is_empty, if◌then◌else◌,
}

-- `ResourceRequirement`, without the timeout and the metadata, which placement does not read.
pub record Requirement : Type 0 where
  pub threads : ℕ
  pub gpus : ℕ
  pub resource_backend : String
  pub device_tokens : List String
  pub memory_mb : Option ℕ
  pub gpu_memory_mb : Option ℕ
  pub capabilities : List String

-- `ResourceOffer` with the entries of its metadata that placement reads.
pub record Offer : Type 0 where
  pub threads : ℕ
  pub gpus : ℕ
  pub backend : String
  pub device_tokens : List String
  pub memory_mb : Option ℕ
  pub gpu_memory_mb : Option ℕ
  pub gpu_memory_mb_by_device : Dict ℕ

pub record WorkerDescriptor : Type 0 where
  pub worker_id : String
  pub executor_backend : String
  pub resource_backend : String
  pub host : String
  pub capabilities : List String
  pub offer : Option Offer
  pub max_inflight : ℕ
  pub status : String
  pub last_heartbeat_at : ℕ

-- `TaskEnvelope`; `body` is the wire text of the payload, the references, the trace and the metadata.
pub record TaskEnvelope : Type 0 where
  pub task_id : String
  pub task_type : String
  pub requirement : Requirement
  pub executor_backend : String
  pub namespace : String
  pub max_retries : ℕ
  pub body : String

-- `set(xs).issubset(ys)`.
unfoldable pub is_subset : List String → List String → Bool
is_subset xs ys = all (λ x. contains x ys) xs

-- A bound that is not declared holds.
abbrev within : Option ℕ → Option ℕ → Bool
within none available = true
within (some need) none = true
within (some need) (some available) = leb need available

-- `ResourceRequirement.satisfies`.
unfoldable pub satisfies : Requirement → Offer → Bool
unfolding is_subset
satisfies r o =
    leb r.threads o.threads
    && leb r.gpus o.gpus
    && is_subset r.device_tokens o.device_tokens
    && within r.memory_mb o.memory_mb

abbrev at_least : ℕ → Option ℕ → Bool
at_least need none = need == 0
at_least need (some n) = leb need n

abbrev device_tokens_fit : ℕ → List String → Offer → Bool
device_tokens_fit need [] o = elim o.gpu_memory_mb [
  | none ↦ any (leb need) (values o.gpu_memory_mb_by_device)
  | some n ↦ leb need n
]
device_tokens_fit need (x ∷ xs) o = elim o.gpu_memory_mb_by_device [
  | [] ↦ elim o.gpu_memory_mb [ none ↦ false | some n ↦ leb need n ]
  | p ∷ ps ↦ all (λ t. at_least need (lookup t (p ∷ ps))) (x ∷ xs)
]

-- `_gpu_memory_satisfies_requirement`, when memory is asked for.
unfoldable pub gpu_memory_satisfies : ℕ → Requirement → Offer → Bool
unfolding has_colon
gpu_memory_satisfies need r o =
    need == 0
    || device_tokens_fit need (keep (λ t. has_colon t || str_eq t "mps") r.device_tokens) o

abbrev has_tokens : List String → Bool
has_tokens [] = false
has_tokens (t ∷ ts) = true

abbrev gpu_memory_fits : Option ℕ → Requirement → Offer → Bool
gpu_memory_fits none r o = true
gpu_memory_fits (some need) r o =
    (not (r.gpus == 0) || has_tokens r.device_tokens) && gpu_memory_satisfies need r o

abbrev offers : Option Offer → Requirement → Bool
offers none r = false
offers (some o) r = satisfies r o && gpu_memory_fits r.gpu_memory_mb r o

-- `WorkerDescriptor.can_run`.
unfoldable pub can_run : WorkerDescriptor → TaskEnvelope → ℕ → Bool
unfolding is_subset lower
can_run w task active_count =
    contains (lower w.status) ("online" ∷ "idle" ∷ "ready" ∷ [])
    && ltb active_count w.max_inflight
    && (contains (lower task.executor_backend) ("" ∷ "auto" ∷ "any" ∷ [])
        || str_eq (lower task.executor_backend) (lower w.executor_backend))
    && str_eq (lower task.requirement.resource_backend) (lower w.resource_backend)
    && is_subset task.requirement.capabilities w.capabilities
    && offers w.offer task.requirement

-- `WorkerDescriptor.heartbeat`, with the default status of `__post_init__`.
unfoldable pub heartbeat : String → ℕ → WorkerDescriptor → WorkerDescriptor
unfolding is_empty
heartbeat status now w = record w {
  status = if is_empty status then "online" else status;
  last_heartbeat_at = now;
}

abbrev texts_eq : List String → List String → Bool
texts_eq [] [] = true
texts_eq [] (y ∷ ys) = false
texts_eq (x ∷ xs) [] = false
texts_eq (x ∷ xs) (y ∷ ys) = str_eq x y && texts_eq xs ys

abbrev bound_eq : Option ℕ → Option ℕ → Bool
bound_eq none none = true
bound_eq none (some n) = false
bound_eq (some m) none = false
bound_eq (some m) (some n) = m == n

-- Equality of two envelopes' `as_dict()`.
unfoldable pub task_eq : TaskEnvelope → TaskEnvelope → Bool
task_eq a b =
    str_eq a.task_id b.task_id
    && str_eq a.task_type b.task_type
    && a.requirement.threads == b.requirement.threads
    && a.requirement.gpus == b.requirement.gpus
    && str_eq a.requirement.resource_backend b.requirement.resource_backend
    && texts_eq a.requirement.device_tokens b.requirement.device_tokens
    && bound_eq a.requirement.memory_mb b.requirement.memory_mb
    && bound_eq a.requirement.gpu_memory_mb b.requirement.gpu_memory_mb
    && texts_eq a.requirement.capabilities b.requirement.capabilities
    && str_eq a.executor_backend b.executor_backend
    && str_eq a.namespace b.namespace
    && a.max_retries == b.max_retries
    && str_eq a.body b.body
