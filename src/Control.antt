-- ===== src/Control.antt =====
-- Cooperative cancellation: `TerminationPolicy`, `CancellationRef`, `InMemoryCancellationStore` and
-- `CancellationToken` of src/blackbase/resources/control.py. Times are counted in whole ticks. The store is the part
-- of one namespace, which every operation stays in. The SHA-256 digest is a parameter.
pub mod Reads
pub mod Lineage
mod Tests
use blackbase.Prelude.{
  ℕ, zero, suc, ◌+◌, ◌*◌, Bool, true, false, ◌&&◌, ◌||◌, not, String, List, [], ◌∷◌, Option, none,
  some, if◌then◌else◌, ltb, leb, ◌==◌, str_eq, is_empty, strip, lower, contains, length, all, Dict,
  lookup, insert, erase, Result, ok, err, raise_if, ◌>>=◌, ◌>>◌, ℤ, pos, is_negative, pos_part,
}
use Prim.Native.Char.{Char, code}
use Prim.Native.String.{len, ◌++◌}

pub data ControlError : Type 0 where
  bad_mode negative_grace bad_poll : ControlError
  bad_backend missing_control_id missing_path self_parent bad_depth root_with_parent
        child_without_parent :
      ControlError
  missing_root bad_digest negative_time heartbeat_without_ttl ttl_without_heartbeat slow_heartbeat :
      ControlError
  lineage_changed lineage_cycle lineage_too_deep out_of_rounds : ControlError
  deadline_exceeded : ControlError
  cancellation_requested : String → ControlError

abbrev pub max_cancellation_lineage_depth : ℕ
max_cancellation_lineage_depth = 256

pub data TerminationMode : Type 0 where
  cooperative cooperative_then_terminate : TerminationMode

pub record TerminationPolicy : Type 0 where
  pub mode : TerminationMode
  pub grace_seconds : ℕ
  pub kill_grace_seconds : ℕ
  pub poll_interval_seconds : ℕ

parse_mode : String → Result ControlError TerminationMode
parse_mode s =
    if str_eq s "cooperative"
    then ok cooperative
    else if str_eq s "cooperative_then_terminate"
    then ok cooperative_then_terminate
    else err bad_mode

-- `TerminationPolicy.__post_init__`.
unfoldable pub make_policy : String → ℤ → ℤ → ℤ → Result ControlError TerminationPolicy
unfolding parse_mode strip lower is_empty
make_policy mode grace kill_grace poll = do
  mode' ← parse_mode (lower (strip (if is_empty mode then "cooperative" else mode)))
  raise_if (is_negative grace || is_negative kill_grace) negative_grace
  raise_if (pos_part poll == 0) bad_poll
  ok (record {
    mode = mode';
    grace_seconds = pos_part grace;
    kill_grace_seconds = pos_part kill_grace;
    poll_interval_seconds = pos_part poll;
  })

pub data Backend : Type 0 where
  memory sqlite redis : Backend

pub record CancellationRef : Type 0 where
  pub control_id : String
  pub backend : Backend
  pub namespace : String
  pub path : String
  pub redis_url_env : String
  pub deadline_at : ℕ
  pub created_at : ℕ
  pub parent_control_id : Option String
  pub root_control_id : String
  pub lineage_depth : ℕ
  pub lineage_digest : String
  pub active_ttl_seconds : ℕ
  pub heartbeat_seconds : ℕ
  pub retention_seconds : ℕ

-- What the constructor is given.
pub record RefArgs : Type 0 where
  pub control_id : String
  pub backend : String
  pub namespace : String
  pub path : String
  pub redis_url_env : String
  pub deadline_at : ℤ
  pub created_at : ℕ
  pub parent_control_id : Option String
  pub root_control_id : String
  pub lineage_depth : ℤ
  pub lineage_digest : String
  pub active_ttl_seconds : ℤ
  pub heartbeat_seconds : ℤ
  pub retention_seconds : ℤ

parse_backend : String → Result ControlError Backend
parse_backend s =
    if str_eq s "memory"
    then ok memory
    else if str_eq s "sqlite"
    then ok sqlite
    else if str_eq s "redis"
    then ok redis
    else err bad_backend

abbrev pub or_text : String → String → String
unfolding is_empty
or_text s default = if is_empty s then default else s

-- `str(parent).strip() or None`.
abbrev stripped : Option String → Option String
unfolding strip is_empty
stripped none = none
stripped (some s) = if is_empty (strip s) then none else some (strip s)

is_hex : ℕ → Bool
is_hex c = leb 48 c && leb c 57 || leb 97 c && leb c 102

all_hex : String → Bool
unfolding is_hex
all_hex String.[] = true
all_hex (String.◌∷◌ c s) = is_hex (code c) && all_hex s

abbrev is_parent : Option String → String → Bool
is_parent none k = false
is_parent (some p) k = str_eq p k

abbrev is_none : Option String → Bool
is_none none = true
is_none (some p) = false

-- `CancellationRef.__post_init__` at the clock's time `now`.
unfoldable pub make_ref : (String → String) → ℕ → RefArgs → Result ControlError CancellationRef
unfolding parse_backend strip lower is_empty all_hex
make_ref sha256 now a = do
  backend ← parse_backend (lower (strip (or_text a.backend "memory")))
  let control_id = strip a.control_id
  raise_if (is_empty control_id) missing_control_id
  raise_if (elim backend [ sqlite ↦ is_empty (strip a.path) | other ↦ false ]) missing_path
  let parent = stripped a.parent_control_id
  raise_if (is_parent parent control_id) self_parent
  raise_if
      (is_negative a.lineage_depth || ltb max_cancellation_lineage_depth (pos_part a.lineage_depth))
      bad_depth
  raise_if (pos_part a.lineage_depth == 0 && not (is_none parent)) root_with_parent
  raise_if (not (pos_part a.lineage_depth == 0) && is_none parent) child_without_parent
  let root = strip (or_text a.root_control_id control_id)
  raise_if (is_empty root) missing_root
  let digest = or_text (lower (strip a.lineage_digest)) (sha256 ("root:" ++ root))
  raise_if (not (len digest == 64) || not (all_hex digest)) bad_digest
  raise_if
      (is_negative a.active_ttl_seconds
        || is_negative a.heartbeat_seconds
        || is_negative a.retention_seconds)
      negative_time
  let ttl = pos_part a.active_ttl_seconds
  let heartbeat = pos_part a.heartbeat_seconds
  raise_if (ttl == 0 && ltb 0 heartbeat) heartbeat_without_ttl
  raise_if (ltb 0 ttl && heartbeat == 0) ttl_without_heartbeat
  raise_if (ltb 0 ttl && ltb ttl (heartbeat * 2)) slow_heartbeat
  ok (record {
    control_id = control_id;
    backend = backend;
    namespace = or_text a.namespace "blackbase";
    path = a.path;
    redis_url_env = or_text a.redis_url_env "BLACKBASE_REDIS_URL";
    deadline_at = pos_part a.deadline_at;
    created_at = if a.created_at == 0 then now else a.created_at;
    parent_control_id = parent;
    root_control_id = root;
    lineage_depth = pos_part a.lineage_depth;
    lineage_digest = digest;
    active_ttl_seconds = ttl;
    heartbeat_seconds = heartbeat;
    retention_seconds = pos_part a.retention_seconds;
  })

pub record CancellationState : Type 0 where
  pub requested : Bool
  pub reason : String
  pub requested_at : ℕ

abbrev pub idle : CancellationState
idle = record { requested = false; reason = ""; requested_at = 0 }

-- `InMemoryCancellationStore`: `_states` and `_parents`.
pub record ControlStore : Type 0 where
  pub states : Dict CancellationState
  pub parents : Dict (Option String)

abbrev pub or_idle : Option CancellationState → CancellationState
or_idle none = idle
or_idle (some s) = s

-- `d.setdefault(k, v)`.
abbrev pub set_default : {V : Type 0} → String → V → Dict V → Dict V
set_default k v d = elim (lookup k d) [ none ↦ insert k v d | some w ↦ d ]

abbrev same_parent : Option String → Option String → Bool
same_parent none none = true
same_parent none (some b) = false
same_parent (some a) none = false
same_parent (some a) (some b) = str_eq a b

abbrev has_other_parent : CancellationRef → Option (Option String) → Bool
has_other_parent ref none = false
has_other_parent ref (some p) = not (same_parent p ref.parent_control_id)

-- `create`.
unfoldable pub create : CancellationRef → ControlStore → Result ControlError ControlStore
create ref m =
    raise_if (has_other_parent ref (lookup ref.control_id m.parents)) lineage_changed
    >> ok (record {
      states = set_default ref.control_id idle m.states;
      parents = set_default ref.control_id ref.parent_control_id m.parents;
    })

-- `self._parents.get(key)`, with `None` for a missing key.
abbrev pub or_root : Option (Option String) → Option String
or_root none = none
or_root (some p) = p

-- The loop of `read`, in at most so many rounds, after the ids of `visited`.
abbrev pub read_from :
    ℕ → List String → Option String → ControlStore → Result ControlError CancellationState
read_from zero visited k m = err out_of_rounds
read_from (suc n) visited none m = ok idle
read_from (suc n) visited (some k) m =
    let rest = read_from n (k ∷ visited) (or_root (lookup k m.parents)) m in
    raise_if (contains k visited) lineage_cycle
    >> (raise_if (ltb (max_cancellation_lineage_depth + 1) (suc (length visited))) lineage_too_deep
        >> (if (or_idle (lookup k m.states)).requested
            then ok (or_idle (lookup k m.states))
            else rest))

-- `read`. Each round but the last visits one more id, and the visit after the deepest is an error.
unfoldable pub read : CancellationRef → ControlStore → Result ControlError CancellationState
read ref m = read_from (max_cancellation_lineage_depth + 2) [] (some ref.control_id) m

-- `request`, with the answer whether this call made the request.
unfoldable pub request : ℕ → CancellationRef → String → ControlStore → Bool × ControlStore
unfolding is_empty
request now ref reason m =
    if (or_idle (lookup ref.control_id m.states)).requested then (false, m) else (
      true,
      record m {
        states =
            insert ref.control_id
              (record { requested = true; reason = or_text reason "cancelled"; requested_at = now })
              m.states;
      },
    )

unfoldable pub touch : CancellationRef → ControlStore → Bool
touch ref m = elim (lookup ref.control_id m.states) [ none ↦ false | some s ↦ true ]

unfoldable pub retire : CancellationRef → ControlStore → ControlStore
retire ref m = record {
  states = erase ref.control_id m.states;
  parents = erase ref.control_id m.parents;
}

-- `CancellationToken.deadline_exceeded`.
unfoldable pub is_past_deadline : ℕ → CancellationRef → Bool
is_past_deadline now ref = ltb 0 ref.deadline_at && leb ref.deadline_at now

-- `CancellationToken.checkpoint`: what it raises, if anything, and the store that it leaves.
unfoldable pub checkpoint :
    ℕ → CancellationRef → ControlStore → Result ControlError (Unit {0}) × ControlStore
unfolding is_past_deadline read request is_empty
checkpoint now ref m =
    if is_past_deadline now ref
    then (err deadline_exceeded, (request now ref "case deadline exceeded" m).1)
    else (
      read ref m >>= λ s.
          raise_if s.requested
            (cancellation_requested (or_text s.reason "case cancellation requested")),
      m,
    )
