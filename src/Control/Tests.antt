-- ===== src/Control/Tests.antt =====
-- The store of src/blackbase/resources/control.py on a chain of three controls.
use blackbase.Prelude.{
  ◌≡◌, ◌≢◌, refl, false, true, String, [], ◌∷◌, List, Option, none, some, arith, ok, err, returns,
}
use blackbase.Control.{
  CancellationRef, CancellationState, ControlStore, Backend, idle, read, request, checkpoint,
  out_of_rounds,
}
use blackbase.Control.Reads.{read-ends}
use blackbase.Control.Lineage.{
  ControlCall, run, request-reaches, creates, touches, retires, checkpoints,
}

abbrev ref_of : String → Option String → CancellationRef
ref_of control_id parent = record {
  control_id = control_id;
  backend = Backend.memory;
  namespace = "blackbase";
  path = "";
  redis_url_env = "BLACKBASE_REDIS_URL";
  deadline_at = 0;
  created_at = 1;
  parent_control_id = parent;
  root_control_id = "root";
  lineage_depth = 0;
  lineage_digest = "";
  active_ttl_seconds = 0;
  heartbeat_seconds = 0;
  retention_seconds = 0;
}

abbrev empty_store : ControlStore
empty_store = record { states = []; parents = [] }

abbrev setup : List ControlCall
setup =
    creates (ref_of "root" none)
    ∷ creates (ref_of "case" (some "root"))
    ∷ creates (ref_of "child" (some "case"))
    ∷ creates (ref_of "other" (some "root"))
    ∷ []

abbrev chain : ControlStore
chain = record {
  states = ("root", idle) ∷ ("case", idle) ∷ ("child", idle) ∷ ("other", idle) ∷ [];
  parents =
      ("root", none) ∷ ("case", some "root") ∷ ("child", some "case") ∷ ("other", some "root") ∷ [];
}

chain_run : run setup empty_store ≡ chain
unfolding run
chain_run = refl

-- A control that is its own parent's parent.
abbrev looped : ControlStore
looped = record { states = []; parents = ("a", some "b") ∷ ("b", some "a") ∷ [] }

read-ends_example : read (ref_of "a" (some "b")) looped ≢ err out_of_rounds
read-ends_example = read-ends (ref_of "a" (some "b")) looped

abbrev later_calls : List ControlCall
later_calls =
    touches (ref_of "child" (some "case"))
    ∷ retires (ref_of "other" (some "root"))
    ∷ checkpoints 20 (ref_of "case" (some "root"))
    ∷ creates (ref_of "child" (some "case"))
    ∷ []

request-reaches_example :
    ((s : CancellationState) × (read
          (ref_of "child" (some "case"))
          (run later_calls (request 10 (ref_of "root" none) "stop" chain).1)
        ≡ ok s)
      × (s.requested ≡ true))
    × (returns
          (checkpoint 30
            (ref_of "child" (some "case"))
            (run later_calls (request 10 (ref_of "root" none) "stop" chain).1)).0
        ≡ false)
request-reaches_example =
    request-reaches 10 30 (ref_of "root" none) (ref_of "child" (some "case")) "stop"
      ("case" ∷ "root" ∷ []) later_calls chain (refl, (refl, refl)) (refl, (refl, (refl, tt)))
      (omega arith) (tt, (refl, (tt, (tt, tt))))
