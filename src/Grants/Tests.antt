-- ===== src/Grants/Tests.antt =====
-- A pool of src/blackbase/resources/grant_pool.py with two device tokens.
use blackbase.Prelude.{◌≡◌, refl, false, String, List, [], ◌∷◌, contains}
use blackbase.Grants.{
  PoolConfig, Pool, Resources, Subgrant, initial, acquire, granted, release, grants, waits,
}
use blackbase.Grants.Invariant.{IsConserved}
use blackbase.Grants.History.{
  Reachable, start, grant, give_back, Reachable-IsConserved, Reachable-exclusive,
}

abbrev parent : PoolConfig
parent = record {
  totals = record { workers = 4; threads = 8; gpus = 2; memory_mb = 0; gpu_memory_mb = 0 };
  tokens = "t0" ∷ "t1" ∷ [];
  capabilities = "train" ∷ [];
  backend = "local";
  compute_backend = "torch";
  device = "cuda:0";
  resolved_devices = ("t1", "cuda:1") ∷ [];
}

abbrev request : List String → Resources
request tokens = record {
  quantities = record { workers = 1; threads = 2; gpus = 1; memory_mb = 0; gpu_memory_mb = 0 };
  device_tokens = tokens;
  backend = "auto";
  compute_backend = "";
  device = "cuda";
  capabilities = "train" ∷ [];
}

abbrev first : Subgrant
first = record {
  grant_id = "g-1";
  quantities = record { workers = 1; threads = 2; gpus = 1; memory_mb = 0; gpu_memory_mb = 0 };
  device_tokens = "t1" ∷ [];
  resolved_devices = ("t1", "cuda:1") ∷ [];
  backend = "local";
  compute_backend = "torch";
  device = "cuda:1";
}

abbrev second : Subgrant
second = record first {
  grant_id = "g-2";
  device_tokens = "t0" ∷ [];
  resolved_devices = [];
  device = "cuda:0";
}

abbrev one_out : Pool
one_out = record {
  available = record { workers = 3; threads = 6; gpus = 1; memory_mb = 0; gpu_memory_mb = 0 };
  available_tokens = "t0" ∷ [];
  active = ("g-1", first) ∷ [];
}

abbrev two_out : Pool
two_out = record {
  available = record { workers = 2; threads = 4; gpus = 0; memory_mb = 0; gpu_memory_mb = 0 };
  available_tokens = [];
  active = ("g-1", first) ∷ ("g-2", second) ∷ [];
}

first_run : acquire parent 10 0 "g-1" (request ("t1" ∷ [])) (initial parent) ≡ grants first one_out
unfolding acquire initial granted
first_run = refl

second_run : acquire parent 11 20 "g-2" (request []) one_out ≡ grants second two_out
unfolding acquire granted
second_run = refl

third_run : acquire parent 12 20 "g-3" (request []) two_out ≡ waits
unfolding acquire granted
third_run = refl

two_out-Reachable : Reachable parent two_out
unfolding initial
two_out-Reachable =
    grant one_out 11 20 "g-2" (request []) second two_out
      (grant (initial parent) 10 0 "g-1" (request ("t1" ∷ [])) first one_out
        (start (initial parent) refl) refl first_run)
      refl second_run

Reachable-exclusive_example : contains "t1" second.device_tokens ≡ false
Reachable-exclusive_example =
    Reachable-exclusive parent two_out "g-1" "g-2" "t1" first second two_out-Reachable refl refl
      refl refl refl

given_back-Reachable : Reachable parent (release parent first two_out)
given_back-Reachable =
    give_back two_out "g-1" first (release parent first two_out) two_out-Reachable refl refl

Reachable-IsConserved_example : IsConserved parent (release parent first two_out)
Reachable-IsConserved_example =
    Reachable-IsConserved parent (release parent first two_out) given_back-Reachable
