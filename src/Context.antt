-- ===== src/Context.antt =====
-- `InMemoryContextStore` of src/blackbase/context/context_store.py. Times are counted in whole ticks, and a call
-- is given one reading of the clock.
pub mod Visible
pub mod Refinement
mod Tests
use blackbase.Prelude.{
  ℕ, ◌+◌, Bool, true, false, String, List, [], ◌∷◌, Option, none, some, if◌then◌else◌, leb, ◌==◌,
  Dict, lookup, insert, erase, ℤ, pos_part,
}

pub record ContextStore (V : Type 0) : Type 0 where
  pub default_ttl_seconds : Option ℤ
  pub values : Dict V
  pub expires_at : Dict ℕ

-- The keys whose time is up.
abbrev pub expired : ℕ → Dict ℕ → List String
expired now [] = []
expired now ((k, t) ∷ d) = let rest = expired now d in if leb t now then k ∷ rest else rest

abbrev pub erase_all : {V : Type 0} → List String → Dict V → Dict V
erase_all [] d = d
erase_all (k ∷ ks) d = erase_all ks (erase k d)

abbrev pub effective_ttl : Option ℤ → Option ℤ → Option ℤ
effective_ttl default none = default
effective_ttl default (some ttl) = some ttl

-- When an entry written now expires; one without a positive TTL does not.
abbrev pub expiry : ℕ → Option ℤ → Option ℕ
expiry now none = none
expiry now (some ttl) = if pos_part ttl == 0 then none else some (now + pos_part ttl)

-- `_expires_at[k] = t`, or `_expires_at.pop(k, None)`.
abbrev pub set_expiry : String → Option ℕ → Dict ℕ → Dict ℕ
set_expiry k none d = erase k d
set_expiry k (some t) d = insert k t d

module _ {V : Type 0} where
  -- `_sweep_expired`.
  unfoldable pub sweep : ℕ → ContextStore V → ContextStore V
  sweep now m = record m {
    values = erase_all (expired now m.expires_at) m.values;
    expires_at = erase_all (expired now m.expires_at) m.expires_at;
  }

  -- `get`; `none` is the default that the caller gives.
  unfoldable pub get : ℕ → String → ContextStore V → Option V × ContextStore V
  unfolding sweep
  get now k m = (lookup k (sweep now m).values, sweep now m)

  -- An entry of the two dicts.
  abbrev pub write : String → V → Option ℕ → ContextStore V → ContextStore V
  write k v t m = record m {
    values = insert k v m.values;
    expires_at = set_expiry k t m.expires_at;
  }

  unfoldable pub set : ℕ → String → V → Option ℤ → ContextStore V → ContextStore V
  unfolding sweep
  set now k v ttl m = write k v (expiry now (effective_ttl m.default_ttl_seconds ttl)) (sweep now m)

  unfoldable pub delete : String → ContextStore V → ContextStore V
  delete k m = record m { values = erase k m.values; expires_at = erase k m.expires_at }

  unfoldable pub clear : ContextStore V → ContextStore V
  clear m = record m { values = []; expires_at = [] }

  unfoldable pub snapshot : ℕ → ContextStore V → Dict V × ContextStore V
  unfolding sweep
  snapshot now m = ((sweep now m).values, sweep now m)

  abbrev pub delete_all : List String → ContextStore V → ContextStore V
  unfolding delete
  delete_all [] m = m
  delete_all (k ∷ ks) m = delete_all ks (delete k m)

  abbrev pub write_all : Dict V → Option ℕ → ContextStore V → ContextStore V
  write_all [] t m = m
  write_all ((k, v) ∷ d) t m = write_all d t (write k v t m)

  -- `apply_patch`.
  unfoldable pub apply_patch : ℕ → Dict V → List String → Option ℤ → ContextStore V → ContextStore V
  unfolding sweep delete_all
  apply_patch now given delete_keys ttl m =
      write_all given (expiry now (effective_ttl m.default_ttl_seconds ttl))
        (delete_all delete_keys (sweep now m))
