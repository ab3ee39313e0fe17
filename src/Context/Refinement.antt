-- ===== src/Context/Refinement.antt =====
-- The store of src/blackbase/context/context_store.py against cells that each hold a value and its expiry.
use blackbase.Prelude.{
  ℕ, ◌≤◌, ◌≡◌, refl, ◌∙◌, subst, inl, inr, String, List, [], ◌∷◌, Option, none, some, if◌then◌else◌,
  str_eq, Dict, lookup, KeysApart, erase-KeysApart, Bool-cases, ℤ, arith,
}
use blackbase.Context.{
  ContextStore, effective_ttl, expiry, sweep, get, set, write, delete, clear, snapshot, delete_all,
  write_all, apply_patch,
}
use blackbase.Context.Visible.{
  is_up, visible, sweep-values, sweep-visible, sweep-KeysApart, set_expiry-KeysApart, write-visible,
  delete-visible,
}

pub data ContextCall (V : Type 0) : Type 0 where
  gets deletes : String → ContextCall V
  sets : String → V → Option ℤ → ContextCall V
  clears snapshots : ContextCall V
  patches : Dict V → List String → Option ℤ → ContextCall V

-- The cells: a value with the time at which it expires, if it does.
abbrev pub Cells : Type 0 → Type 0
Cells V = String → Option (V × Option ℕ)

abbrev pub shown : {V : Type 0} → ℕ → Option (V × Option ℕ) → Option V
shown now none = none
shown now (some (v, t)) = if is_up now t then none else some v

-- Calls at times that never fall, from one time to another.
abbrev pub Timed : {V : Type 0} → ℕ → List (ℕ × ContextCall V) → ℕ → Type 0
Timed at [] now = at ≤ now
Timed at ((t, call) ∷ calls) now = (at ≤ t) × Timed t calls now

module _ {V : Type 0} where
  unfoldable pub step : ℕ → ContextCall V → ContextStore V → ContextStore V
  unfolding get set delete clear snapshot apply_patch
  step now (gets k) m = (get now k m).1
  step now (deletes k) m = delete k m
  step now (sets k v ttl) m = set now k v ttl m
  step now clears m = clear m
  step now snapshots m = (snapshot now m).1
  step now (patches given keys ttl) m = apply_patch now given keys ttl m

  unfoldable pub run : List (ℕ × ContextCall V) → ContextStore V → ContextStore V
  unfolding step
  run [] m = m
  run ((now, call) ∷ calls) m = run calls (step now call m)

  abbrev pub cell_write : String → V → Option ℕ → Cells V → Cells V
  cell_write k v t f j = if str_eq k j then some (v, t) else f j

  abbrev pub cell_delete : String → Cells V → Cells V
  cell_delete k f j = if str_eq k j then none else f j

  abbrev pub cell_delete_all : List String → Cells V → Cells V
  cell_delete_all [] f = f
  cell_delete_all (k ∷ ks) f = cell_delete_all ks (cell_delete k f)

  abbrev pub cell_write_all : Dict V → Option ℕ → Cells V → Cells V
  cell_write_all [] t f = f
  cell_write_all ((k, v) ∷ d) t f = cell_write_all d t (cell_write k v t f)

  -- The calls on cells, under the default TTL of the store.
  abbrev pub cell_step : Option ℤ → ℕ → ContextCall V → Cells V → Cells V
  cell_step default now (gets k) f = f
  cell_step default now (deletes k) f = cell_delete k f
  cell_step default now (sets k v ttl) f = cell_write k v (expiry now (effective_ttl default ttl)) f
  cell_step default now clears f = λ k. none
  cell_step default now snapshots f = f
  cell_step default now (patches given keys ttl) f =
      cell_write_all given (expiry now (effective_ttl default ttl)) (cell_delete_all keys f)

  abbrev pub cell_run : Option ℤ → List (ℕ × ContextCall V) → Cells V → Cells V
  cell_run default [] f = f
  cell_run default ((now, call) ∷ calls) f = cell_run default calls (cell_step default now call f)

  -- From a time on, the store shows what the cells show.
  pub record Shows (default : Option ℤ) (at : ℕ) (m : ContextStore V) (f : Cells V) : Type 0 where
    pub same : (now : ℕ) (k : String) → at ≤ now → visible now k m ≡ shown now (f k)
    pub apart : KeysApart m.expires_at
    pub ttl : m.default_ttl_seconds ≡ default

  sweep-Shows :
      (default : Option ℤ) (at now : ℕ) (m : ContextStore V) (f : Cells V)
      → at ≤ now
      → Shows default at m f
      → Shows default now (sweep now m) f
  unfolding sweep
  sweep-Shows default at now m f le s = record {
    same = λ later k le'. sweep-visible now later k m s.apart le' ∙ s.same later k (omega arith);
    apart = sweep-KeysApart now m s.apart;
    ttl = s.ttl;
  }

  write-Shows :
      (default : Option ℤ) (at : ℕ) (k : String) (v : V) (t : Option ℕ) (m : ContextStore V)
      (f : Cells V)
      → Shows default at m f
      → Shows default at (write k v t m) (cell_write k v t f)
  write-Shows default at k v t m f s = record {
    same = λ now j le. write-visible now k j v t m ∙ elim (Bool-cases (str_eq k j)) [
      | inl hit ↦ rw hit refl
      | inr miss ↦ rw miss (s.same now j le)
    ];
    apart = set_expiry-KeysApart k t m.expires_at s.apart;
    ttl = s.ttl;
  }

  delete-Shows :
      (default : Option ℤ) (at : ℕ) (k : String) (m : ContextStore V) (f : Cells V)
      → Shows default at m f
      → Shows default at (delete k m) (cell_delete k f)
  unfolding delete
  delete-Shows default at k m f s = record {
    same = λ now j le. delete-visible now k j m ∙ elim (Bool-cases (str_eq k j)) [
      | inl hit ↦ rw hit refl
      | inr miss ↦ rw miss (s.same now j le)
    ];
    apart = erase-KeysApart k m.expires_at s.apart;
    ttl = s.ttl;
  }

  delete_all-Shows :
      (default : Option ℤ) (at : ℕ) (ks : List String) (m : ContextStore V) (f : Cells V)
      → Shows default at m f
      → Shows default at (delete_all ks m) (cell_delete_all ks f)
  unfolding delete_all
  delete_all-Shows default at [] m f s = s
  delete_all-Shows default at (k ∷ ks) m f s =
      delete_all-Shows default at ks (delete k m) (cell_delete k f)
        (delete-Shows default at k m f s)

  write_all-Shows :
      (default : Option ℤ) (at : ℕ) (d : Dict V) (t : Option ℕ) (m : ContextStore V) (f : Cells V)
      → Shows default at m f
      → Shows default at (write_all d t m) (cell_write_all d t f)
  write_all-Shows default at [] t m f s = s
  write_all-Shows default at ((k, v) ∷ d) t m f s =
      write_all-Shows default at d t (write k v t m) (cell_write k v t f)
        (write-Shows default at k v t m f s)

  step-Shows :
      (default : Option ℤ) (at now : ℕ) (call : ContextCall V) (m : ContextStore V) (f : Cells V)
      → at ≤ now
      → Shows default at m f
      → Shows default now (step now call m) (cell_step default now call f)
  unfolding step get set clear snapshot apply_patch
  step-Shows default at now (gets k) m f le s = sweep-Shows default at now m f le s
  step-Shows default at now (deletes k) m f le s =
      delete-Shows default now k m f (record {
        same = λ later j le'. s.same later j (omega arith);
        apart = s.apart;
        ttl = s.ttl;
      })
  step-Shows default at now (sets k v ttl) m f le s =
      subst
        (λ (d : Option ℤ).
          Shows default now (set now k v ttl m)
            (cell_write k v (expiry now (effective_ttl d ttl)) f))
        s.ttl
        (write-Shows default now k v (expiry now (effective_ttl m.default_ttl_seconds ttl))
          (sweep now m) f (sweep-Shows default at now m f le s))
  step-Shows default at now clears m f le s = record {
    same = λ later j le'. refl;
    apart = tt;
    ttl = s.ttl;
  }
  step-Shows default at now snapshots m f le s = sweep-Shows default at now m f le s
  step-Shows default at now (patches given keys ttl) m f le s =
      subst
        (λ (d : Option ℤ).
          Shows default now (apply_patch now given keys ttl m)
            (cell_write_all given (expiry now (effective_ttl d ttl)) (cell_delete_all keys f)))
        s.ttl
        (write_all-Shows default now given (expiry now (effective_ttl m.default_ttl_seconds ttl))
          (delete_all keys (sweep now m)) (cell_delete_all keys f)
          (delete_all-Shows default now keys (sweep now m) f (sweep-Shows default at now m f le s)))

  run-Shows :
      (default : Option ℤ) (at now : ℕ) (calls : List (ℕ × ContextCall V)) (m : ContextStore V)
      (f : Cells V)
      → Timed at calls now
      → Shows default at m f
      → Shows default now (run calls m) (cell_run default calls f)
  unfolding run
  run-Shows default at now [] m f le s = record {
    same = λ later j le'. s.same later j (omega arith);
    apart = s.apart;
    ttl = s.ttl;
  }
  run-Shows default at now ((t, call) ∷ calls) m f timed s =
      run-Shows default t now calls (step t call m) (cell_step default t call f) timed.1
        (step-Shows default at t call m f timed.0 s)

  abbrev pub empty_store : Option ℤ → ContextStore V
  empty_store default = record { default_ttl_seconds = default; values = []; expires_at = [] }

  -- The store refines cells that each hold a value and its expiry: after any calls on an empty store at times
  -- that never fall, a read and a snapshot at the last of these times or later find under a key the value that
  -- the same calls leave in the cell of the key, and nothing when its time is up or it has none.
  pub run-shows :
      (default : Option ℤ) (calls : List (ℕ × ContextCall V)) (now : ℕ) (k : String)
      → Timed 0 calls now
      → ((get now k (run calls (empty_store default))).0
          ≡ shown now (cell_run default calls (λ j. none) k))
        × (lookup k (snapshot now (run calls (empty_store default))).0
            ≡ shown now (cell_run default calls (λ j. none) k))
  unfolding get snapshot
  run-shows default calls now k timed =
      let s =
        run-Shows default 0 now calls (empty_store default) (λ j. none) timed
          (record { same = λ later j le. refl; apart = tt; ttl = refl }) in
      let e =
        sweep-values now k (run calls (empty_store default)) s.apart ∙ s.same now k (omega arith) in
      (e, e)
