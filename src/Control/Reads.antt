-- ===== src/Control/Reads.antt =====
-- The loop over the parents of a control, in `InMemoryCancellationStore.read` of
-- src/blackbase/resources/control.py.
use blackbase.Prelude.{
  ℕ, zero, suc, ◌+◌, ◌≤◌, ◌<◌, ◌≡◌, ◌≢◌, refl, sym, subst, inl, inr, true, false, String, List, [],
  ◌∷◌, Option, none, some, ltb, str_eq_iff, contains, length, All, lookup, Bool-cases, ok, err,
  arith,
}
use blackbase.Control.{
  CancellationState, CancellationRef, ControlStore, or_idle, or_root, read_from, read,
  out_of_rounds,
}

read_from-ends :
    (n : ℕ) (visited : List String) (k : Option String) (m : ControlStore)
    → length visited ≤ 257
    → 258 ≤ n + length visited
    → read_from n visited k m ≢ err out_of_rounds
read_from-ends zero visited k m deep rounds = absurd (omega arith)
read_from-ends (suc n) visited none m deep rounds = λ e. cc
read_from-ends (suc n) visited (some k) m deep rounds = elim (Bool-cases (contains k visited)) [
  | inl again ↦ rw again (λ e. cc)
  | inr new ↦ elim (Bool-cases (ltb 257 (suc (length visited)))) [
    | inl many ↦ rw (new, many) (λ e. cc)
    | inr few ↦ elim (Bool-cases (or_idle (lookup k m.states)).requested) [
      | inl hit ↦ rw (new, few, hit) (λ e. cc)
      | inr miss ↦
          rw (new, few, miss)
            (read_from-ends n (k ∷ visited) (or_root (lookup k m.parents)) m (ground arith)
              (omega arith))
    ]
  ]
]

-- A read always comes to an end within its rounds, whatever the parents in the store, a cycle included: the
-- ids that it has visited and the bound on the depth stop the loop.
pub read-ends : (ref : CancellationRef) (m : ControlStore) → read ref m ≢ err out_of_rounds
unfolding read
read-ends ref m = read_from-ends 258 [] (some ref.control_id) m (omega arith) (omega arith)

-- The parents from one control to another, the second included.
abbrev pub Leads : ControlStore → String → List String → String → Type 0
Leads m k [] a = k ≡ a
Leads m k (p ∷ ps) a = (lookup k m.parents ≡ some (some p)) × Leads m p ps a

-- No id twice.
abbrev pub Apart : List String → Type 0
Apart [] = Unit
Apart (k ∷ ks) = (contains k ks ≡ false) × Apart ks

abbrev pub Requested : ControlStore → String → Type 0
Requested m a = (s : CancellationState) × (lookup a m.states ≡ some s) × (s.requested ≡ true)

abbrev Unvisited : List String → List String → Type 0
Unvisited visited ks = All (λ k. contains k visited ≡ false) ks

Unvisited-cons :
    (k : String) (visited ks : List String)
    → contains k ks ≡ false
    → Unvisited visited ks
    → Unvisited (k ∷ visited) ks
Unvisited-cons k visited [] c u = tt
Unvisited-cons k visited (j ∷ ks) c u = (
  let v = u.0 in ground (arith, str_eq_iff j k, str_eq_iff k j),
  Unvisited-cons k visited ks (ground (arith, c)) u.1,
)

read_from-Requested :
    (n : ℕ) (visited : List String) (k : String) (ps : List String) (a : String) (m : ControlStore)
    → Leads m k ps a
    → Requested m a
    → Apart (k ∷ ps)
    → Unvisited visited (k ∷ ps)
    → length visited + length ps ≤ 256
    → length ps < n
    → (s : CancellationState) × (read_from n visited (some k) m ≡ ok s) × (s.requested ≡ true)
read_from-Requested zero visited k ps a m l q d u deep rounds = absurd (omega arith)
read_from-Requested (suc n) visited k [] a m l (s, at, hit) d u deep rounds =
    let few : ltb 257 (suc (length visited)) ≡ false = ground arith in
    let at' : lookup k m.states ≡ some s = subst (λ j. lookup j m.states ≡ some s) (sym l) at in
    (s, rw (u.0, few, at', hit) refl, hit)
read_from-Requested (suc n) visited k (p ∷ ps) a m l q d u deep rounds =
    let few : ltb 257 (suc (length visited)) ≡ false = ground arith in
    elim (Bool-cases (or_idle (lookup k m.states)).requested) [
      | inl hit ↦ (or_idle (lookup k m.states), rw (u.0, few, hit) refl, hit)
      | inr miss ↦
          let (s, e, hit) =
            read_from-Requested n (k ∷ visited) p ps a m l.1 q d.1
              (Unvisited-cons k visited (p ∷ ps) d.0 u.1) (omega arith) (omega arith) in
          (s, rw (u.0, few, miss, l.0) e, hit)
    ]

Unvisited-none : (ks : List String) → Unvisited [] ks
Unvisited-none [] = tt
Unvisited-none (k ∷ ks) = (refl, Unvisited-none ks)

-- A read at most 256 parents below a control whose cancellation is requested finds a request.
pub read-Requested :
    (ref : CancellationRef) (ps : List String) (a : String) (m : ControlStore)
    → Leads m ref.control_id ps a
    → Requested m a
    → Apart (ref.control_id ∷ ps)
    → length ps ≤ 256
    → (s : CancellationState) × (read ref m ≡ ok s) × (s.requested ≡ true)
unfolding read
read-Requested ref ps a m l q d deep =
    read_from-Requested 258 [] ref.control_id ps a m l q d (Unvisited-none (ref.control_id ∷ ps))
      (omega arith) (omega arith)
