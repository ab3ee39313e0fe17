-- ===== src/Control/Lineage.antt =====
-- A request for cancellation and the controls below it, over runs of the operations of
-- `InMemoryCancellationStore` and `CancellationToken` of src/blackbase/resources/control.py.
use blackbase.Prelude.{
  ℕ, ◌≤◌, ◌≡◌, refl, sym, ◌∙◌, subst, inl, inr, true, false, String, List, [], ◌∷◌, none, some,
  str_eq, str_eq_iff, contains, length, All, Dict, lookup, insert, erase, lookup-insert,
  lookup-erase, Bool-cases, Option-cases, ok, returns, value_or, arith,
}
use blackbase.Control.{
  CancellationState, CancellationRef, ControlStore, idle, or_idle, or_text, set_default,
  has_other_parent, create, read, request, touch, retire, checkpoint, is_past_deadline,
}
use blackbase.Control.Reads.{Leads, Apart, Requested, read-Requested}

pub data ControlCall : Type 0 where
  creates reads touches retires : CancellationRef → ControlCall
  requests : ℕ → CancellationRef → String → ControlCall
  checkpoints : ℕ → CancellationRef → ControlCall

-- The store after a call: one that raises leaves it as it was.
unfoldable pub step : ControlCall → ControlStore → ControlStore
unfolding create read request touch retire checkpoint
step (creates ref) m = value_or m (create ref m)
step (reads ref) m = m
step (touches ref) m = m
step (retires ref) m = retire ref m
step (requests now ref reason) m = (request now ref reason m).1
step (checkpoints now ref) m = (checkpoint now ref m).1

unfoldable pub run : List ControlCall → ControlStore → ControlStore
unfolding step
run [] m = m
run (call ∷ calls) m = run calls (step call m)

-- A call that retires none of some controls.
abbrev pub Spares : List String → ControlCall → Type 0
Spares ks (retires ref) = contains ref.control_id ks ≡ false
Spares ks (creates ref) = Unit
Spares ks (reads ref) = Unit
Spares ks (touches ref) = Unit
Spares ks (requests now ref reason) = Unit
Spares ks (checkpoints now ref) = Unit

-- Every entry of one dict is in another.
abbrev Extends : {V : Type 0} → Dict V → Dict V → Type 0
Extends d e = (k : String) (v : _) → lookup k d ≡ some v → lookup k e ≡ some v

set_default-Extends : {V : Type 0} (k : String) (w : V) (d : Dict V) → Extends d (set_default k w d)
set_default-Extends k w d j v h = elim (Option-cases (lookup k d)) [
  | inr (u, here) ↦ rw (here, set_default) h
  | inl absent ↦ elim (Bool-cases (str_eq k j)) [
    | inl hit ↦
        let e = (str_eq_iff k j).0 hit in
        let absent' : lookup j d ≡ none = subst (λ i. lookup i d ≡ none) e absent in cc
    | inr miss ↦ rw (absent, set_default) (rw (lookup-insert k j w d, miss) h)
  ]
]

Leads-Extends :
    (m n : ControlStore) (k : String) (ps : List String) (a : String)
    → Extends m.parents n.parents
    → Leads m k ps a
    → Leads n k ps a
Leads-Extends m n k [] a e l = l
Leads-Extends m n k (p ∷ ps) a e l = (e k (some p) l.0, Leads-Extends m n p ps a e l.1)

-- What lasts from a request on.
abbrev Observed : ControlStore → String → List String → String → Type 0
Observed m k ps a = Leads m k ps a × Requested m a

create-Observed :
    (ref : CancellationRef) (m : ControlStore) (k : String) (ps : List String) (a : String)
    → Observed m k ps a
    → Observed (value_or m (create ref m)) k ps a
unfolding create
create-Observed ref m k ps a (l, (s, at, hit)) =
    elim (Bool-cases (has_other_parent ref (lookup ref.control_id m.parents))) [
      | inl other ↦ rw other (l, (s, at, hit))
      | inr same ↦ rw same (
        Leads-Extends m made k ps a
            (set_default-Extends ref.control_id ref.parent_control_id m.parents) l,
        (s, set_default-Extends ref.control_id idle m.states a s at, hit),
      )
    ]
  where
    made : ControlStore
    made = record {
      states = set_default ref.control_id idle m.states;
      parents = set_default ref.control_id ref.parent_control_id m.parents;
    }

-- A request leaves the parents alone, and its control requested.
request-parents :
    (now : ℕ) (ref : CancellationRef) (reason : String) (m : ControlStore)
    → (request now ref reason m).1.parents ≡ m.parents
unfolding request
request-parents now ref reason m =
    elim (Bool-cases (or_idle (lookup ref.control_id m.states)).requested) [
      | inl before ↦ rw before refl
      | inr new ↦ rw new refl
    ]

requested-lookup :
    (k : String) (m : ControlStore) → (or_idle (lookup k m.states)).requested ≡ true → Requested m k
requested-lookup k m h = elim (Option-cases (lookup k m.states)) [
  | inl absent ↦
      let e : (or_idle none).requested ≡ true =
        subst (λ o. (or_idle o).requested ≡ true) absent h in
      cc
  | inr (s, here) ↦ (s, here, subst (λ o. (or_idle o).requested ≡ true) here h)
]

pub request-Requested :
    (now : ℕ) (ref : CancellationRef) (reason : String) (m : ControlStore)
    → Requested (request now ref reason m).1 ref.control_id
unfolding request
request-Requested now ref reason m =
    elim (Bool-cases (or_idle (lookup ref.control_id m.states)).requested) [
      | inl before ↦ rw before (requested-lookup ref.control_id m before)
      | inr new ↦ rw new (state, lookup_same ref.control_id state m.states, refl)
    ]
  where
    state : CancellationState
    state = record { requested = true; reason = or_text reason "cancelled"; requested_at = now }

    lookup_same :
        (k : String) (s : CancellationState) (d : Dict CancellationState)
        → lookup k (insert k s d) ≡ some s
    lookup_same k s d =
        let e : str_eq k k ≡ true = (str_eq_iff k k).1 refl in rw (lookup-insert k k s d, e) refl

request-keeps :
    (now : ℕ) (ref : CancellationRef) (reason : String) (m : ControlStore) (a : String)
    → Requested m a
    → Requested (request now ref reason m).1 a
unfolding request
request-keeps now ref reason m a (s, at, hit) = elim (Bool-cases (str_eq ref.control_id a)) [
  | inl same ↦
      subst (λ k. Requested (request now ref reason m).1 k) ((str_eq_iff ref.control_id a).0 same)
        (request-Requested now ref reason m)
  | inr other ↦ (s, untouched other, hit)
]
  where
    untouched :
        str_eq ref.control_id a ≡ false → lookup a (request now ref reason m).1.states ≡ some s
    untouched other = elim (Bool-cases (or_idle (lookup ref.control_id m.states)).requested) [
      | inl before ↦ rw (before, request) at
      | inr new ↦
          rw (new, request)
            (rw
              (
                lookup-insert ref.control_id a
                    (record {
                      requested = true;
                      reason = or_text reason "cancelled";
                      requested_at = now;
                    })
                    m.states,
                other,
              )
              at)
    ]

request-Observed :
    (now : ℕ) (ref : CancellationRef) (reason : String) (m : ControlStore) (k : String)
    (ps : List String) (a : String)
    → Observed m k ps a
    → Observed (request now ref reason m).1 k ps a
request-Observed now ref reason m k ps a (l, q) = (
  Leads-Extends m (request now ref reason m).1 k ps a
      (λ j v h. subst (λ d. lookup j d ≡ some v) (sym (request-parents now ref reason m)) h) l,
  request-keeps now ref reason m a q,
)

lookup-erase_other :
    {V : Type 0} (k j : String) (d : Dict V)
    → str_eq k j ≡ false
    → lookup j (erase k d) ≡ lookup j d
lookup-erase_other k j d h = rw (lookup-erase k j d, h) refl

str_eq_sym : (a b : String) → str_eq a b ≡ false → str_eq b a ≡ false
str_eq_sym a b h = ground (arith, str_eq_iff a b, str_eq_iff b a)

retire-Observed :
    (ref : CancellationRef) (m : ControlStore) (k : String) (ps : List String) (a : String)
    → contains ref.control_id (k ∷ ps) ≡ false
    → Observed m k ps a
    → Observed (retire ref m) k ps a
unfolding retire
retire-Observed ref m k ps a c (l, (s, at, hit)) =
    (path k ps c l, (s, lookup-erase_other ref.control_id a m.states (last k ps c l) ∙ at, hit))
  where
    path :
        (k : String) (ps : List String)
        → contains ref.control_id (k ∷ ps) ≡ false
        → Leads m k ps a
        → Leads (retire ref m) k ps a
    path k [] c l = l
    path k (p ∷ ps) c l =
        let miss : str_eq ref.control_id k ≡ false = str_eq_sym k ref.control_id (ground arith) in
        (lookup-erase_other ref.control_id k m.parents miss ∙ l.0, path p ps (ground arith) l.1)

    last :
        (k : String) (ps : List String)
        → contains ref.control_id (k ∷ ps) ≡ false
        → Leads m k ps a
        → str_eq ref.control_id a ≡ false
    last k [] c l =
        let miss : str_eq k ref.control_id ≡ false = ground arith in
        str_eq_sym a ref.control_id (subst (λ j. str_eq j ref.control_id ≡ false) l miss)
    last k (p ∷ ps) c l = last p ps (ground arith) l.1

checkpoint-Observed :
    (now : ℕ) (ref : CancellationRef) (m : ControlStore) (k : String) (ps : List String)
    (a : String)
    → Observed m k ps a
    → Observed (checkpoint now ref m).1 k ps a
unfolding checkpoint
checkpoint-Observed now ref m k ps a o = elim (Bool-cases (is_past_deadline now ref)) [
  | inl past ↦ rw past (request-Observed now ref "case deadline exceeded" m k ps a o)
  | inr before ↦ rw before o
]

step-Observed :
    (call : ControlCall) (m : ControlStore) (k : String) (ps : List String) (a : String)
    → Spares (k ∷ ps) call
    → Observed m k ps a
    → Observed (step call m) k ps a
unfolding step
step-Observed (creates ref) m k ps a s o = create-Observed ref m k ps a o
step-Observed (reads ref) m k ps a s o = o
step-Observed (touches ref) m k ps a s o = o
step-Observed (retires ref) m k ps a s o = retire-Observed ref m k ps a s o
step-Observed (requests now ref reason) m k ps a s o = request-Observed now ref reason m k ps a o
step-Observed (checkpoints now ref) m k ps a s o = checkpoint-Observed now ref m k ps a o

run-Observed :
    (calls : List ControlCall) (m : ControlStore) (k : String) (ps : List String) (a : String)
    → All (Spares (k ∷ ps)) calls
    → Observed m k ps a
    → Observed (run calls m) k ps a
unfolding run
run-Observed [] m k ps a s o = o
run-Observed (call ∷ calls) m k ps a s o =
    run-Observed calls (step call m) k ps a s.1 (step-Observed call m k ps a s.0 o)

checkpoint-raises :
    (now : ℕ) (ref : CancellationRef) (m : ControlStore) (s : CancellationState)
    → read ref m ≡ ok s
    → s.requested ≡ true
    → returns (checkpoint now ref m).0 ≡ false
unfolding checkpoint
checkpoint-raises now ref m s e hit = elim (Bool-cases (is_past_deadline now ref)) [
  | inl past ↦ rw past refl
  | inr before ↦ rw (before, e, hit) refl
]

-- Let a control be at most 256 parents below another, none of those on the way twice, and let cancellation of the
-- other be requested. After any calls that retire none of the controls on the way, a read at the control
-- below finds a request, and a checkpoint there raises.
pub request-reaches :
    (now later : ℕ) (ref child : CancellationRef) (reason : String) (ps : List String)
    (calls : List ControlCall) (m : ControlStore)
    → Leads m child.control_id ps ref.control_id
    → Apart (child.control_id ∷ ps)
    → length ps ≤ 256
    → All (Spares (child.control_id ∷ ps)) calls
    → ((s : CancellationState) × (read child (run calls (request now ref reason m).1) ≡ ok s)
        × (s.requested ≡ true))
      × (returns (checkpoint later child (run calls (request now ref reason m).1)).0 ≡ false)
request-reaches now later ref child reason ps calls m l d deep spared =
    let led =
      Leads-Extends m (request now ref reason m).1 child.control_id ps ref.control_id
        (λ j v h. subst (λ t. lookup j t ≡ some v) (sym (request-parents now ref reason m)) h) l in
    let (l', q) =
      run-Observed calls (request now ref reason m).1 child.control_id ps ref.control_id spared
        (led, request-Requested now ref reason m) in
    let (s, e, hit) =
      read-Requested child ps ref.control_id (run calls (request now ref reason m).1) l' q d deep in
    ((s, e, hit), checkpoint-raises later child (run calls (request now ref reason m).1) s e hit)
