-- ===== src/Lease/Generation.antt =====
-- Fencing generations only grow, and a token of an earlier generation is refused.
use portable_runtime.Base.{
  ℕ, suc, ◌≤◌, ◌<◌, String, ◌≡◌, true, false, Option, none, some, ◌≢◌, arith, eq_iff, eq_refl,
}
use portable_runtime.Lease.{
  Lease, Run, Store, held_generation, next_generation, acquire_lease, renew_lease, release_lease,
}
use portable_runtime.Lease.Fencing.{Request, validate_fencing, generation_mismatch}

-- The generation of a run that the store holds, 0 without one.
abbrev pub run_generation : Option Run → ℕ
run_generation none = 0
run_generation (some run) = run.lease_generation

next_generation_grows :
    (l : Option Lease) (r : Option Run)
    → (held_generation l < next_generation l r) × (run_generation r < next_generation l r)
unfolding next_generation
next_generation_grows l none = ground arith
next_generation_grows l (some run) = ground arith

-- A lease that is acquired carries a generation above that of the lease and of the run before.
pub acquire_grows :
    (id owner : String) (ttl now wall : ℕ) (s : Store)
    → (acquire_lease id owner ttl now wall s).0 ≡ true
    → let s' = (acquire_lease id owner ttl now wall s).1 in
      (held_generation (s.leases id) < held_generation (s'.leases id))
      × (run_generation (s.runs id) < held_generation (s'.leases id))
unfolding acquire_lease
acquire_grows id owner ttl now wall s h =
    ground (arith, next_generation_grows (s.leases id) (s.runs id), eq_refl id)

-- One lease operation, by any owner, on any run, at any instants.
pub data Step (s : Store) : Store → Type 0 where
  acquire :
      (id owner : String) (ttl now wall : ℕ) → Step s (acquire_lease id owner ttl now wall s).1
  renew : (id owner : String) (ttl now wall : ℕ) → Step s (renew_lease id owner ttl now wall s).1
  release : (id owner : String) → Step s (release_lease id owner s).1

pub data Reach (s : Store) : Store → Type 0 where
  here : Reach s s
  next : {t u : Store} → Reach s t → Step t u → Reach s u

-- The store holds the run, at the generation `g` or a later one.
abbrev pub ReachesGeneration : ℕ → Option Run → Type 0
ReachesGeneration g none = ⊥
ReachesGeneration g (some run) = g ≤ run.lease_generation

module _ (id : String) (g : ℕ) where
  acquire_keeps :
      (k owner : String) (ttl now wall : ℕ) (s : Store)
      → ReachesGeneration g (s.runs id)
      → ReachesGeneration g ((acquire_lease k owner ttl now wall s).1.runs id)
  unfolding acquire_lease
  acquire_keeps k owner ttl now wall s h =
      grind (arith, next_generation_grows (s.leases k) (s.runs k), eq_iff k id)

  renew_keeps :
      (k owner : String) (ttl now wall : ℕ) (s : Store)
      → ReachesGeneration g (s.runs id)
      → ReachesGeneration g ((renew_lease k owner ttl now wall s).1.runs id)
  unfolding renew_lease
  renew_keeps k owner ttl now wall s h = grind (arith, eq_iff k id)

  release_keeps :
      (k owner : String) (s : Store)
      → ReachesGeneration g (s.runs id)
      → ReachesGeneration g ((release_lease k owner s).1.runs id)
  unfolding release_lease
  release_keeps k owner s h = grind (arith, eq_iff k id)

  Step-keeps :
      {s t : Store} → Step s t → ReachesGeneration g (s.runs id) → ReachesGeneration g (t.runs id)
  Step-keeps {s} (acquire k owner ttl now wall) h = acquire_keeps k owner ttl now wall s h
  Step-keeps {s} (renew k owner ttl now wall) h = renew_keeps k owner ttl now wall s h
  Step-keeps {s} (release k owner) h = release_keeps k owner s h

  pub Reach-keeps :
      {s t : Store} → Reach s t → ReachesGeneration g (s.runs id) → ReachesGeneration g (t.runs id)
  Reach-keeps here h = h
  Reach-keeps (next r st) h = Step-keeps st (Reach-keeps r h)

acquired_generation :
    (id owner : String) (ttl now wall : ℕ) (s : Store) (run : Run)
    → s.runs id ≡ some run
    → (acquire_lease id owner ttl now wall s).0 ≡ true
    → ReachesGeneration
        (suc run.lease_generation)
        ((acquire_lease id owner ttl now wall s).1.runs id)
unfolding acquire_lease
acquired_generation id owner ttl now wall s run e h =
    grind (arith, next_generation_grows (s.leases id) (s.runs id), eq_refl id)

old_token :
    (request : Request) (stored : Option Run) (g now : ℕ)
    → request.run_id ≢ none
    → request.lease_generation ≤ g
    → ReachesGeneration (suc g) stored
    → validate_fencing request stored now ≡ (false, generation_mismatch)
unfolding validate_fencing
old_token request none g now n le h = absurd h
old_token request (some run) g now n le h = ground arith

-- Once a stored run has been leased anew, a request that carries a generation which the run had
-- before, or an earlier one, is refused for that, by whatever lease operations on whatever runs follow,
-- at any instant.
pub stale_token_refused :
    (id owner : String) (ttl now wall : ℕ) (s t : Store) (run : Run) (request : Request) (later : ℕ)
    → s.runs id ≡ some run
    → (acquire_lease id owner ttl now wall s).0 ≡ true
    → Reach (acquire_lease id owner ttl now wall s).1 t
    → request.run_id ≢ none
    → request.lease_generation ≤ run.lease_generation
    → validate_fencing request (t.runs id) later ≡ (false, generation_mismatch)
stale_token_refused id owner ttl now wall s t run request later stored won reach names old =
    old_token request (t.runs id) run.lease_generation later names old (
      Reach-keeps id (suc run.lease_generation) reach
        (acquired_generation id owner ttl now wall s run stored won))
