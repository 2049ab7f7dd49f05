-- ===== src/Lease/Tests.antt =====
-- The theorems on leases at a concrete store.
use portable_runtime.Base.{
  ◌+◌, ◌≡◌, refl, true, false, none, some, arith, inr, ltb, if◌then◌else◌, ◌==◌,
}
use portable_runtime.Lease.{
  Lease, Run, Store, next_generation, acquire_lease, renew_lease, release_lease,
}
use portable_runtime.Lease.Fencing.{Request, validate_fencing, generation_mismatch}
use portable_runtime.Lease.Generation.{renew, here, next, stale_token_refused}
use portable_runtime.Lease.Holder.{others_excluded, holder_passes_until_expiry}
use portable_runtime.Lease.Agreement.{failed_renew_extends}

-- The first owner's lease runs until 50.
abbrev lease : Lease
lease = record { owner = "alice"; expires_at = 50; generation = 3 }

abbrev run : Run
run = record {
  id = "run_1";
  lease_owner = some "alice";
  lease_generation = 3;
  lease_expires_at = some 50;
  heartbeat_at = some 50;
}

abbrev store : Store
store = record {
  leases = λ id. if "run_1" == id then some lease else none;
  runs = λ id. if "run_1" == id then some run else none;
}

abbrev request : Request
request = record {
  run_id = some "run_1";
  lease_generation = 3;
  lease_owner = some "alice";
  metadata_owner = none;
}

-- The second owner takes the run over at 60, when the lease has expired.
abbrev taken_over : Store
taken_over = (acquire_lease "run_1" "bob" 30 60 60 store).1

take_over_succeeds : (acquire_lease "run_1" "bob" 30 60 60 store).0 ≡ true
unfolding acquire_lease next_generation
take_over_succeeds = refl

stale_token_refused_example :
    validate_fencing request ((renew_lease "run_1" "bob" 30 70 70 taken_over).1.runs "run_1") 75
    ≡ (false, generation_mismatch)
stale_token_refused_example =
    stale_token_refused "run_1" "bob" 30 60 60 store
      (renew_lease "run_1" "bob" 30 70 70 taken_over).1 run request 75 refl take_over_succeeds
      (next here (renew "run_1" "bob" 30 70 70)) (λ e. cc e) (omega arith)

others_excluded_example :
    (acquire_lease "run_1" "bob" 30 40 40 store ≡ (false, store))
    × (renew_lease "run_1" "bob" 30 40 40 store ≡ (false, store))
    × (release_lease "run_1" "bob" store ≡ (false, store))
others_excluded_example =
    others_excluded "run_1" "bob" lease 30 40 40 store refl (omega arith) (λ e. cc e)

holder_passes_until_expiry_example :
    let (won, t) = acquire_lease "run_1" "bob" 30 60 60 store in
    (won ≡ true)
    × ((validate_fencing
          (record request { lease_generation = 4; lease_owner = some "bob" })
          (t.runs "run_1")
          80).0
        ≡ ltb 80 90)
holder_passes_until_expiry_example =
    holder_passes_until_expiry "run_1" "bob" 30 60 60 80 store run
      (record request { lease_generation = 4; lease_owner = some "bob" }) (inr (omega arith)) refl
      (λ e. cc e) (λ e. cc e) refl (unfold next_generation in refl)

-- The run names another owner than the lease.
abbrev torn : Store
torn = record store {
  runs = λ id. if "run_1" == id then some (record run { lease_owner = some "bob" }) else none;
}

failed_renew_extends_example :
    let (renewed, t) = renew_lease "run_1" "alice" 30 40 40 torn in
    (renewed ≡ false) × (t.leases "run_1" ≡ some (record lease { expires_at = 40 + 30 }))
failed_renew_extends_example =
    failed_renew_extends "run_1" "alice" 30 40 40 torn lease
      (record run { lease_owner = some "bob" }) refl refl refl (omega arith) (λ e. cc e)
