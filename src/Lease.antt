-- ===== src/Lease.antt =====
-- The leases of stores/memory.py, and the lease fields of the `Run` that they guard. Both instants of
-- an operation, that of `time.monotonic()` and that of `datetime.now()`, are arguments.
pub mod Fencing
pub mod Generation
pub mod Holder
pub mod Agreement
mod Tests
use portable_runtime.Base.{
  ℕ, ◌+◌, max, String, Bool, true, false, not, ◌&&◌, Option, none, some, ◌==◌, opt_eq, eqb, ltb,
  leb, if◌then◌else◌,
}
use portable_runtime.Base.Dict.{Dict, put, remove}

pub record Lease : Type 0 where
  pub owner : String
  pub expires_at : ℕ
  pub generation : ℕ

-- The lease fields of core/models.py's `Run`.
pub record Run : Type 0 where
  pub id : String
  pub lease_owner : Option String
  pub lease_generation : ℕ
  pub lease_expires_at : Option ℕ
  pub heartbeat_at : Option ℕ

pub record Store : Type 0 where
  pub leases : Dict Lease
  pub runs : Dict Run

-- The generation of the lease that is there, 0 without one.
abbrev pub held_generation : Option Lease → ℕ
held_generation none = 0
held_generation (some l) = l.generation

-- The generation that `acquire_lease` computes from the lease and the run that it finds.
unfoldable pub next_generation : Option Lease → Option Run → ℕ
next_generation existing none = held_generation existing + 1
next_generation existing (some run) =
    if not (eqb run.lease_generation 0) && not (eqb run.lease_generation (held_generation existing))
    then max (held_generation existing + 1) (run.lease_generation + 1)
    else held_generation existing + 1

-- `existing and existing["expires_at"] > now and existing["owner"] != owner`
abbrev pub is_held_by_other : Option Lease → String → ℕ → Bool
is_held_by_other none owner now = false
is_held_by_other (some l) owner now = ltb now l.expires_at && not (l.owner == owner)

abbrev pub leased_run : Run → String → ℕ → ℕ → Run
leased_run run owner generation until = record run {
  lease_owner = some owner;
  lease_generation = generation;
  lease_expires_at = some until;
  heartbeat_at = some until;
}

abbrev pub write_run : String → Option Run → (Run → Run) → Dict Run → Dict Run
write_run run_id none f runs = runs
write_run run_id (some run) f runs = put run_id (f run) runs

unfoldable pub acquire_lease : String → String → ℕ → ℕ → ℕ → Store → Bool × Store
unfolding next_generation
acquire_lease run_id owner ttl now wall s =
    let existing = s.leases run_id in
    let generation = next_generation existing (s.runs run_id) in
    if is_held_by_other existing owner now then (false, s) else (
      true,
      record {
        leases =
            put run_id (record { owner = owner; expires_at = now + ttl; generation = generation })
              s.leases;
        runs =
            write_run run_id (s.runs run_id) (λ run. leased_run run owner generation (wall + ttl))
              s.runs;
      },
    )

-- The expiry of the lease is written before the owner of the run is looked at.
abbrev pub renew_run : String → String → ℕ → Option Run → Store → Bool × Store
renew_run run_id owner until none s = (true, s)
renew_run run_id owner until (some run) s =
    if not (opt_eq run.lease_owner (some owner)) then (false, s) else (
      true,
      record s {
        runs =
            put run_id (record run { lease_expires_at = some until; heartbeat_at = some until })
              s.runs;
      },
    )

abbrev pub renew_held : String → String → ℕ → ℕ → ℕ → Option Lease → Store → Bool × Store
renew_held run_id owner ttl now wall none s = (false, s)
renew_held run_id owner ttl now wall (some l) s =
    if not (l.owner == owner)
    then (false, s)
    else if leb l.expires_at now
    then (false, s)
    else renew_run run_id owner (wall + ttl) (s.runs run_id)
        (record s { leases = put run_id (record l { expires_at = now + ttl }) s.leases })

unfoldable pub renew_lease : String → String → ℕ → ℕ → ℕ → Store → Bool × Store
renew_lease run_id owner ttl now wall s = renew_held run_id owner ttl now wall (s.leases run_id) s

abbrev pub release_run : String → String → Option Run → Dict Run → Dict Run
release_run run_id owner none runs = runs
release_run run_id owner (some run) runs =
    if opt_eq run.lease_owner (some owner)
    then put run_id (record run { lease_owner = none }) runs
    else runs

abbrev pub release_held : String → String → Option Lease → Store → Bool × Store
release_held run_id owner none s = (false, s)
release_held run_id owner (some l) s = if not (l.owner == owner) then (false, s) else (
  true,
  record {
    leases = remove run_id s.leases;
    runs = release_run run_id owner (s.runs run_id) s.runs;
  },
)

unfoldable pub release_lease : String → String → Store → Bool × Store
release_lease run_id owner s = release_held run_id owner (s.leases run_id) s
