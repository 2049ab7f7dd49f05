-- ===== src/Lease/Holder.antt =====
-- What a lease gives its holder, and what it keeps from others.
use portable_runtime.Base.{
  ℕ, ◌+◌, ◌≤◌, ◌<◌, refl, ◌⊎◌, String, ◌≡◌, ltb, true, false, Option, none, some, ◌≢◌, arith,
  eq_iff, eq_refl,
}
use portable_runtime.Lease.{
  Lease, Run, Store, is_held_by_other, next_generation, leased_run, acquire_lease, renew_lease,
  release_lease,
}
use portable_runtime.Lease.Fencing.{Request, validate_fencing}

-- While a lease runs, an owner other than its holder can neither acquire, renew nor release it, and
-- the attempt changes nothing.
pub others_excluded :
    (id owner : String) (l : Lease) (ttl now wall : ℕ) (s : Store)
    → s.leases id ≡ some l
    → now < l.expires_at
    → l.owner ≢ owner
    → (acquire_lease id owner ttl now wall s ≡ (false, s))
      × (renew_lease id owner ttl now wall s ≡ (false, s))
      × (release_lease id owner s ≡ (false, s))
unfolding acquire_lease renew_lease release_lease
others_excluded id owner l ttl now wall s e live ne = ground (arith, eq_iff l.owner owner)

-- No other owner holds a lease that still runs.
abbrev pub IsFreeFor : String → ℕ → Option Lease → Type 0
IsFreeFor owner now none = Unit
IsFreeFor owner now (some l) = (l.owner ≡ owner) ⊎ (l.expires_at ≤ now)

free_not_held :
    (l : Option Lease) (owner : String) (now : ℕ)
    → IsFreeFor owner now l
    → is_held_by_other l owner now ≡ false
free_not_held none owner now h = refl
free_not_held (some l) owner now h = ground (arith, eq_iff l.owner owner)

fresh_run_passes :
    (run : Run) (owner : String) (g until later : ℕ) (request : Request)
    → owner ≢ ""
    → request.run_id ≢ none
    → request.lease_owner ≡ some owner
    → request.lease_generation ≡ g
    → (validate_fencing request (some (leased_run run owner g until)) later).0 ≡ ltb later until
unfolding validate_fencing
fresh_run_passes run owner g until later request named names mine gen =
    ground (arith, eq_iff owner "", eq_refl owner)

-- An owner can acquire a lease that is free, that has expired or that is its own. On a stored run its
-- requests, with the generation that the run then carries, pass the fencing until the lease expires,
-- and from then on they do not.
pub holder_passes_until_expiry :
    (id owner : String) (ttl now wall later : ℕ) (s : Store) (run : Run) (request : Request)
    → IsFreeFor owner now (s.leases id)
    → s.runs id ≡ some run
    → owner ≢ ""
    → request.run_id ≢ none
    → request.lease_owner ≡ some owner
    → request.lease_generation ≡ next_generation (s.leases id) (some run)
    → let (won, t) = acquire_lease id owner ttl now wall s in
      (won ≡ true) × ((validate_fencing request (t.runs id) later).0 ≡ ltb later (wall + ttl))
unfolding acquire_lease
holder_passes_until_expiry id owner ttl now wall later s run request free stored named names mine
      gen =
    rw (free_not_held (s.leases id) owner now free, stored, eq_refl id)
      (refl, fresh_run_passes run owner _ (wall + ttl) later request named names mine gen)
