-- ===== src/Responsibility/Kernel/Capacity.antt =====
-- A reservation that is accepted fits into what its pool has left.
use portable_runtime.Base.{ℕ, ◌+◌, ◌≤◌, ◌≡◌, ◌⊎◌, not, All}
use portable_runtime.Base.Result
use portable_runtime.Base.Result.{Result, ok}
use portable_runtime.Responsibility.Models.{
  ResponsibilityObject, ResourceReservation, ResourcePool, WorkProposal, reservation,
}
use portable_runtime.Responsibility.Models.Resources.{quota_of, ResourceVector, fits_within}
use portable_runtime.Journal.{Store, Env, M, reads, raise_if, ◌>>=◌, ◌>>◌}
use portable_runtime.Responsibility.Kernel.Objects.{save_append_only}
use portable_runtime.Responsibility.Kernel.History.{as_pool, as_proposal, get_as}
use portable_runtime.Responsibility.Kernel.Resources.{used_resources, available_resources}
use portable_runtime.Journal.Errors.{reservation_overcommits}

-- Nothing is asked for, or it fits beside what is used.
abbrev pub Room : ℕ → ℕ → ℕ → Type 0
Room capacity used asked = (asked ≡ 0) ⊎ (used + asked ≤ capacity)

-- Every amount that is asked for fits beside what is used of the capacity.
pub record HasRoom (capacity used asked : ResourceVector) : Type 0 where
  pub compute : Room capacity.compute_units used.compute_units asked.compute_units
  pub calls : Room capacity.api_calls used.api_calls asked.api_calls
  pub money : Room capacity.money_minor used.money_minor asked.money_minor
  pub attention :
      Room capacity.human_attention_units used.human_attention_units asked.human_attention_units
  pub slots : Room capacity.concurrency_slots used.concurrency_slots asked.concurrency_slots
  pub domain :
      All
        (λ e. Room (quota_of e.0 capacity.domain_quota) (quota_of e.0 used.domain_quota) e.1)
        asked.domain_quota

-- What a reservation that is accepted rests on.
pub record IsCovered (env : Env) (r : ResourceReservation) (now : ℕ) (s : Store) : Type 0 where
  pub proposal : WorkProposal
  pub pool : ResourcePool
  pub proposal_found : get_as env as_proposal r.proposal_ref s ≡ ok proposal
  pub pool_found : get_as env as_pool r.resource_pool_ref s ≡ ok pool
  pub owner : proposal.responsibility_ref ≡ r.responsibility_ref
  pub exact : proposal.requested_resources ≡ r.resources
  pub room : HasRoom pool.capacity (used_resources pool.id now s) r.resources

module _ (env : Env) (now : ℕ) (s : Store) where
  abbrev guard : ResourceReservation → ResourceVector → M ResponsibilityObject
  guard r available =
      raise_if (not (fits_within r.resources available)) reservation_overcommits
      >> save_append_only env (reservation r)

  abbrev guarded : ResourceReservation → M ResponsibilityObject
  guarded r = reads (available_resources env r.resource_pool_ref now) >>= guard r
