-- ===== src/Responsibility/Kernel/Resources.antt =====
-- responsibility/service.py: resource pools, reservations, releases and commitments.
use portable_runtime.Base.{
  ℕ, String, Bool, true, false, not, ◌&&◌, ◌||◌, Option, none, some, List, [], ◌∷◌, ◌==◌, keep,
  non_empty, eqb, leb, if◌then◌else◌,
}
use portable_runtime.Base.Text.{is_blank}
use portable_runtime.Base.Result
use portable_runtime.Base.Result.{Result, ok}
use portable_runtime.Responsibility.Models.{
  ResponsibilityObject, pool, portfolio, reservation, release, commitment, active, ResourcePool,
  PortfolioAdmissionDecision, ResourceReservation, ResourceReservationRelease, Commitment,
}
use portable_runtime.Responsibility.Models.Resources.{
  ResourceVector, no_resources, fits_within, plus, left_of,
}
use portable_runtime.Responsibility.Models.Equality.{ResourceVector-discrete}
use portable_runtime.Journal.{
  Store, Env, M, pure, raise, raise_if, reads, transaction, decided, ◌>>=◌, ◌>>◌,
}
use portable_runtime.Journal.Errors.{
  Error, pool_policy, portfolio_policy, portfolio_too_large, reservation_responsibility,
  reservation_resources, reservation_overcommits, release_responsibility, already_released,
  commitment_inactive, commitment_stale, commitment_responsibility, commitment_proposal_version,
  commitment_proposal_stale, commitment_assessment_stale, commitment_priority, commitment_portfolio,
  commitment_proposal, commitment_reservation, commitment_resources,
}
use portable_runtime.Responsibility.Kernel.Objects.{
  list_of, list_all, same_object, save_append_only,
}
use portable_runtime.Responsibility.Kernel.History.{
  pick, as_assessment, as_proposal, as_priority, as_pool, as_portfolio, as_reservation, as_release,
  same_status, get_as, current_definition, current_status,
}
use portable_runtime.Responsibility.Kernel.Operations.{is_over}

-- Equality of two resource vectors.
unfoldable pub same_resources : ResourceVector → ResourceVector → Bool
same_resources a b = decided (ResourceVector-discrete a b)

-- `expires_at is not None and expires_at <= now`
abbrev pub has_expired : Option ℕ → ℕ → Bool
has_expired none now = false
has_expired (some at) now = leb at now

abbrev pub releases_for : ResourceReservation → Store → List ResourceReservationRelease
releases_for r s =
    keep (λ x. x.reservation_ref == r.id) (pick as_release (list_of r.responsibility_ref s))

-- `_reservation_released`
unfoldable pub reservation_released : ResourceReservation → ℕ → Store → Bool
unfolding pick list_of
reservation_released r now s =
    if non_empty (releases_for r s) then true else has_expired r.expires_at now

-- The reservations that the loop of `available_resources` adds up.
abbrev pub counts : String → ℕ → Store → ResourceReservation → Bool
counts pool_id now s r = r.resource_pool_ref == pool_id && not (reservation_released r now s)

unfoldable pub sum_used : List ResourceReservation → ResourceVector → ResourceVector
sum_used [] used = used
sum_used (r ∷ rs) used = sum_used rs (plus used r.resources)

unfoldable pub used_resources : String → ℕ → Store → ResourceVector
unfolding sum_used pick list_all reservation_released
used_resources pool_id now s =
    sum_used (keep (counts pool_id now s) (pick as_reservation (list_all s))) no_resources

module _ (env : Env) where
  unfoldable pub create_resource_pool : ResourcePool → M ResponsibilityObject
  unfolding save_append_only is_blank
  create_resource_pool p = do
    raise_if (is_blank p.policy_ref) pool_policy
    save_append_only env (pool p)

  unfoldable pub record_portfolio_admission : PortfolioAdmissionDecision → M ResponsibilityObject
  unfolding get_as fits_within save_append_only
  record_portfolio_admission d = do
    p ← reads (get_as env as_proposal d.proposal_ref)
    q ← reads (get_as env as_pool d.resource_pool_ref)
    raise_if (not (d.policy_ref == q.policy_ref)) portfolio_policy
    raise_if (d.admitted && not (fits_within p.requested_resources q.capacity)) portfolio_too_large
    save_append_only env (portfolio d)

  unfoldable pub available_resources : String → ℕ → Store → Result Error ResourceVector
  unfolding get_as used_resources left_of
  available_resources pool_ref now s =
      Result.◌>>=◌ (get_as env as_pool pool_ref s)
        λ p. ok (left_of p.capacity (used_resources p.id now s))

  unfoldable pub reserve : ResourceReservation → ℕ → M ResponsibilityObject
  unfolding get_as same_resources transaction available_resources fits_within save_append_only
  reserve r now = do
    p ← reads (get_as env as_proposal r.proposal_ref)
    raise_if (not (p.responsibility_ref == r.responsibility_ref)) reservation_responsibility
    raise_if (not (same_resources p.requested_resources r.resources)) reservation_resources
    transaction (do
      available ← reads (available_resources r.resource_pool_ref now)
      raise_if (not (fits_within r.resources available)) reservation_overcommits
      save_append_only env (reservation r))

  abbrev pub released_beside :
      List ResourceReservationRelease → ResourceReservationRelease → M ResponsibilityObject
  released_beside [] x = save_append_only env (release x)
  released_beside (y ∷ []) x =
      if same_object (release y) (release x) then pure (release y) else raise already_released
  released_beside (_ ∷ _ ∷ _) x = raise already_released

  unfoldable pub release_reservation : ResourceReservationRelease → M ResponsibilityObject
  unfolding get_as pick list_of same_object save_append_only
  release_reservation x = do
    r ← reads (get_as env as_reservation x.reservation_ref)
    raise_if (not (r.responsibility_ref == x.responsibility_ref)) release_responsibility
    λ s. released_beside (releases_for r s) x s

  unfoldable pub commit : Commitment → ℕ → M ResponsibilityObject
  unfolding get_as current_definition current_status reservation_released same_resources
      save_append_only
  commit c now = do
    p ← reads (get_as env as_proposal c.proposal_ref)
    judgment ← reads (get_as env as_priority c.priority_judgment_ref)
    admitted ← reads (get_as env as_portfolio c.portfolio_admission_ref)
    r ← reads (get_as env as_reservation c.reservation_ref)
    current ← reads (current_definition env c.responsibility_ref)
    status ← reads (current_status env c.responsibility_ref)
    raise_if (not (same_status status active)) commitment_inactive
    raise_if (not (eqb c.responsibility_version current.version)) commitment_stale
    raise_if (not (p.responsibility_ref == c.responsibility_ref)) commitment_responsibility
    raise_if (not (eqb p.responsibility_version current.version)) commitment_proposal_version
    raise_if (is_over p.fresh_until now) commitment_proposal_stale
    a ← reads (get_as env as_assessment p.assessment_ref)
    raise_if (is_over a.fresh_until now) commitment_assessment_stale
    raise_if (not (judgment.proposal_ref == p.id) || not judgment.admitted) commitment_priority
    raise_if (not (admitted.proposal_ref == p.id) || not admitted.admitted) commitment_portfolio
    raise_if (not (r.proposal_ref == p.id)) commitment_proposal
    released ← reads (λ s. ok (reservation_released r now s))
    raise_if released commitment_reservation
    raise_if
        (not (same_resources c.resources p.requested_resources)
          || not (same_resources c.resources r.resources))
        commitment_resources
    save_append_only env (commitment c)
