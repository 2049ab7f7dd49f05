-- ===== src/Lease/Fencing.antt =====
-- core/boundary_fencing.py
use portable_runtime.Base.{
  ℕ, String, Bool, true, false, not, ◌&&◌, Option, none, some, ◌==◌, opt_eq, eqb, leb, is_some,
  if◌then◌else◌,
}
use portable_runtime.Lease.{Run}

-- The part of a `CapabilityRequest` that fencing reads. `metadata_owner` is the text under
-- `lease_owner` in its metadata, `none` where that is missing or no text.
pub record Request : Type 0 where
  pub run_id : Option String
  pub lease_generation : ℕ
  pub lease_owner : Option String
  pub metadata_owner : Option String

-- The texts that `validate_fencing` answers with.
pub data Reason : Type 0 where
  no_fencing_required unleased_run generation_mismatch owner_mismatch missing_owner lease_expired
        fencing_ok :
      Reason

-- The field of a request is a number, so the function never comes to the metadata behind it.
unfoldable pub extract_lease_generation : Request → ℕ
extract_lease_generation request = request.lease_generation

unfoldable pub extract_lease_owner : Request → Option String
extract_lease_owner request = elim request.lease_owner [
  | some owner ↦ some owner
  | none ↦ request.metadata_owner
]

-- `bool(owner)`: neither `None` nor the empty text.
abbrev pub names_owner : Option String → Bool
names_owner none = false
names_owner (some o) = not (o == "")

abbrev pub is_past : Option ℕ → ℕ → Bool
is_past none now = false
is_past (some at) now = leb at now

unfoldable pub validate_run : Request → Run → ℕ → Bool × Reason
unfolding extract_lease_generation extract_lease_owner
validate_run request run now =
    if not (names_owner run.lease_owner) && eqb run.lease_generation 0
    then (true, unleased_run)
    else if not (eqb (extract_lease_generation request) run.lease_generation)
    then (false, generation_mismatch)
    else if names_owner run.lease_owner
        && is_some (extract_lease_owner request)
        && not (opt_eq (extract_lease_owner request) run.lease_owner)
    then (false, owner_mismatch)
    else if names_owner run.lease_owner && not (is_some (extract_lease_owner request))
    then (false, missing_owner)
    else if is_past run.lease_expires_at now
    then (false, lease_expired)
    else (true, fencing_ok)

unfoldable pub validate_fencing : Request → Option Run → ℕ → Bool × Reason
unfolding validate_run
validate_fencing request none now = (true, no_fencing_required)
validate_fencing request (some run) now =
    if is_some request.run_id then validate_run request run now else (true, no_fencing_required)
