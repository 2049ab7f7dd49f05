-- ===== src/Lease/Agreement.antt =====
-- The lease table and the lease fields of the runs say the same.
use portable_runtime.Base.{
  ℕ, ◌+◌, ◌<◌, String, ◌≡◌, refl, false, Option, none, some, ◌≢◌, arith, eq_iff, eq_refl,
  opt_eq_iff,
}
use portable_runtime.Base.Dict.{put}
use portable_runtime.Lease.{Lease, Run, Store, renew_run, renew_held, renew_lease}

-- A run that is stored beside its lease names the owner and the generation of the lease.
abbrev pub Agrees : Option Lease → Option Run → Type 0
Agrees none run = Unit
Agrees (some l) none = Unit
Agrees (some l) (some run) =
    (run.lease_owner ≡ some l.owner) × (run.lease_generation ≡ l.generation)

abbrev pub IsConsistent : Store → Type 0
IsConsistent s = (id : String) → Agrees (s.leases id) (s.runs id)

failed_renew_run :
    (id owner : String) (until : ℕ) (l : Lease) (r : Option Run) (s t : Store)
    → Agrees (some l) r
    → l.owner ≡ owner
    → (renew_run id owner until r t).0 ≡ false
    → (renew_run id owner until r t).1 ≡ s
failed_renew_run id owner until l none s t a mine e = cc
failed_renew_run id owner until l (some run) s t a mine e =
    absurd (ground (arith, opt_eq_iff run.lease_owner (some owner)))

failed_renew_held :
    (id owner : String) (ttl now wall : ℕ) (l : Option Lease) (s : Store)
    → Agrees l (s.runs id)
    → (renew_held id owner ttl now wall l s).0 ≡ false
    → (renew_held id owner ttl now wall l s).1 ≡ s
failed_renew_held id owner ttl now wall none s a e = refl
failed_renew_held id owner ttl now wall (some l) s a e = ground (
  arith,
  eq_iff l.owner owner,
  failed_renew_run id owner (wall + ttl) l (s.runs id) s
      (record s { leases = put id (record l { expires_at = now + ttl }) s.leases }) a,
)

-- In agreement, a renewal that answers false has changed nothing.
pub failed_renew_unchanged :
    (id owner : String) (ttl now wall : ℕ) (s : Store)
    → IsConsistent s
    → (renew_lease id owner ttl now wall s).0 ≡ false
    → (renew_lease id owner ttl now wall s).1 ≡ s
unfolding renew_lease
failed_renew_unchanged id owner ttl now wall s h e =
    failed_renew_held id owner ttl now wall (s.leases id) s (h id) e

-- Where the run names another owner than a running lease, its holder's renewal answers false and has
-- extended the lease nevertheless.
pub failed_renew_extends :
    (id owner : String) (ttl now wall : ℕ) (s : Store) (l : Lease) (run : Run)
    → s.leases id ≡ some l
    → s.runs id ≡ some run
    → l.owner ≡ owner
    → now < l.expires_at
    → run.lease_owner ≢ some owner
    → let (renewed, t) = renew_lease id owner ttl now wall s in
      (renewed ≡ false) × (t.leases id ≡ some (record l { expires_at = now + ttl }))
unfolding renew_lease
failed_renew_extends id owner ttl now wall s l run el er mine live other =
    ground (arith, eq_iff l.owner owner, opt_eq_iff run.lease_owner (some owner), eq_refl id)
