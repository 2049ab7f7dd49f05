-- ===== src/Policies/Validated.antt =====
-- The validator of `PolicyDecision` run again, as `PolicyEngine.evaluate` does on each decision.
use portable_runtime.Base.{
  String, ◌≡◌, refl, inl, inr, true, false, Bool-cases, not, ◌&&◌, Option, none, some, is_some,
  List, non_empty,
}
use portable_runtime.Policies.Models.{
  Obligation, Disposition, Status, PolicyDecision, sync_disposition, sync_status, sync,
}

-- A decision that the validator leaves as it is.
abbrev IsComplete : PolicyDecision → Type 0
IsComplete d =
    (is_some d.disposition ≡ true)
    × (is_some d.status ≡ true)
    × ((not (is_some d.reason) && non_empty d.reason_refs) ≡ false)

abbrev decision :
    Option Disposition
    → List Obligation
    → List String
    → List String
    → Option Status
    → Option String
    → PolicyDecision
decision a os rs ps s t = record {
  disposition = a;
  obligations = os;
  reason_refs = rs;
  policy_refs = ps;
  status = s;
  reason = t;
}

fields_lem :
    (a : Option Disposition) (os : List Obligation) (rs ps : List String) (s : Option Status)
    (t : Option String)
    → IsComplete (decision a os rs ps s t)
    → sync (decision a os rs ps s t) ≡ decision a os rs ps s t
unfolding sync sync_disposition sync_status
fields_lem none os rs ps s t h = cc
fields_lem (some a) os rs ps none t h = cc
fields_lem (some a) os rs ps (some s) t (_, _, h) = rw h

sync_complete : (d : PolicyDecision) → IsComplete d → sync d ≡ d
sync_complete d =
    fields_lem d.disposition d.obligations d.reason_refs d.policy_refs d.status d.reason

sync-IsComplete : (d : PolicyDecision) → IsComplete (sync d)
unfolding sync
sync-IsComplete d =
    let e = sync_status (sync_disposition d) in
    elim (Bool-cases (not (is_some e.reason) && non_empty e.reason_refs)) [
      | inl k ↦ (refl, refl, rw k)
      | inr k ↦ (refl, refl, rw (k, k))
    ]

pub sync_again : (d : PolicyDecision) → sync (sync d) ≡ sync d
sync_again d = sync_complete (sync d) (sync-IsComplete d)
