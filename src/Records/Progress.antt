-- ===== src/Records/Progress.antt =====
-- The lifecycle machines only lead forward, and stay inside what the record validator accepts.
use portable_runtime.Base.{
  ℕ, zero, suc, ◌+◌, ◌≤◌, String, ◌≡◌, refl, sym, ◌∙◌, ap, subst, ◌≢◌, ◌⊎◌, ◌↔◌, inl, inr, Bool,
  true, false,
}
use portable_runtime.Base.{not, ◌&&◌, some, is_some, List, [], ◌∷◌, arith, Bool-cases, eq_iff}
use portable_runtime.Base.{ltb, ltb→lt, non_empty, all, elem, ◌==◌, if◌then◌else◌}
use portable_runtime.Base.Result.{ok, is_ok, raise_if, ◌>>◌}
use portable_runtime.Records.Lifecycle.{
  Table, entry, assertion_machine, revision_machine, policy_machine, action_machine,
  outcome_machine, lifecycle_machine, machine_allows, is_valid_lifecycle_transition,
  allowed_lifecycle, BaseRecord, validate_orthogonal, epistemic_status_record_types, RecordError,
}

-- `n` valid changes of status, each to another status, lead from the first status to the last.
pub data Moves (record_type : String) : ℕ → String → String → Type 0 where
  stay : {s : String} → Moves record_type 0 s s
  move :
      {n : ℕ} {s t u : String}
      → is_valid_lifecycle_transition record_type s t ≡ true
      → s ≢ t
      → Moves record_type n t u
      → Moves record_type (suc n) s u

abbrev Ranks : Type 0
Ranks = List (String × ℕ)

-- How many changes can still follow.
abbrev rank : Ranks → String → ℕ
rank [] s = 0
rank ((k, n) ∷ rest) s = let other = rank rest s in if s == k then n else other

abbrev ranks : String → Ranks
ranks record_type =
    if record_type == "Assertion"
    then ("draft", 3) ∷ ("current", 2) ∷ ("superseded", 1) ∷ []
    else if record_type == "Revision"
    then ("proposed", 4) ∷ ("authorized", 3) ∷ ("applied", 2) ∷ ("verified", 1) ∷ []
    else if record_type == "Policy"
    then ("draft", 4) ∷ ("candidate", 3) ∷ ("official", 2) ∷ ("deprecated", 1) ∷ []
    else if record_type == "Action"
    then ("recorded", 3) ∷ ("verified", 2) ∷ ("current", 1) ∷ []
    else ("recorded", 2) ∷ ("confirmed", 1) ∷ []

-- A test holds of every change that a machine names.
abbrev all_moves : (String → String → Bool) → Table → Bool
all_moves p machine = all (λ (k, values). all (λ v. p k v) values) machine

all-elem :
    (p : String → Bool) (v : String) (values : List String)
    → all p values ≡ true
    → elem v values ≡ true
    → p v ≡ true
all-elem p v [] h i = cc
all-elem p v (w ∷ values) h i = elim (Bool-cases (v == w)) [
  | inl e ↦ rw ((eq_iff v w).0 e) (ground arith)
  | inr e ↦ all-elem p v values (ground arith) (ground arith)
]

all_moves-entry :
    (p : String → String → Bool) (machine : Table) (s t : String)
    → all_moves p machine ≡ true
    → elem t (entry s machine) ≡ true
    → p s t ≡ true
all_moves-entry p [] s t h i = cc
all_moves-entry p ((k, values) ∷ rest) s t h i = elim (Bool-cases (s == k)) [
  | inl e ↦ rw ((eq_iff s k).0 e) (all-elem (p k) t values (ground arith) (ground arith))
  | inr e ↦ all_moves-entry p rest s t (ground arith) (ground arith)
]

-- A valid change to another status is one that the machine names.
valid_names :
    (record_type s t : String) (machine : Table)
    → lifecycle_machine record_type ≡ some machine
    → is_valid_lifecycle_transition record_type s t ≡ true
    → s ≢ t
    → elem t (entry s machine) ≡ true
unfolding is_valid_lifecycle_transition machine_allows
valid_names record_type s t machine e h ne = ground (arith, named, eq_iff s t)
  where
    named : machine_allows (some machine) s t ≡ true
    named = subst (λ m. machine_allows m s t ≡ true) e h

abbrev falls : String → String → String → Bool
falls record_type s t = ltb (rank (ranks record_type) t) (rank (ranks record_type) s)

abbrev IsMachine : String → Table → String → Table → Type 0
IsMachine record_type machine name named = (record_type ≡ name) × (machine ≡ named)

lifecycle_machine-cases :
    (record_type : String) (machine : Table)
    → lifecycle_machine record_type ≡ some machine
    → IsMachine record_type machine "Assertion" assertion_machine
      ⊎ (IsMachine record_type machine "Revision" revision_machine
          ⊎ (IsMachine record_type machine "Policy" policy_machine
              ⊎ (IsMachine record_type machine "Action" action_machine
                  ⊎ IsMachine record_type machine "Outcome" outcome_machine)))
unfolding lifecycle_machine
lifecycle_machine-cases record_type machine h = ground (
  arith,
  eq_iff record_type "Assertion",
  eq_iff record_type "Revision",
  eq_iff record_type "Policy",
  eq_iff record_type "Action",
  eq_iff record_type "Outcome",
)

-- What a test says of the five machines, it says of every machine.
each_machine :
    (p : String → String → String → Bool)
    → all_moves (p "Assertion") assertion_machine ≡ true
    → all_moves (p "Revision") revision_machine ≡ true
    → all_moves (p "Policy") policy_machine ≡ true
    → all_moves (p "Action") action_machine ≡ true
    → all_moves (p "Outcome") outcome_machine ≡ true
    → (record_type : String) (machine : Table) → lifecycle_machine record_type ≡ some machine
    → all_moves (p record_type) machine ≡ true
each_machine p a b c d e record_type machine h =
    elim (lifecycle_machine-cases record_type machine h) [
      | inl (n, m) ↦ rw (n, m) a
      | inr (inl (n, m)) ↦ rw (n, m) b
      | inr (inr (inl (n, m))) ↦ rw (n, m) c
      | inr (inr (inr (inl (n, m)))) ↦ rw (n, m) d
      | inr (inr (inr (inr (n, m)))) ↦ rw (n, m) e
    ]

-- The ranks of a type number its machine downwards.
all_moves-falls :
    (record_type : String) (machine : Table)
    → lifecycle_machine record_type ≡ some machine
    → all_moves (falls record_type) machine ≡ true
all_moves-falls record_type machine h =
    each_machine falls refl refl refl refl refl record_type machine h

rank-le : (record_type s : String) → rank (ranks record_type) s ≤ 4
rank-le record_type s = ground arith

Moves-rank :
    (record_type : String) (machine : Table)
    → lifecycle_machine record_type ≡ some machine
    → (n : ℕ) (s t : String) → Moves record_type n s t
    → n + rank (ranks record_type) t ≤ rank (ranks record_type) s
Moves-rank record_type machine e zero s _ stay = omega arith
Moves-rank record_type machine e (suc n) s u (move {t} valid ne rest) =
    let fall = ltb→lt (rank (ranks record_type) t) (rank (ranks record_type) s) (
      all_moves-entry (falls record_type) machine s t (all_moves-falls record_type machine e)
        (valid_names record_type s t machine e valid ne)) in
    let after = Moves-rank record_type machine e n t u rest in omega arith

-- A record whose type has a lifecycle machine changes its status at most four times, each valid
-- change to another status counted, and after any such changes it never has its first status again.
pub Moves-IsBounded :
    (record_type : String) (machine : Table) (n : ℕ) (s t : String)
    → lifecycle_machine record_type ≡ some machine
    → Moves record_type (suc n) s t
    → (suc n ≤ 4) × (s ≢ t)
Moves-IsBounded record_type machine n s t e moves =
    let bound = Moves-rank record_type machine e (suc n) s t moves in
    let top = rank-le record_type s in
    (omega arith, λ (p : s ≡ t). let same = ap (λ x. rank (ranks record_type) x) p in omega arith)

abbrev is_archived_proposal : String → String → String → Bool
is_archived_proposal record_type s t =
    record_type == "Revision" && s == "proposed" && t == "archived"

abbrev agree : Bool → Bool → Bool
agree true b = b
agree false b = not b

-- The validator accepts the status that a change leads to, but for that of an archived proposal.
abbrev fits : String → String → String → Bool
fits record_type s t =
    agree (elem t (entry record_type allowed_lifecycle))
      (not (is_archived_proposal record_type s t))

all_moves-fits :
    (record_type : String) (machine : Table)
    → lifecycle_machine record_type ≡ some machine
    → all_moves (fits record_type) machine ≡ true
all_moves-fits record_type machine h =
    each_machine fits refl refl refl refl refl record_type machine h

allowed-non_empty :
    (record_type : String) (machine : Table)
    → lifecycle_machine record_type ≡ some machine
    → non_empty (entry record_type allowed_lifecycle) ≡ true
allowed-non_empty record_type machine h = elim (lifecycle_machine-cases record_type machine h) [
  | inl (n, m) ↦ rw n refl
  | inr (inl (n, m)) ↦ rw n refl
  | inr (inr (inl (n, m))) ↦ rw n refl
  | inr (inr (inr (inl (n, m)))) ↦ rw n refl
  | inr (inr (inr (inr (n, m)))) ↦ rw n refl
]

-- The two tests of the validator, before and after the second has another outcome.
two_tests :
    (a b c d : Bool) (x y : RecordError)
    → (raise_if a x >> raise_if (b && not c) y) ≡ ok tt
    → b ≡ true
    → (is_ok (raise_if a x >> raise_if (b && not d) y) ≡ d) × (c ≡ true)
two_tests a b c d x y h e = ground arith

validated_status :
    (r : BaseRecord) (t : String)
    → validate_orthogonal r ≡ ok tt
    → non_empty (entry r.record_type allowed_lifecycle) ≡ true
    → (is_ok (validate_orthogonal (record r { lifecycle_status = t }))
        ≡ elem t (entry r.record_type allowed_lifecycle))
      × (elem r.lifecycle_status (entry r.record_type allowed_lifecycle) ≡ true)
unfolding validate_orthogonal
validated_status r t accepted e =
    let allowed = entry r.record_type allowed_lifecycle in
    two_tests (is_some r.epistemic_status && not (elem r.record_type epistemic_status_record_types))
      (non_empty allowed) (elem r.lifecycle_status allowed) (elem t allowed) _ _ accepted e

archived_proposal_iff :
    (record_type s t : String)
    → (is_archived_proposal record_type s t ≡ true)
      ↔ ((record_type ≡ "Revision") × (s ≡ "proposed") × (t ≡ "archived"))
archived_proposal_iff record_type s t =
    ground (arith, eq_iff record_type "Revision", eq_iff s "proposed", eq_iff t "archived")

proposed≢archived : (s t : String) → s ≡ t → s ≡ "proposed" → t ≡ "archived" → ⊥
proposed≢archived s t p b c =
    let differ : false ≡ true = (eq_iff "proposed" "archived").1 (sym b ∙ (p ∙ c)) in cc

-- Of a record that the validator accepts, whose type has a lifecycle machine, a valid change of status
-- makes one that the validator accepts, except where it archives a proposed revision: that one it
-- refuses.
pub moved-IsRefused :
    (r : BaseRecord) (machine : Table) (t : String)
    → lifecycle_machine r.record_type ≡ some machine
    → validate_orthogonal r ≡ ok tt
    → is_valid_lifecycle_transition r.record_type r.lifecycle_status t ≡ true
    → (is_ok (validate_orthogonal (record r { lifecycle_status = t })) ≡ false)
      ↔ ((r.record_type ≡ "Revision") × (r.lifecycle_status ≡ "proposed") × (t ≡ "archived"))
moved-IsRefused r machine t e accepted valid =
    let s = r.lifecycle_status in
    let verdict = validated_status r t accepted (allowed-non_empty r.record_type machine e) in
    let exception = archived_proposal_iff r.record_type s t in
    elim (Bool-cases (s == t)) [
      | inl same ↦
          let p = (eq_iff s t).0 same in
          let kept =
            subst (λ x. elem x (entry r.record_type allowed_lifecycle) ≡ true) p verdict.1 in
          (λ h. cc (verdict.0, kept, h), λ (_, b, c). absurd (proposed≢archived s t p b c))
      | inr other ↦
          let names =
            valid_names r.record_type s t machine e valid (λ p. cc (other, (eq_iff s t).1 p)) in
          let fit =
            all_moves-entry (fits r.record_type) machine s t
              (all_moves-fits r.record_type machine e) names in
          ground (arith, verdict, exception, fit)
    ]
