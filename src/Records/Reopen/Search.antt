-- ===== src/Records/Reopen/Search.antt =====
-- `ReopenAssembler._records_and_relations`: the worklist, round by round.
use portable_runtime.Base.{ℕ, zero, suc, String, Bool, false, not, ◌&&◌, ◌||◌}
use portable_runtime.Base.{Option, none, some, List, [], ◌∷◌, ◌++◌, elem, ◌==◌}
use portable_runtime.Base.{if◌then◌else◌}
use portable_runtime.Base.Dict.{Dict}

pub record Relation : Type 0 where
  pub id : String
  pub relation_type : String
  pub subject_ref : String
  pub object_ref : String

-- The fields of a stored record, or of a grant, that the assembler reads.
pub record StoredRecord : Type 0 where
  pub record_type : String
  pub lifecycle_status : String
  pub scope : List (String × String)
  pub environment_versions : List (String × String)
  pub assumptions : List String
  pub unknown_scopes : List String
  pub invalidation_conditions : List String

-- A store that has the three calls which the search uses.
pub record Store : Type 0 where
  pub relations : List Relation
  pub get_record : Dict StoredRecord
  pub get_authorization : Dict StoredRecord

-- A dict in the order of insertion.
abbrev pub Records : Type 0
Records = List (String × StoredRecord)

-- `records[ref] = value`: an existing key keeps its place.
unfoldable pub assign : {V : Type 0} → String → V → List (String × V) → List (String × V)
assign ref value [] = (ref, value) ∷ []
assign ref value ((k, v) ∷ rest) =
    let others = assign ref value rest in if ref == k then (k, value) ∷ rest else (k, v) ∷ others

-- `ref in records`
unfoldable pub has_key : {V : Type 0} → String → List (String × V) → Bool
has_key ref [] = false
has_key ref ((k, v) ∷ rest) = ref == k || has_key ref rest

pub record Search : Type 0 where
  pub queue : List String
  pub seen : List String
  pub records : Records

-- The end of the relation that is not `current`.
abbrev pub other_end : String → Relation → String
other_end current rel = if rel.subject_ref == current then rel.object_ref else rel.subject_ref

abbrev pub or_else : {A : Type 0} → Option A → Option A → Option A
or_else (some a) b = some a
or_else none b = b

-- `store.get_record(ref)`, and where it answers None, `store.get_authorization(ref)`.
abbrev pub find_candidate : Store → String → Option StoredRecord
find_candidate store ref = or_else (store.get_record ref) (store.get_authorization ref)

abbrev pub add_candidate : String → Option StoredRecord → Search → Search
add_candidate ref none s = s
add_candidate ref (some candidate) s = record {
  queue = s.queue ++ (ref ∷ []);
  seen = ref ∷ s.seen;
  records = assign ref candidate s.records;
}

-- One round of the loop over the relations.
unfoldable pub visit : Store → String → Relation → Search → Search
visit store current rel s =
    if not (rel.subject_ref == current) && not (rel.object_ref == current)
    then s
    else if elem (other_end current rel) s.seen
    then s
    else add_candidate (other_end current rel) (find_candidate store (other_end current rel)) s

unfoldable pub visit_all : Store → String → List Relation → Search → Search
visit_all store current [] s = s
visit_all store current (rel ∷ rels) s = visit_all store current rels (visit store current rel s)

-- The loop over the queue; `none` where the fuel is spent before the queue is empty.
unfoldable pub search_loop : ℕ → Store → List String → List String → Records → Option Records
search_loop fuel store [] seen records = some records
search_loop zero store (current ∷ queue) seen records = none
search_loop (suc fuel) store (current ∷ queue) seen records =
    let s =
      visit_all store current store.relations
        (record { queue = queue; seen = seen; records = records }) in
    search_loop fuel store s.queue s.seen s.records

-- `assessment.record_ref or original_work.id`
abbrev pub target_or_work : String → String → String
target_or_work record_ref work_id = if record_ref == "" then work_id else record_ref

-- The target of the assessment is added last.
abbrev pub add_found : String → Option StoredRecord → Records → Records
add_found record_ref none records = records
add_found record_ref (some target) records = assign record_ref target records

-- `_records_and_relations` on a store: the records that it collects.
unfoldable pub collect_records : ℕ → Store → String → String → Option Records
collect_records fuel store record_ref work_id =
    let start = work_id ∷ target_or_work record_ref work_id ∷ [] in
    elim (search_loop fuel store start start []) [
      | none ↦ none
      | some records ↦ some (add_found record_ref (store.get_record record_ref) records)
    ]
