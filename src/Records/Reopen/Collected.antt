-- ===== src/Records/Reopen/Collected.antt =====
-- What `_records_and_relations` collects for an assessment.
use portable_runtime.Base.{ℕ, ◌+◌, ◌≤◌, String, ◌≡◌, refl, ◌⊎◌, ◌↔◌, true, false, ◌&&◌, ◌||◌}
use portable_runtime.Base.{
  Option, none, some, is_some, List, [], ◌∷◌, arith, length, elem, ◌==◌, eq_iff,
}
use portable_runtime.Records.Reopen.Search.{
  StoredRecord, Store, Records, has_key, search_loop, target_or_work, add_found, collect_records,
}
use portable_runtime.Records.Reopen.Graph.{
  Reached, begin, IsStored, has_key-assign, assign-IsStored,
}
use portable_runtime.Records.Reopen.Reach.{Ends, search_loop-Ends, Reached-seen, unseen-le}

-- The two refs from which the search starts.
abbrev pub starts : String → String → List String
starts record_ref work_id = work_id ∷ target_or_work record_ref work_id ∷ []

-- A ref is collected where the search reaches it from another one, and where it is the stored target.
abbrev pub Collects : Store → String → String → Records → Type 0
Collects store record_ref work_id records =
    (x : String)
    → (has_key x records ≡ true) ↔ (
        Reached store (starts record_ref work_id) x × (elem x (starts record_ref work_id) ≡ false)
        ⊎ (x ≡ record_ref) × (is_some (store.get_record record_ref) ≡ true))

has_key-add_found :
    (x ref : String) (found : Option StoredRecord) (rs : Records)
    → has_key x (add_found ref found rs) ≡ (has_key x rs || (x == ref && is_some found))
has_key-add_found x ref none rs = ground arith
has_key-add_found x ref (some v) rs = rw (has_key-assign x ref v rs) (ground arith)

add_found-IsStored :
    (store : Store) (ref : String) (found : Option StoredRecord) (rs : Records)
    → store.get_record ref ≡ found
    → IsStored store rs
    → IsStored store (add_found ref found rs)
add_found-IsStored store ref none rs e h = h
add_found-IsStored store ref (some v) rs e h = assign-IsStored store ref v rs (rw e refl) h

search_start :
    (fuel : ℕ) (store : Store) (start : List String)
    → length store.relations + length store.relations + length start ≤ fuel
    → Ends store start (search_loop fuel store start start [])
unfolding has_key
search_start fuel store start enough =
    let few = unseen-le start store.relations in
    search_loop-Ends store start fuel start start []
      (record {
        sound = λ x h. begin h;
        queued = λ x h. h;
        started = λ x h. h;
        keys = λ x. ground arith;
        stored = tt;
      })
      (λ x b rel h gone. cc (h, gone)) (omega arith)

Ends-Collects :
    (store : Store) (record_ref work_id : String) (out : Option Records)
    (e : Ends store (starts record_ref work_id) out)
    → Collects store record_ref work_id
        (add_found record_ref (store.get_record record_ref) e.records)
Ends-Collects store record_ref work_id out e x =
    rw (has_key-add_found x record_ref (store.get_record record_ref) e.records, e.inv.keys x)
      (ground (
        arith,
        e.inv.sound x,
        λ (r : Reached store (starts record_ref work_id) x). Reached-seen store _ e r,
        eq_iff x record_ref,
      ))

-- With fuel for each end of a relation and for the two refs at the start, the search ends. A ref is
-- then among the records exactly if the relations lead to it, from the work or the target over refs
-- that the store knows, and it is neither of the two itself, or if it is the target and the store has
-- a record of it; and each collected record is the one that the store has under its ref.
pub collect_records-Collects :
    (fuel : ℕ) (store : Store) (record_ref work_id : String)
    → length store.relations + length store.relations + 2 ≤ fuel
    → (records : Records) × (collect_records fuel store record_ref work_id ≡ some records)
      × Collects store record_ref work_id records
      × IsStored store records
unfolding collect_records
collect_records-Collects fuel store record_ref work_id enough =
    let e = search_start fuel store (starts record_ref work_id) enough in
    (
      add_found record_ref (store.get_record record_ref) e.records,
      rw (collect_records, e.returns) refl,
      Ends-Collects store record_ref work_id _ e,
      add_found-IsStored store record_ref (store.get_record record_ref) e.records refl e.inv.stored,
    )
