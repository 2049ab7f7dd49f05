-- ===== src/Responsibility/Kernel/Objects.antt =====
-- responsibility/persistence.py, and the reading and appending of objects in responsibility/service.py.
use text.Mathlib.Text.{is_lt}
use Prim.Native.String.{compare}
use portable_runtime.Base.{
  ℕ, String, Bool, not, ◌&&◌, ◌||◌, Option, none, some, List, [], ◌∷◌, ◌==◌, ltb, eqb,
  if◌then◌else◌,
}
use portable_runtime.Responsibility.Models.{
  ResponsibilityObject, standing, admission, revision, lifecycle, expectation, resolution,
  assessment, proposal, priority, pool, portfolio, reservation, release, commitment,
}
use portable_runtime.Responsibility.Models.Equality.{ResponsibilityObject-discrete}
use portable_runtime.Journal.Errors.{object_append_only}
use portable_runtime.Journal.{
  Store, Env, Event, Payload, object_recorded, find_event, list_events, sort_events, same_event,
  decided, M, pure, raise, utcnow, append_event, new_event, ◌>>=◌, ◌>>◌,
}

abbrev pub id_of : ResponsibilityObject → String
id_of (standing o) = o.id
id_of (admission o) = o.id
id_of (revision o) = o.id
id_of (lifecycle o) = o.id
id_of (expectation o) = o.id
id_of (resolution o) = o.id
id_of (assessment o) = o.id
id_of (proposal o) = o.id
id_of (priority o) = o.id
id_of (pool o) = o.id
id_of (portfolio o) = o.id
id_of (reservation o) = o.id
id_of (release o) = o.id
id_of (commitment o) = o.id

abbrev pub created_of : ResponsibilityObject → ℕ
created_of (standing o) = o.created_at
created_of (admission o) = o.created_at
created_of (revision o) = o.created_at
created_of (lifecycle o) = o.created_at
created_of (expectation o) = o.created_at
created_of (resolution o) = o.created_at
created_of (assessment o) = o.created_at
created_of (proposal o) = o.created_at
created_of (priority o) = o.created_at
created_of (pool o) = o.created_at
created_of (portfolio o) = o.created_at
created_of (reservation o) = o.created_at
created_of (release o) = o.created_at
created_of (commitment o) = o.created_at

-- `_semantic_dump`: the object without `created_at`.
abbrev pub undated_object : ResponsibilityObject → ResponsibilityObject
undated_object (standing o) = standing (record o { created_at = 0 })
undated_object (admission o) = admission (record o { created_at = 0 })
undated_object (revision o) = revision (record o { created_at = 0 })
undated_object (lifecycle o) = lifecycle (record o { created_at = 0 })
undated_object (expectation o) = expectation (record o { created_at = 0 })
undated_object (resolution o) = resolution (record o { created_at = 0 })
undated_object (assessment o) = assessment (record o { created_at = 0 })
undated_object (proposal o) = proposal (record o { created_at = 0 })
undated_object (priority o) = priority (record o { created_at = 0 })
undated_object (pool o) = pool (record o { created_at = 0 })
undated_object (portfolio o) = portfolio (record o { created_at = 0 })
undated_object (reservation o) = reservation (record o { created_at = 0 })
undated_object (release o) = release (record o { created_at = 0 })
undated_object (commitment o) = commitment (record o { created_at = 0 })

-- The field `responsibility_ref` of the kinds that have one.
abbrev pub responsibility_of : ResponsibilityObject → Option String
responsibility_of (admission o) = some o.responsibility_ref
responsibility_of (revision o) = some o.responsibility_ref
responsibility_of (lifecycle o) = some o.responsibility_ref
responsibility_of (expectation o) = some o.responsibility_ref
responsibility_of (resolution o) = some o.responsibility_ref
responsibility_of (assessment o) = some o.responsibility_ref
responsibility_of (proposal o) = some o.responsibility_ref
responsibility_of (reservation o) = some o.responsibility_ref
responsibility_of (release o) = some o.responsibility_ref
responsibility_of (commitment o) = some o.responsibility_ref
responsibility_of _ = none

-- `responsibility_subject_ref`
unfoldable pub subject_of : ResponsibilityObject → String
subject_of o = elim (responsibility_of o) [
  | none ↦ id_of o
  | some ref ↦ if ref == "" then id_of o else ref
]

unfoldable pub same_object : ResponsibilityObject → ResponsibilityObject → Bool
same_object a b = decided (ResponsibilityObject-discrete (undated_object a) (undated_object b))

-- The object that an event records, if it is a responsibility event.
abbrev pub object_of_payload : Payload → Option ResponsibilityObject
object_of_payload (object_recorded o) = some o
object_of_payload _ = none

unfoldable pub objects_of : List Event → List ResponsibilityObject
objects_of [] = []
objects_of (e ∷ es) =
    let rest = objects_of es in
    elim (object_of_payload e.payload) [ none ↦ rest | some o ↦ o ∷ rest ]

-- The key `(created_at, id)`.
abbrev pub comes_before : ResponsibilityObject → ResponsibilityObject → Bool
comes_before a b =
    ltb (created_of a) (created_of b)
    || (eqb (created_of a) (created_of b) && is_lt (compare (id_of a) (id_of b)))

-- The stable sort by that key.
unfoldable pub insert_object :
    ResponsibilityObject → List ResponsibilityObject → List ResponsibilityObject
insert_object o [] = o ∷ []
insert_object o (x ∷ xs) =
    let rest = x ∷ insert_object o xs in if comes_before x o then rest else o ∷ x ∷ xs

unfoldable pub sort_objects : List ResponsibilityObject → List ResponsibilityObject
sort_objects [] = []
sort_objects (o ∷ os) = insert_object o (sort_objects os)

-- `ResponsibilityJournal.list`, for one responsibility and for all; the kinds are picked by the callers.
unfoldable pub list_of : String → Store → List ResponsibilityObject
unfolding objects_of sort_objects insert_object
list_of ref s = sort_objects (objects_of (list_events ref s.events))

unfoldable pub list_all : Store → List ResponsibilityObject
unfolding objects_of sort_objects insert_object
list_all s = sort_objects (objects_of (sort_events s.events))

module _ (env : Env) where
  abbrev pub object_of_event : Option Event → Option ResponsibilityObject
  object_of_event none = none
  object_of_event (some e) = object_of_payload e.payload

  -- `ResponsibilityJournal.get`
  unfoldable pub get : String → Store → Option ResponsibilityObject
  get object_id s = object_of_event (find_event (env.event_id object_id) s.events)

  abbrev pub save_beside : Option Event → Event → ResponsibilityObject → M ResponsibilityObject
  save_beside none e o = do append_event e; pure o
  save_beside (some x) e o =
      if not (same_event x e)
      then raise object_append_only
      else elim (object_of_payload x.payload) [ none ↦ raise object_append_only | some y ↦ pure y ]

  -- `ResponsibilityJournal.save`
  unfoldable pub save : ResponsibilityObject → M ResponsibilityObject
  save o = do
    now ← utcnow env
    let e = new_event (env.event_id (id_of o)) now (subject_of o) (object_recorded o)
    λ s. save_beside (find_event e.id s.events) e o s

  abbrev pub append_only_beside :
      Option ResponsibilityObject → ResponsibilityObject → M ResponsibilityObject
  append_only_beside none o = save o
  append_only_beside (some x) o = if same_object x o then pure x else raise object_append_only

  -- `_save_append_only`
  unfoldable pub save_append_only : ResponsibilityObject → M ResponsibilityObject
  save_append_only o s = append_only_beside (get (id_of o) s) o s
