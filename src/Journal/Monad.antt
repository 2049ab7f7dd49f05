-- ===== src/Journal/Monad.antt =====
-- Calls on the store: they may raise, and what they wrote before stays written.
use portable_runtime.Base.{ℕ, ◌+◌, String, Bool, Option, none, some, [], ◌∷◌, ◌++◌, if◌then◌else◌}
use portable_runtime.Base.Result.{Result, ok, err}
use portable_runtime.Journal.Errors.{Error, event_append_only}
use portable_runtime.Journal.Models.{Store, Env, Event, Payload, find_event, same_event}

abbrev pub M : Type 0 → Type 0
M A = Store → Result Error A × Store

abbrev pub continue : {A B : Type 0} → Result Error A → (A → M B) → M B
continue (ok a) f s = f a s
continue (err e) f s = (err e, s)

infixl 5 ◌>>=◌ ◌>>◌
unfoldable pub ◌>>=◌ : {A B : Type 0} → M A → (A → M B) → M B
◌>>=◌ m f s = let (r, s') = m s in continue r f s'

abbrev pub ◌>>◌ : {A B : Type 0} → M A → M B → M B
m >> k = m >>= λ _. k

abbrev pub pure : {A : Type 0} → A → M A
pure a s = (ok a, s)

abbrev pub raise : {A : Type 0} → Error → M A
raise e s = (err e, s)

-- `if test: raise e`
abbrev pub raise_if : Bool → Error → M Unit
raise_if b e s = (if b then err e else ok tt, s)

-- A reader that may raise.
abbrev pub reads : {A : Type 0} → (Store → Result Error A) → M A
reads f s = (f s, s)

-- `value` where the source raises on `None`.
abbrev pub require : {A : Type 0} → Option A → Error → M A
require none e s = (err e, s)
require (some a) e s = (ok a, s)

-- `utcnow()` and `new_id(prefix)`
abbrev pub utcnow : Env → M ℕ
utcnow env s = (ok (env.clock s.draws), record s { draws = s.draws + 1 })

abbrev pub draw_id : Env → String → M String
draw_id env prefix s = (ok (env.new_id prefix s.draws), record s { draws = s.draws + 1 })

-- `with store.transaction():` undoes what was written where the block raises.
unfoldable pub transaction : {A : Type 0} → M A → M A
transaction m s =
    let (r, s') = m s in
    elim r [ ok a ↦ (ok a, s') | err e ↦ (err e, record s { draws = s'.draws }) ]

abbrev pub append_beside : Option Event → Event → M Unit
append_beside none e s = (ok tt, record s { events = s.events ++ e ∷ [] })
append_beside (some x) e s = (if same_event x e then ok tt else err event_append_only, s)

-- `append_event`
unfoldable pub append_event : Event → M Unit
append_event e s = append_beside (find_event e.id s.events) e s

abbrev pub new_event : String → ℕ → String → Payload → Event
new_event id now subject payload = record {
  id = id;
  created_at = now;
  subject_ref = subject;
  payload = payload;
}

-- A new event of the payload, on the subject.
unfoldable pub record_event : Env → String → Payload → M Event
unfolding append_event
record_event env subject payload = do
  id ← draw_id env "event"
  now ← utcnow env
  let e = new_event id now subject payload
  append_event e
  pure e
