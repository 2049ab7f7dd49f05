-- ===== src/Base/Call.antt =====
-- A call on a state that may raise: what it wrote before the error stays written.
use mathlib.Core.Bool.{Bool, true, false}
use mathlib.Core.Path.{◌≡◌, refl, sym, ap, ◌∙◌}
use mathlib.Core.Option.{Option, none, some}
use native.Mathlib.Omega.{arith}
use portable_runtime.Base.Result.{Result, ok, err}
use portable_runtime.Base.Tests.{if◌then◌else◌}

abbrev pub Call : Type 0 → Type 0 → Type 0 → Type 0
Call S E A = S → Result E A × S

module _ {S E : Type 0} where
  abbrev pub continue : {A B : Type 0} → Result E A → (A → Call S E B) → Call S E B
  continue (ok a) f s = f a s
  continue (err e) f s = (err e, s)

  infixl 5 ◌>>=◌ ◌>>◌
  unfoldable pub ◌>>=◌ : {A B : Type 0} → Call S E A → (A → Call S E B) → Call S E B
  ◌>>=◌ m f s = let (r, s') = m s in continue r f s'

  abbrev pub ◌>>◌ : {A B : Type 0} → Call S E A → Call S E B → Call S E B
  m >> k = m >>= λ _. k

  abbrev pub pure : {A : Type 0} → A → Call S E A
  pure a s = (ok a, s)

  abbrev pub raise : {A : Type 0} → E → Call S E A
  raise e s = (err e, s)

  -- `if test: raise e`
  abbrev pub raise_if : Bool → E → Call S E Unit
  raise_if b e s = (if b then err e else ok tt, s)

  -- `value` where the source raises on `None`.
  abbrev pub require : {A : Type 0} → Option A → E → Call S E A
  require none e s = (err e, s)
  require (some a) e s = (ok a, s)

  abbrev pub get : Call S E S
  get s = (ok s, s)

  -- A pure computation that may raise.
  abbrev pub lift : {A : Type 0} → Result E A → Call S E A
  lift r s = (r, s)

  -- `with store.transaction():` undoes what was written where the block raises.
  abbrev pub transaction : {A : Type 0} → Call S E A → Call S E A
  transaction m s = let (r, s') = m s in elim r [ ok a ↦ (ok a, s') | err e ↦ (err e, s) ]

-- What a call that returned has passed on its way.
module _ {S E B : Type 0} (s s' : S) (b : B) where
  pub after_raise_if :
      (test : Bool) (e : E) (k : Call S E B)
      → (raise_if test e >> k) s ≡ (ok b, s')
      → (test ≡ false) × (k s ≡ (ok b, s'))
  unfolding ◌>>=◌
  after_raise_if true e k h = cc
  after_raise_if false e k h = (refl, h)

  pub after_get : (k : S → Call S E B) → (get >>= k) s ≡ (ok b, s') → k s s ≡ (ok b, s')
  unfolding ◌>>=◌
  after_get k h = h

  pub pure_ok : (a : B) → pure {E = E} a s ≡ (ok b, s') → (b ≡ a) × (s' ≡ s)
  pure_ok a h = ground arith

  pub after_require :
      {A : Type 0} (o : Option A) (e : E) (k : A → Call S E B)
      → (require o e >>= k) s ≡ (ok b, s')
      → (a : A) × (o ≡ some a) × (k a s ≡ (ok b, s'))
  unfolding ◌>>=◌
  after_require none e k h = cc
  after_require (some a) e k h = (a, refl, h)

  pub after_lift :
      {A : Type 0} (r : Result E A) (k : A → Call S E B)
      → (lift r >>= k) s ≡ (ok b, s')
      → (a : A) × (r ≡ ok a) × (k a s ≡ (ok b, s'))
  unfolding ◌>>=◌
  after_lift (err x) k h = cc
  after_lift (ok a) k h = (a, refl, h)

after_result :
    {S E A B : Type 0} (r : Result E A × S) (f : A → Call S E B) (s' : S) (b : B)
    → continue r.0 f r.1 ≡ (ok b, s')
    → (a : A) × (t : S) × (r ≡ (ok a, t)) × (f a t ≡ (ok b, s'))
after_result (ok a, t) f s' b h = (a, t, refl, h)
after_result (err x, t) f s' b h = cc

pub after_call :
    {S E A B : Type 0} (m : Call S E A) (f : A → Call S E B) (s s' : S) (b : B)
    → (m >>= f) s ≡ (ok b, s')
    → (a : A) × (t : S) × (m s ≡ (ok a, t)) × (f a t ≡ (ok b, s'))
unfolding ◌>>=◌
after_call m f s s' b h = after_result (m s) f s' b h

transaction_result :
    {S E B : Type 0} (r : Result E B × S) (s s' : S) (b : B)
    → (elim r.0 as (λ _. Result E B × S) [ ok a ↦ (ok a, r.1) | err e ↦ (err e, s) ]) ≡ (ok b, s')
    → r ≡ (ok b, s')
transaction_result (ok a, t) s s' b h = h
transaction_result (err e, t) s s' b h = cc

pub transaction_ok :
    {S E B : Type 0} (m : Call S E B) (s s' : S) (b : B)
    → transaction m s ≡ (ok b, s')
    → m s ≡ (ok b, s')
transaction_ok m s s' b h = transaction_result (m s) s s' b h

-- A call that leaves the state as it was, and one that does so where it raises.
abbrev pub IsQuiet : {S E B : Type 0} → Call S E B → Type 0
IsQuiet {S} m = (s : S) → (m s).1 ≡ s

abbrev pub IsUndone : {S E B : Type 0} → Call S E B → Type 0
IsUndone {S} {E} m = (s s' : S) (e : E) → m s ≡ (err e, s') → s' ≡ s

module _ {S E A B : Type 0} where
  continue_quiet :
      (r : Result E A × S) (f : A → Call S E B) (s : S)
      → r.1 ≡ s
      → ((a : A) → IsQuiet (f a))
      → (continue r.0 f r.1).1 ≡ s
  continue_quiet (ok a, t) f s h k = k a t ∙ h
  continue_quiet (err x, t) f s h k = h

  pub bind-IsQuiet :
      (m : Call S E A) (f : A → Call S E B)
      → IsQuiet m
      → ((a : A) → IsQuiet (f a))
      → IsQuiet (m >>= f)
  unfolding ◌>>=◌
  bind-IsQuiet m f h k s = continue_quiet (m s) f s (h s) k

  continue_undone :
      (r : Result E A × S) (f : A → Call S E B) (s s' : S) (e : E)
      → r.1 ≡ s
      → ((a : A) → IsUndone (f a))
      → continue r.0 f r.1 ≡ (err e, s')
      → s' ≡ s
  continue_undone (ok a, t) f s s' e h k q = k a t s' e q ∙ h
  continue_undone (err x, t) f s s' e h k q = sym (ap (λ p. p.1) q) ∙ h

  pub bind-IsUndone :
      (m : Call S E A) (f : A → Call S E B)
      → IsQuiet m
      → ((a : A) → IsUndone (f a))
      → IsUndone (m >>= f)
  unfolding ◌>>=◌
  bind-IsUndone m f h k s s' e q = continue_undone (m s) f s s' e (h s) k q

pub require-IsQuiet : {S E A : Type 0} (o : Option A) (e : E) → IsQuiet (require {S = S} o e)
require-IsQuiet none e s = refl
require-IsQuiet (some a) e s = refl

transaction_undone :
    {S E B : Type 0} (r : Result E B × S) (s s' : S) (e : E)
    → (elim r.0 as (λ _. Result E B × S) [ ok a ↦ (ok a, r.1) | err e ↦ (err e, s) ]) ≡ (err e, s')
    → s' ≡ s
transaction_undone (ok a, t) s s' e h = cc
transaction_undone (err x, t) s s' e h = sym (ap (λ p. p.1) h)

pub transaction-IsUndone : {S E B : Type 0} (m : Call S E B) → IsUndone (transaction m)
transaction-IsUndone m s s' e h = transaction_undone (m s) s s' e h
