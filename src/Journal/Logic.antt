-- ===== src/Journal/Logic.antt =====
-- Before and after a call on the store: what holds where it returns, and what where it raises.
use portable_runtime.Base.{◌≡◌, refl, Bool, true, false, Option, none, some}
use portable_runtime.Base.Result.{Result, ok, err}
use portable_runtime.Journal.Errors.{Error}
use portable_runtime.Journal.Models.{Store}
use portable_runtime.Journal.Monad.{M, ◌>>=◌, ◌>>◌, continue, raise_if, transaction, reads, require}

-- What `transaction` makes of a result: the store after, or the one before.
abbrev undone : {A : Type 0} → Result Error A → Store → Store → Result Error A × Store
undone r t s = elim r [ ok a ↦ (ok a, t) | err e ↦ (err e, record s { draws = t.draws }) ]

abbrev pub Post :
    {A : Type 0} → (A → Store → Type 0) → (Store → Type 0) → Result Error A → Store → Type 0
Post Q E (ok a) s = Q a s
Post Q E (err e) s = E s

-- From a store with `P`, the call returns into `Q` or raises into `E`.
abbrev pub Triple :
    {A : Type 0} → (Store → Type 0) → M A → (A → Store → Type 0) → (Store → Type 0) → Type 0
Triple P m Q E = (s : Store) → P s → Post Q E (m s).0 (m s).1

-- The call keeps `P`, whether it returns or raises.
abbrev pub Keeps : {A : Type 0} → (Store → Type 0) → M A → Type 0
Keeps P m = (s : Store) → P s → P (m s).1

module _ {A B : Type 0} (P E : Store → Type 0) (Q : B → Store → Type 0) where
  continued :
      (R : A → Store → Type 0) (f : A → M B)
      → ((a : A) → Triple (R a) (f a) Q E)
      → (r : Result Error A) (s : Store) → Post R E r s
      → Post Q E (continue r f s).0 (continue r f s).1
  continued R f k (ok a) s h = k a s h
  continued R f k (err e) s h = h

  pub bind :
      (R : A → Store → Type 0) (m : M A) (f : A → M B)
      → Triple P m R E
      → ((a : A) → Triple (R a) (f a) Q E)
      → Triple P (m >>= f) Q E
  unfolding ◌>>=◌
  bind R m f h k s p = continued R f k (m s).0 (m s).1 (h s p)

  kept_result :
      (f : A → M B)
      → ((a : A) → Triple P (f a) Q E)
      → ((s : Store) → P s → E s)
      → (r : Result Error A) (s : Store) → P s
      → Post Q E (continue r f s).0 (continue r f s).1
  kept_result f k i (ok a) s h = k a s h
  kept_result f k i (err e) s h = i s h

  -- After a call that keeps what holds.
  pub after :
      (m : M A) (f : A → M B)
      → Keeps P m
      → ((s : Store) → P s → E s)
      → ((a : A) → Triple P (f a) Q E)
      → Triple P (m >>= f) Q E
  unfolding ◌>>=◌
  after m f h i k s p = kept_result f k i (m s).0 (m s).1 (h s p)

  read_result :
      (f : A → M B) (s : Store)
      → P s
      → ((s : Store) → P s → E s)
      → (r : Result Error A) → ((a : A) → r ≡ ok a → Post Q E (f a s).0 (f a s).1)
      → Post Q E (continue r f s).0 (continue r f s).1
  read_result f s p i (ok a) k = k a refl
  read_result f s p i (err e) k = i s p

  pub after_reads :
      (r : Store → Result Error A) (f : A → M B)
      → ((s : Store) → P s → E s)
      → ((a : A) → Triple (λ s. P s × (r s ≡ ok a)) (f a) Q E)
      → Triple P (reads r >>= f) Q E
  unfolding ◌>>=◌
  after_reads r f i k s p = read_result f s p i (r s) (λ a e. k a s (p, e))

  pub after_require :
      (o : Option A) (e : Error) (f : A → M B)
      → ((s : Store) → P s → E s)
      → ((a : A) → o ≡ some a → Triple P (f a) Q E)
      → Triple P (require o e >>= f) Q E
  unfolding ◌>>=◌
  after_require none e f i k s p = i s p
  after_require (some a) e f i k s p = k a refl s p

module _ {B : Type 0} (P E : Store → Type 0) (Q : B → Store → Type 0) where
  pub after_raise_if :
      (b : Bool) (e : Error) (k : M B)
      → ((s : Store) → P s → E s)
      → (b ≡ false → Triple P k Q E)
      → Triple P (raise_if b e >> k) Q E
  unfolding ◌>>=◌
  after_raise_if true e k i h s p = i s p
  after_raise_if false e k i h s p = h refl s p

module _ {A B : Type 0} (P : Store → Type 0) where
  continued_keeps :
      (f : A → M B)
      → ((a : A) → Keeps P (f a))
      → (r : Result Error A) (s : Store) → P s
      → P (continue r f s).1
  continued_keeps f k (ok a) s p = k a s p
  continued_keeps f k (err e) s p = p

  pub bind-Keeps :
      (m : M A) (f : A → M B) → Keeps P m → ((a : A) → Keeps P (f a)) → Keeps P (m >>= f)
  unfolding ◌>>=◌
  bind-Keeps m f h k s p = continued_keeps f k (m s).0 (m s).1 (h s p)

-- What a call keeps, and what it returns.
module _ {A : Type 0} (P E : Store → Type 0) (R : A → Type 0) where
  both_results :
      ((s : Store) → P s → E s)
      → (r : Result Error A) (s : Store) → P s
      → Post (λ v _. R v) (λ _. Unit) r s
      → Post (λ v s. P s × R v) E r s
  both_results i (ok a) s p q = (p, q)
  both_results i (err e) s p q = i s p

  pub keeps_and_returns :
      (m : M A)
      → ((s : Store) → P s → E s)
      → Keeps P m
      → Triple (λ _. Unit) m (λ v _. R v) (λ _. Unit)
      → Triple P m (λ v s. P s × R v) E
  keeps_and_returns m i k t s p = both_results i (m s).0 (m s).1 (k s p) (t s tt)

module _ {A : Type 0} {Q R : A → Store → Type 0} {E F : Store → Type 0} where
  weaker_result :
      ((a : A) (s : Store) → Q a s → R a s)
      → ((s : Store) → E s → F s)
      → (r : Result Error A) (s : Store) → Post Q E r s
      → Post R F r s
  weaker_result f g (ok a) s p = f a s p
  weaker_result f g (err e) s p = g s p

  pub weaken :
      {P : Store → Type 0} (m : M A)
      → ((a : A) (s : Store) → Q a s → R a s)
      → ((s : Store) → E s → F s)
      → Triple P m Q E
      → Triple P m R F
  weaken m f g t s p = weaker_result f g (m s).0 (m s).1 (t s p)

-- A call that returns something only where a fact on the store before it holds.
module _ {B : Type 0} (T : Type 0) (s : Store) where
  abbrev pub Gives : M B → Type 0
  Gives m = Post (λ _ _. T) (λ _. Unit) (m s).0 (m s).1

  pub gives : T → (m : M B) → Gives m
  gives t m = go (m s).0
    where
      go : (r : Result Error B) → Post (λ _ _. T) (λ _. Unit) r (m s).1
      go (ok b) = t
      go (err e) = tt

  pub Gives-bind : T → {A : Type 0} (m : M A) (f : A → M B) → Gives (m >>= f)
  Gives-bind t m f = gives t (m >>= f)

  Gives-result :
      {A : Type 0} (r : Result Error A) (f : A → M B)
      → ((a : A) → r ≡ ok a → Gives (f a))
      → Post (λ _ _. T) (λ _. Unit) (continue r f s).0 (continue r f s).1
  Gives-result (ok a) f k = k a refl
  Gives-result (err e) f k = tt

  pub Gives-reads :
      {A : Type 0} (r : Store → Result Error A) (f : A → M B)
      → ((a : A) → r s ≡ ok a → Gives (f a))
      → Gives (reads r >>= f)
  unfolding ◌>>=◌
  Gives-reads r f k = Gives-result (r s) f k

  pub Gives-require :
      {A : Type 0} (o : Option A) (e : Error) (f : A → M B)
      → ((a : A) → o ≡ some a → Gives (f a))
      → Gives (require o e >>= f)
  unfolding ◌>>=◌
  Gives-require none e f k = tt
  Gives-require (some a) e f k = k a refl

  pub Gives-raise_if :
      (b : Bool) (e : Error) (m : M B) → (b ≡ false → Gives m) → Gives (raise_if b e >> m)
  unfolding ◌>>=◌
  Gives-raise_if true e m k = tt
  Gives-raise_if false e m k = k refl

  transaction_result :
      (r : Result Error B) (t u : Store)
      → Post (λ _ _. T) (λ _. Unit) r t
      → Post (λ _ _. T) (λ _. Unit) (undone r t u).0 (undone r t u).1
  transaction_result (ok b) t u h = h
  transaction_result (err e) t u h = h

  pub Gives-transaction : (m : M B) → Gives m → Gives (transaction m)
  unfolding transaction
  Gives-transaction m h = transaction_result (m s).0 (m s).1 s h
