-- ===== src/Base/Result.antt =====
-- A call that may raise: its value, or the error that it raised.
use mathlib.Core.Bool.{Bool, true, false}

pub data Result {ℓ} (E A : Type ℓ) : Type ℓ where
  ok : A → Result E A
  err : E → Result E A

infixl 5 ◌>>=◌ ◌>>◌
abbrev pub ◌>>=◌ : {E A B : Type 0} → Result E A → (A → Result E B) → Result E B
ok a >>= f = f a
err e >>= f = err e

abbrev pub ◌>>◌ : {E A B : Type 0} → Result E A → Result E B → Result E B
m >> k = m >>= λ _. k

-- `if test: raise e`
abbrev pub raise_if : {E : Type 0} → Bool → E → Result E Unit
raise_if true e = err e
raise_if false e = ok tt

-- The call did not raise.
abbrev pub is_ok : {E A : Type 0} → Result E A → Bool
is_ok (ok _) = true
is_ok (err _) = false
