-- ===== src/Responsibility/Models/Equality.antt =====
-- Equality of the objects is decided field by field, as on their JSON dumps: with its entries in the order
-- of the keys, a dict equals another exactly if the lists do.
use native.Mathlib.Decide.{ℕ_discrete}
use portable_runtime.Base.{String-discrete}
use portable_runtime.Responsibility.Models.{ResponsibilityObject}
use portable_runtime.Responsibility.Models.Resources.{ResourceVector}

pub ResponsibilityObject-discrete : Discrete ResponsibilityObject
ResponsibilityObject-discrete = hlevel (String-discrete, ℕ_discrete)

pub ResourceVector-discrete : Discrete ResourceVector
ResourceVector-discrete = hlevel (String-discrete, ℕ_discrete)
