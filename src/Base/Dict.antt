-- ===== src/Base/Dict.antt =====
-- Python's `dict` with text keys, where the program only looks up, writes and deletes.
use mathlib.Core.Path.{◌≡◌}
use mathlib.Core.Option.{Option, none, some}
use Prim.Native.String.{String}
use text.Mathlib.Text.{◌==◌}
use text.Mathlib.TextPositions.{eq_refl}
use portable_runtime.Base.Tests.{if◌then◌else◌}

abbrev pub Dict : Type 0 → Type 0
Dict V = String → Option V

module _ {V : Type 0} where
  -- `d[k] = v`
  abbrev pub put : String → V → Dict V → Dict V
  put k v d j = if k == j then some v else d j

  -- `del d[k]`
  abbrev pub remove : String → Dict V → Dict V
  remove k d j = if k == j then none else d j

  pub put_self : (k : String) (v : V) (d : Dict V) → put k v d k ≡ some v
  put_self k v d = rw (eq_refl k)

  pub remove_self : (k : String) (d : Dict V) → remove k d k ≡ none
  remove_self k d = rw (eq_refl k)
