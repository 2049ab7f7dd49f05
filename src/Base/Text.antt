-- ===== src/Base/Text.antt =====
-- The methods of Python's `str` that the program uses, on native texts.
use Prim.Native.Char.{Char, code}
use Prim.Native.String.{String, ◌++◌}
use mathlib.Core.Path.{◌≡◌, refl, sym, ◌∙◌}
use mathlib.Core.Bool.{Bool, true, false, true, false, ◌&&◌, ◌||◌}
use mathlib.Core.List.{List, [], ◌∷◌}
use mathlib.Core.Option
use mathlib.Core.Option.{Option, none, some}
use mathlib.Core.Logic.{inl, inr}
use native.Mathlib.Omega.{arith}
use text.Mathlib.TextEquality.{eq_iff}
use text.Mathlib.TextLemmas.{append-nil, nil-append, cons-append, append_cancel_right, nil≢cons}
use text.Mathlib.TextPositions.{eq_refl}
use portable_runtime.Base.Tests.{ltb, leb, eqb, Bool-cases, Option-cases, if◌then◌else◌}
use text.Mathlib.Text.{◌==◌}
use Prim.Native.Nat.{ℕ}

-- `str.isspace` on one character: the white space that `strip` removes.
is_space : ℕ → Bool
is_space c =
    (leb 9 c && leb c 13)
    || (leb 28 c && leb c 32)
    || eqb c 133
    || eqb c 160
    || eqb c 5760
    || (leb 8192 c && leb c 8202)
    || eqb c 8232
    || eqb c 8233
    || eqb c 8239
    || eqb c 8287
    || eqb c 12288

lstrip : String → String
lstrip String.[] = String.[]
lstrip (String.◌∷◌ c s) = let rest = lstrip s in if is_space (code c) then rest else String.◌∷◌ c s

rstrip_cons : Char → String → String
rstrip_cons c String.[] = if is_space (code c) then String.[] else String.◌∷◌ c String.[]
rstrip_cons c (String.◌∷◌ d s) = String.◌∷◌ c (String.◌∷◌ d s)

rstrip : String → String
rstrip String.[] = String.[]
rstrip (String.◌∷◌ c s) = rstrip_cons c (rstrip s)

-- `s.strip()`
unfoldable pub strip : String → String
unfolding is_space lstrip rstrip_cons rstrip
strip s = rstrip (lstrip s)

-- `not s.strip()`
unfoldable pub is_blank : String → Bool
unfolding strip
is_blank s = strip s == ""

-- `p[:-n]` for a text `p` that ends with `t`, of length n; `none` where `p.endswith(t)` fails.
unfoldable pub drop_suffix : String → String → Option String
drop_suffix t String.[] = if t == "" then some "" else none
drop_suffix t (String.◌∷◌ c s) =
    let rest = drop_suffix t s in
    if t == String.◌∷◌ c s then some "" else Option.map (λ (r : String). String.◌∷◌ c r) rest

drop_at_end :
    (t q : String) (b : Bool)
    → (b ≡ true → t ≡ "")
    → (if b then some "" else none) ≡ some q
    → "" ≡ q ++ t
drop_at_end t q true k h = let e : "" ≡ q = cc in rw (k refl) (e ∙ sym (append-nil q))
drop_at_end t q false k h = cc

-- Where it answers, the text is the answer followed by the suffix.
pub drop_suffix-append : (t p q : String) → drop_suffix t p ≡ some q → p ≡ q ++ t
unfolding drop_suffix
drop_suffix-append t String.[] q h = drop_at_end t q (t == "") ((eq_iff t "").0) h
drop_suffix-append t (String.◌∷◌ c s) q h = elim (Bool-cases (t == String.◌∷◌ c s)) [
  | inl whole ↦ ground (arith, eq_iff t (String.◌∷◌ c s), nil-append t)
  | inr part ↦ elim (Option-cases (drop_suffix t s)) [
    | inl e ↦ ground arith
    | inr (r, e) ↦ ground (arith, drop_suffix-append t s r e, cons-append c r t)
  ]
]

drop_suffix_at_start : (t : String) → drop_suffix t t ≡ some ""
unfolding drop_suffix
drop_suffix_at_start String.[] = refl
drop_suffix_at_start (String.◌∷◌ c s) = rw (eq_refl (String.◌∷◌ c s))

-- A text that is followed by the suffix is what is left without it.
pub append-drop_suffix : (t q : String) → drop_suffix t (q ++ t) ≡ some q
unfolding drop_suffix
append-drop_suffix t String.[] = rw (nil-append t) (drop_suffix_at_start t)
append-drop_suffix t (String.◌∷◌ c q) =
    rw (cons-append c q t) (elim (Bool-cases (t == String.◌∷◌ c (q ++ t))) [
      | inl e ↦ absurd (
          nil≢cons (
            append_cancel_right "" (String.◌∷◌ c q) t
              (nil-append t ∙ ((eq_iff t (String.◌∷◌ c (q ++ t))).0 e ∙ sym (cons-append c q t)))))
      | inr e ↦ rw (e, append-drop_suffix t q)
    ])

-- `separator.join(texts)`
unfoldable pub join : String → List String → String
join separator [] = ""
join separator (s ∷ []) = s
join separator (s ∷ t ∷ ts) = s ++ separator ++ join separator (t ∷ ts)

-- `str.lower`, which the program takes from Python: all that the model uses of it is that it leaves
-- a text of lower-case ASCII letters and other ASCII characters alone.
abbrev pub is_plain : String → Bool
is_plain String.[] = true
is_plain (String.◌∷◌ c s) = (ltb (code c) 65 || (ltb 90 (code c) && ltb (code c) 128)) && is_plain s

pub record CaseMapping : Type 0 where
  pub lower : String → String
  pub lower_plain : (s : String) → is_plain s ≡ true → lower s ≡ s

strip_both : strip " a b\t" ≡ "a b"
unfolding strip
strip_both = refl

drop_wildcard : drop_suffix ".*" "code.*" ≡ some "code"
unfolding drop_suffix
drop_wildcard = refl
