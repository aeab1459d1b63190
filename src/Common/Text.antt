-- ===== src/Common/Text.antt =====
-- A JavaScript string as its sequence of UTF-16 code units, with the string methods that the
-- source calls. `codes` writes a literal.
use Prim.Native.Nat.{ℕ}
use Prim.Native.Char.{code}
use Prim.Native.String.{String}
use mathlib.Core.Path.{◌≡◌, refl}
use mathlib.Core.Bool.{Bool, true, false}
use mathlib.Core.Option.{Option, none, some}
use mathlib.Core.List.{List, [], ◌∷◌, ◌++◌}
use native.Mathlib.Omega.{arith}
use obsidian_yandex_disk_syn.Common.Tests.{if◌then◌else◌}
use obsidian_yandex_disk_syn.Common.Equality.{◌==◌, nat_eq, list_eq}

abbrev pub Text : Type 0
Text = List ℕ

abbrev pub codes : String → Text
codes String.[] = []
codes (String.◌∷◌ c s) = code c ∷ codes s

-- `s.startsWith(p)`, as the rest of `s` after `p`.
abbrev pub strip_prefix : Text → Text → Option Text
strip_prefix [] s = some s
strip_prefix (c ∷ p) [] = none
strip_prefix (c ∷ p) (d ∷ s) = if c == d then strip_prefix p s else none

abbrev pub starts_with : Text → Text → Bool
starts_with s p = elim (strip_prefix p s) [ none ↦ false | some _ ↦ true ]

pub strip_prefix-append : (p s : Text) → strip_prefix p (p ++ s) ≡ some s
strip_prefix-append [] s = refl
strip_prefix-append (c ∷ p) s = ground (arith, strip_prefix-append p s)

pub append-strip_prefix : (p s t : Text) → strip_prefix p s ≡ some t → s ≡ p ++ t
append-strip_prefix [] s t h = ground arith
append-strip_prefix (c ∷ p) [] t h = cc
append-strip_prefix (c ∷ p) (d ∷ s) t h = ground (arith, append-strip_prefix p s t)

-- `s.replace(/\/+$/, "")`, built from the end of the text.
unfoldable pub trim_cons : ℕ → Text → Text
trim_cons c [] = if c == b'/' then [] else c ∷ []
trim_cons c (d ∷ t) = c ∷ d ∷ t

unfoldable pub trim_slashes : Text → Text
unfolding trim_cons
trim_slashes [] = []
trim_slashes (c ∷ s) = trim_cons c (trim_slashes s)

-- `s.split("/")`, built from the end of the text.
unfoldable pub split_cons : ℕ → List Text → List Text
split_cons c [] = (c ∷ []) ∷ []
split_cons c (part ∷ parts) = if c == b'/' then [] ∷ part ∷ parts else (c ∷ part) ∷ parts

unfoldable pub split_slash : Text → List Text
unfolding split_cons
split_slash [] = [] ∷ []
split_slash (c ∷ s) = split_cons c (split_slash s)

-- `parts.join("/")`
unfoldable pub join_slash : List Text → Text
join_slash [] = []
join_slash (part ∷ []) = part
join_slash (part ∷ next ∷ parts) = part ++ b'/' ∷ join_slash (next ∷ parts)

-- `s.slice(0, s.lastIndexOf(c))`, where there is such a unit.
unfoldable pub cut_last : ℕ → Text → Option Text
cut_last c [] = none
cut_last c (d ∷ s) = elim (cut_last c s) [
  | some t ↦ some (d ∷ t)
  | none ↦ if d == c then some [] else none
]

pub cut_last-append : (c : ℕ) (s t : Text) → cut_last c t ≡ none → cut_last c (s ++ c ∷ t) ≡ some s
unfolding cut_last
cut_last-append c [] t h = ground arith
cut_last-append c (d ∷ s) t h = ground (arith, cut_last-append c s t h)
