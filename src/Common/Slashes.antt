-- ===== src/Common/Slashes.antt =====
-- Laws of splitting, joining and trimming paths at slashes.
use Prim.Native.Nat.{ℕ}
use mathlib.Core.Path.{◌≡◌, refl, ap, sym, ◌∙◌}
use mathlib.Core.Logic.{◌≢◌, inl, inr}
use mathlib.Core.Bool.{true, false≢true}
use mathlib.Core.List.{List, [], ◌∷◌, ◌++◌, append_assoc}
use native.Mathlib.Omega.{arith}
use obsidian_yandex_disk_syn.Common.Equality.{◌==◌, nat_eq}
use obsidian_yandex_disk_syn.Common.Tests.{Bool-cases, Option-cases}
use obsidian_yandex_disk_syn.Common.Text.{
  Text, strip_prefix, starts_with, strip_prefix-append, append-strip_prefix, trim_slashes,
  trim_cons, split_slash, split_cons, join_slash,
}

pub starts_with-append : (p s : Text) → starts_with (p ++ s) p ≡ true
starts_with-append p s = rw (starts_with, strip_prefix-append p s)

trim_cons-split : (c : ℕ) (s t : Text) → (u : Text) × (c ∷ (s ++ t) ≡ trim_cons c s ++ u)
unfolding trim_cons
trim_cons-split c [] t = elim (Bool-cases (c == b'/')) [ inl e ↦ (c ∷ t, rw e) | inr e ↦ (t, rw e) ]
trim_cons-split c (d ∷ s) t = (t, refl)

pub append-starts_with : (s p : Text) → starts_with s p ≡ true → (rest : Text) × (s ≡ p ++ rest)
append-starts_with s p h = elim (Option-cases (strip_prefix p s)) [
  | inl e ↦ absurd (false≢true (rw (starts_with, e) at h))
  | inr (rest, e) ↦ (rest, append-strip_prefix p s rest e)
]

-- Trimming takes away an end of the text.
pub trim_slashes-split : (s : Text) → (t : Text) × (s ≡ trim_slashes s ++ t)
unfolding trim_slashes
trim_slashes-split [] = ([], refl)
trim_slashes-split (c ∷ s) =
    let (t, e) = trim_slashes-split s in
    let (u, f) = trim_cons-split c (trim_slashes s) t in (u, ap (◌∷◌ c) e ∙ f)

split_cons-ne-nil : (c : ℕ) (parts : List Text) → split_cons c parts ≢ []
unfolding split_cons
split_cons-ne-nil c [] = λ h. cc
split_cons-ne-nil c (part ∷ parts) = ground arith

pub split_slash-ne-nil : (s : Text) → split_slash s ≢ []
unfolding split_slash
split_slash-ne-nil [] = λ h. cc
split_slash-ne-nil (c ∷ s) = split_cons-ne-nil c (split_slash s)

join-split_cons :
    (c : ℕ) (parts : List Text)
    → parts ≢ []
    → join_slash (split_cons c parts) ≡ c ∷ join_slash parts
unfolding join_slash split_cons
join-split_cons c [] h = absurd (h refl)
join-split_cons c (part ∷ []) h = ground arith
join-split_cons c (part ∷ next ∷ parts) h = ground arith

pub join-split : (s : Text) → join_slash (split_slash s) ≡ s
unfolding join_slash split_slash
join-split [] = refl
join-split (c ∷ s) =
    join-split_cons c (split_slash s) (split_slash-ne-nil s) ∙ ap (◌∷◌ c) (join-split s)

pub join-append :
    (x y : Text) (xs ys : List Text)
    → join_slash ((x ∷ xs) ++ y ∷ ys) ≡ join_slash (x ∷ xs) ++ b'/' ∷ join_slash (y ∷ ys)
unfolding join_slash
join-append x y [] ys = refl
join-append x y (z ∷ xs) ys = rw (join-append z y xs ys) (sym (append_assoc x _ _))

split_cons-append :
    (c : ℕ) (xs ys : List Text) → xs ≢ [] → split_cons c (xs ++ ys) ≡ split_cons c xs ++ ys
unfolding split_cons
split_cons-append c [] ys h = absurd (h refl)
split_cons-append c (x ∷ xs) ys h = ground arith

split_cons-slash : (parts : List Text) → parts ≢ [] → split_cons b'/' parts ≡ [] ∷ parts
unfolding split_cons
split_cons-slash [] h = absurd (h refl)
split_cons-slash (x ∷ xs) h = ground arith

pub split-append : (s t : Text) → split_slash (s ++ b'/' ∷ t) ≡ split_slash s ++ split_slash t
unfolding split_slash
split-append [] t = split_cons-slash (split_slash t) (split_slash-ne-nil t)
split-append (c ∷ s) t =
    ap (split_cons c) (split-append s t)
    ∙ split_cons-append c (split_slash s) (split_slash t) (split_slash-ne-nil s)

trim-trim_cons :
    (c : ℕ) (s : Text) → trim_slashes s ≡ s → trim_slashes (trim_cons c s) ≡ trim_cons c s
unfolding trim_slashes
trim-trim_cons c [] h = ground arith
trim-trim_cons c (d ∷ s) h = rw h

-- A text with no slash at its end is left alone.
pub trim_slashes_idempotent : (s : Text) → trim_slashes (trim_slashes s) ≡ trim_slashes s
unfolding trim_slashes
trim_slashes_idempotent [] = refl
trim_slashes_idempotent (c ∷ s) = trim-trim_cons c (trim_slashes s) (trim_slashes_idempotent s)
