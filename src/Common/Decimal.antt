-- ===== src/Common/Decimal.antt =====
-- A whole number in a template string: its decimal digits.
use Prim.Native.Nat.{ℕ, zero, suc, ◌+◌, ◌-◌, ◌*◌, ◌/◌, ◌%◌, ◌<◌}
use mathlib.Core.Path.{◌≡◌, refl, sym, ap, ◌∙◌}
use mathlib.Core.List.{[], ◌∷◌, ◌++◌}
use native.Mathlib.Omega.{arith}
use obsidian_yandex_disk_syn.Common.Tests.{ltb, if◌then◌else◌, Bool-cases}
use mathlib.Core.Logic.{inl, inr}
use obsidian_yandex_disk_syn.Common.Text.{Text}

-- The fuel is above the number, and a digit less needs less of it.
digits_from : ℕ → ℕ → Text
digits_from zero n = []
digits_from (suc f) n =
    let more = digits_from f (n / 10) ++ (b'0' + n % 10) ∷ [] in
    if ltb n 10 then (b'0' + n) ∷ [] else more

unfoldable pub decimal : ℕ → Text
unfolding digits_from
decimal n = digits_from (suc n) n

value_from : ℕ → Text → ℕ
value_from acc [] = acc
value_from acc (d ∷ ds) = value_from (acc * 10 + (d - b'0')) ds

value_from-append :
    (acc : ℕ) (ds : Text) (d : ℕ)
    → value_from acc (ds ++ d ∷ []) ≡ value_from acc ds * 10 + (d - b'0')
unfolding value_from
value_from-append acc [] d = refl
value_from-append acc (x ∷ ds) d = value_from-append (acc * 10 + (x - b'0')) ds d

value_from-digits_from : (f n : ℕ) → n < f → value_from 0 (digits_from f n) ≡ n
unfolding digits_from value_from
value_from-digits_from zero n h = elim h [ ]
value_from-digits_from (suc f) n h = elim (Bool-cases (ltb n 10)) [
  | inl one ↦ rw one (omega arith)
  | inr more ↦ rw more (
      rw (value_from-append 0 (digits_from f (n / 10)) (b'0' + n % 10))
        (rw (value_from-digits_from f (n / 10) (ground arith)) (omega arith)))
]

pub decimal-injective : (m n : ℕ) → decimal m ≡ decimal n → m ≡ n
unfolding decimal
decimal-injective m n h =
    sym (value_from-digits_from (suc m) m (omega arith))
    ∙ (ap (value_from 0) h ∙ value_from-digits_from (suc n) n (omega arith))
