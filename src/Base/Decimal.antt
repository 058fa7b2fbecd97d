-- ===== src/Base/Decimal.antt =====
-- Reading a number in decimal: printing loses nothing, and its fuel is enough.
use Prim.Native.Nat.{ℕ, zero, suc, ◌+◌, ◌-◌, ◌*◌, ◌/◌, ◌%◌, ◌≤◌, ◌<◌}
use Prim.Native.Char.{code}
use Prim.Native.String.{String}
use mathlib.Core.List.{List, [], ◌∷◌}
use mathlib.Core.Logic.{inl, inr}
use mathlib.Core.Path.{◌≡◌, refl, sym, ap, ◌∙◌}
use native.Mathlib.Omega.{arith}
use text.Mathlib.TextLemmas.{nil-append, cons-append}
use rdfm.Base.Tests.{ltb, Bool-cases}
use rdfm.Base.Text.{◌<>◌, nth, digit, digits_before, to_string, show}

-- The value of the digits of `s`, read after those of `n`.
pub value : ℕ → String → ℕ
value n String.[] = n
value n (String.◌∷◌ c s) = value (10 * n + (code c - 48)) s

value-append : (n : ℕ) (s t : String) → value n (s <> t) ≡ value (value n s) t
unfolding value
value-append n String.[] t = rw (nil-append t) refl
value-append n (String.◌∷◌ c s) t =
    rw (cons-append c s t) (value-append (10 * n + (code c - 48)) s t)

-- The first `m` of the texts are the digits from `i` on.
abbrev ReadFrom : ℕ → ℕ → ℕ → List String → Type 0
ReadFrom n i zero ds = Unit
ReadFrom n i (suc m) [] = ⊥
ReadFrom n i (suc m) (d ∷ ds) = (value n d ≡ 10 * n + i) × ReadFrom n (suc i) m ds

value-nth :
    (n i m k : ℕ) (ds : List String)
    → ReadFrom n i m ds
    → k < m
    → value n (nth ds k) ≡ 10 * n + (i + k)
value-nth n i zero k ds h lt = absurd (omega arith)
value-nth n i (suc m) k [] h lt = absurd h
value-nth n i (suc m) zero (d ∷ ds) h lt = h.0 ∙ omega arith
value-nth n i (suc m) (suc k) (d ∷ ds) h lt =
    value-nth n (suc i) m k ds h.1 (omega arith) ∙ omega arith

value-digit : (n d : ℕ) → d < 10 → value n (digit d) ≡ 10 * n + d
unfolding digit value
value-digit n d h =
    value-nth n 0 10 d
      ("0" ∷ "1" ∷ "2" ∷ "3" ∷ "4" ∷ "5" ∷ "6" ∷ "7" ∷ "8" ∷ "9" ∷ "a" ∷ "b" ∷ "c" ∷ "d" ∷ "e" ∷ "f"
        ∷ [])
      (omega arith) h
    ∙ omega arith

-- With fuel for `n` and more, the digits printed before a text are read as `n`.
value-digits_before :
    (fuel n : ℕ) (after : String)
    → n ≤ fuel
    → value 0 (digits_before 10 fuel n after) ≡ value n after
unfolding digits_before
value-digits_before zero n after h =
    value-append 0 (digit n) after
    ∙ ap (λ m. value m after) (value-digit 0 n (omega arith) ∙ omega arith)
value-digits_before (suc fuel) n after h = elim (Bool-cases (ltb n 10)) [
  | inl small ↦ rw small (
      value-append 0 (digit n) after
      ∙ ap (λ m. value m after) (value-digit 0 n (ground arith) ∙ omega arith))
  | inr large ↦ rw large (
      value-digits_before fuel (n / 10) (digit (n % 10) <> after) (ground arith)
      ∙ value-append (n / 10) (digit (n % 10)) after
      ∙ ap (λ m. value m after) (value-digit (n / 10) (n % 10) (omega arith) ∙ omega arith))
]

-- What is printed is read back.
pub value-show : (n : ℕ) → value 0 (show n) ≡ n
unfolding show to_string value
value-show n = value-digits_before n n "" (omega arith)

pub show_inj : (m n : ℕ) → show m ≡ show n → m ≡ n
show_inj m n e = sym (value-show m) ∙ ap (value 0) e ∙ value-show n
