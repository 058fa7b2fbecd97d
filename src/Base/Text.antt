-- ===== src/Base/Text.antt =====
-- Text: template strings, and numbers printed in a radix.
use Prim.Native.Nat.{ℕ, zero, suc, ◌+◌, ◌/◌, ◌%◌, ◌≤◌, ◌<◌}
use Prim.Native.Char.{Char, code}
use Prim.Native.String
use Prim.Native.String.{String}
use mathlib.Core.Option.{Option, none, some}
use mathlib.Core.Bool.{Bool, true, false, ◌||◌}
use mathlib.Core.List.{List, [], ◌∷◌}
use mathlib.Core.Path.{◌≡◌, refl}
use native.Mathlib.Omega.{arith}
use text.Mathlib.TextLemmas.{nil-append, cons-append}
use rdfm.Base.Tests.{ltb, ◌==◌, nat_eq, if◌then◌else◌}
use rdfm.Base.Lists.{length}

infixr 65 ◌<>◌
abbrev pub ◌<>◌ : String → String → String
s <> t = String.◌++◌ s t

abbrev pub nth : List String → ℕ → String
nth [] i = ""
nth (d ∷ ds) zero = d
nth (d ∷ ds) (suc i) = nth ds i

-- The digit of a number below 16.
unfoldable pub digit : ℕ → String
digit = nth (
    "0" ∷ "1" ∷ "2" ∷ "3" ∷ "4" ∷ "5" ∷ "6" ∷ "7" ∷ "8" ∷ "9" ∷ "a" ∷ "b" ∷ "c" ∷ "d" ∷ "e" ∷ "f"
    ∷ [])

abbrev AllShort : List String → Type 0
AllShort [] = Unit
AllShort (d ∷ ds) = (String.count d ≤ 1) × AllShort ds

count-nth : (ds : List String) (i : ℕ) → AllShort ds → String.count (nth ds i) ≤ 1
count-nth [] i h = omega arith
count-nth (d ∷ ds) zero h = h.0
count-nth (d ∷ ds) (suc i) h = count-nth ds i h.1

pub count-digit : (n : ℕ) → String.count (digit n) ≤ 1
unfolding digit
count-digit n =
    count-nth
      ("0" ∷ "1" ∷ "2" ∷ "3" ∷ "4" ∷ "5" ∷ "6" ∷ "7" ∷ "8" ∷ "9" ∷ "a" ∷ "b" ∷ "c" ∷ "d" ∷ "e" ∷ "f"
        ∷ [])
      n (omega arith)

-- The digits of `n`, put before `after`. The fuel `n` is enough, since `n / radix < n`.
unfoldable pub digits_before : ℕ → ℕ → ℕ → String → String
digits_before radix zero n after = digit n <> after
digits_before radix (suc fuel) n after =
    let longer = digits_before radix fuel (n / radix) (digit (n % radix) <> after) in
    if ltb n radix then digit n <> after else longer

-- `n.toString(radix)` for a radix from 2 to 16.
unfoldable pub to_string : ℕ → ℕ → String
unfolding digits_before digit
to_string radix n = digits_before radix n n ""

-- A number in a template string, or added to a string.
unfoldable pub show : ℕ → String
unfolding to_string
show n = to_string 10 n

-- A number that may be undefined, in a string.
pub show_code : Option ℕ → String
unfolding show
show_code none = "undefined"
show_code (some n) = show n

-- Integers; `negsuc n` is -(n + 1).
pub data ℤ : Type 0 where
  pos : ℕ → ℤ
  negsuc : ℕ → ℤ

pub show_int : ℤ → String
unfolding show
show_int (pos n) = show n
show_int (negsuc n) = "-" <> show (n + 1)

-- `s.includes(c)` and `s.split(c)` for one character.
unfoldable pub has_char : ℕ → String → Bool
has_char sep String.[] = false
has_char sep (String.◌∷◌ c s) = code c == sep || has_char sep s

abbrev grow : Char → List String → List String
grow c [] = []
grow c (part ∷ parts) = String.◌∷◌ c part ∷ parts

unfoldable pub split : ℕ → String → List String
split sep String.[] = "" ∷ []
split sep (String.◌∷◌ c s) =
    let parts = split sep s in if code c == sep then "" ∷ parts else grow c parts

-- How often a character stands in a text.
unfoldable pub count_char : ℕ → String → ℕ
count_char sep String.[] = 0
count_char sep (String.◌∷◌ c s) = (if code c == sep then 1 else 0) + count_char sep s

pub count_char-append :
    (sep : ℕ) (s t : String) → count_char sep (s <> t) ≡ count_char sep s + count_char sep t
unfolding count_char
count_char-append sep String.[] t = rw (nil-append t) (omega arith)
count_char-append sep (String.◌∷◌ c s) t =
    rw (cons-append c s t) (omega (arith, count_char-append sep s t))

length-grow : (c : Char) (parts : List String) → length (grow c parts) ≡ length parts
length-grow c [] = refl
length-grow c (part ∷ parts) = refl

-- Splitting gives one part more than there are separators.
pub length-split : (sep : ℕ) (s : String) → length (split sep s) ≡ suc (count_char sep s)
unfolding split count_char
length-split sep String.[] = refl
length-split sep (String.◌∷◌ c s) = ground (arith, length-split sep s, length-grow c (split sep s))

pub has_char-count_char : (sep : ℕ) (s : String) → 0 < count_char sep s → has_char sep s ≡ true
unfolding has_char count_char
has_char-count_char sep String.[] h = absurd (omega arith)
has_char-count_char sep (String.◌∷◌ c s) h = ground (arith, has_char-count_char sep s)
