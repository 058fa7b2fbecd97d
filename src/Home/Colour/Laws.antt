-- ===== src/Home/Colour/Laws.antt =====
-- Every colour is `#` and six digits.
use Prim.Native.String.{count}
use text.Mathlib.TextLemmas.{length-append}
use native.Mathlib.Nat.{pow-suc}
use rdfm.Base.{ℕ, zero, suc, ◌+◌, ◌/◌, ◌%◌, ◌^◌, ◌≤◌, ◌<◌, String, ◌<>◌, List, [], ◌∷◌, ◌≡◌}
use rdfm.Base.{refl, arith, to_string, digits_before, digit, count-digit, ltb, true}
use rdfm.Home.Colour.{hash_from, next_hash, zeros, pad_start, string_to_colour}

pub hash_from-lt : (hash : ℕ) (codes : List ℕ) → hash < 0xffffff → hash_from hash codes < 0xffffff
unfolding hash_from
hash_from-lt hash [] h = h
hash_from-lt hash (code ∷ codes) h = hash_from-lt (next_hash hash code) codes (omega arith)

count-zeros : (n : ℕ) → count (zeros n) ≡ n
unfolding zeros
count-zeros zero = refl
count-zeros (suc n) = rw length-append (omega (arith, count-zeros n))

count-digits_before :
    (k fuel n : ℕ) (after : String)
    → n < 16 ^ suc k
    → count (digits_before 16 fuel n after) ≤ suc k + count after
unfolding digits_before
count-digits_before k zero n after h = rw length-append (omega (arith, count-digit n))
count-digits_before zero (suc fuel) n after h =
    let small : ltb n 16 ≡ true = ground arith in
    rw (small, length-append) (omega (arith, count-digit n))
count-digits_before (suc k) (suc fuel) n after h =
    let ih =
      count-digits_before k fuel (n / 16) (digit (n % 16) <> after)
        (omega (arith, pow-suc 16 (suc k))) in
    ground (
      arith,
      ih,
      length-append (digit n) after,
      length-append (digit (n % 16)) after,
      count-digit n,
      count-digit (n % 16),
    )

-- The colour of every role name has seven characters.
pub count-string_to_colour : (codes : List ℕ) → count (string_to_colour codes) ≡ 7
unfolding string_to_colour pad_start to_string
count-string_to_colour codes =
    let n = hash_from 0 codes in
    let below : n < 0xffffff = hash_from-lt 0 codes (omega arith) in
    let short = count-digits_before 5 n n "" (omega arith) in
    rw (length-append, length-append, count-zeros) (omega (arith, short))
