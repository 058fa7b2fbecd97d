-- ===== src/Home/Colour.antt =====
-- `stringToColour` of HomeView.vue.
pub mod Laws
use Prim.Native.Nat.{max}
use rdfm.Base.{ℕ, zero, suc, ◌+◌, ◌-◌, ◌*◌, ◌%◌, String, ◌<>◌, List, [], ◌∷◌, to_string}
use Prim.Native.String.{count}

-- One round of the loop, for the UTF-16 code of a character.
abbrev next_hash : ℕ → ℕ → ℕ
next_hash hash code = (2 * hash + code * 3 + 3) % 0xffffff

pub hash_from : ℕ → List ℕ → ℕ
hash_from hash [] = hash
hash_from hash (code ∷ codes) = hash_from (next_hash hash code) codes

zeros : ℕ → String
zeros zero = ""
zeros (suc n) = "0" <> zeros n

-- `s.padStart(width, '0')`
pad_start : ℕ → String → String
unfolding zeros
pad_start width s = zeros (width - count s) <> s

pub string_to_colour : List ℕ → String
unfolding hash_from pad_start to_string
string_to_colour codes = "#" <> pad_start 6 (to_string 16 (hash_from 0 codes))
