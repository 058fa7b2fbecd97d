-- ===== src/Base/State.antt =====
-- Code that reads and changes a state: an `async` function is run to its end, its awaits included.
abbrev pub Exec : Type 0 → Type 0 → Type 0
Exec S A = S → A × S

module _ {S A : Type 0} where
  abbrev pub pure : A → Exec S A
  pure a s = (a, s)

  abbrev pub gets : (S → A) → Exec S A
  gets f s = (f s, s)

abbrev pub modify : {S : Type 0} → (S → S) → Exec S (Unit {0})
modify f s = (tt, f s)

module _ {S A B : Type 0} where
  infixl 5 ◌>>=◌
  abbrev pub ◌>>=◌ : Exec S A → (A → Exec S B) → Exec S B
  ◌>>=◌ m f s = let r = m s in f r.0 r.1

infixl 5 ◌>>◌
abbrev pub ◌>>◌ : {S B : Type 0} → Exec S (Unit {0}) → Exec S B → Exec S B
m >> k = m >>= λ _. k
