-- ===== src/Base/Lists.antt =====
-- The methods of JavaScript's arrays that the program calls: `some` is `any`, `every` is `all`.
use Prim.Native.Nat.{ℕ, zero, suc, ◌+◌}
use mathlib.Core.Path.{◌≡◌, refl, sym, ap, ◌∙◌}
use mathlib.Core.Logic.{◌≢◌, ◌↔◌, ◌⊎◌, inl, inr}
use mathlib.Core.Bool.{Bool, true, false, ◌&&◌, ◌||◌}
use mathlib.Core.Option.{Option, none, some}
use mathlib.Core.List.{List, [], ◌∷◌, ◌++◌, Memᴰ}
use native.Mathlib.Omega.{arith}
use rdfm.Base.Tests.{Eq, ◌==◌, if◌then◌else◌, Bool-cases}

module _ {ℓ} {A : Type ℓ} where
  abbrev pub length : List A → ℕ
  length [] = 0
  length (x ∷ xs) = suc (length xs)

  -- `list[i]`, and the list after `list[i] = x`; nothing happens out of range.
  unfoldable pub get_elem? : ℕ → List A → Option A
  get_elem? i [] = none
  get_elem? zero (x ∷ xs) = some x
  get_elem? (suc i) (x ∷ xs) = get_elem? i xs

  unfoldable pub set : ℕ → A → List A → List A
  set i a [] = []
  set zero a (x ∷ xs) = a ∷ xs
  set (suc i) a (x ∷ xs) = x ∷ set i a xs

  pub get_elem?-set_same :
      (i : ℕ) (a : A) (xs : List A) {x : A}
      → get_elem? i xs ≡ some x
      → get_elem? i (set i a xs) ≡ some a
  unfolding get_elem? set
  get_elem?-set_same i a [] h = cc
  get_elem?-set_same zero a (x ∷ xs) h = refl
  get_elem?-set_same (suc i) a (x ∷ xs) h = get_elem?-set_same i a xs h

  pub get_elem?-set_other :
      (i j : ℕ) (a : A) (xs : List A) → i ≢ j → get_elem? j (set i a xs) ≡ get_elem? j xs
  unfolding get_elem? set
  get_elem?-set_other i j a [] h = refl
  get_elem?-set_other zero zero a (x ∷ xs) h = absurd (h refl)
  get_elem?-set_other zero (suc j) a (x ∷ xs) h = refl
  get_elem?-set_other (suc i) zero a (x ∷ xs) h = refl
  get_elem?-set_other (suc i) (suc j) a (x ∷ xs) h =
      get_elem?-set_other i j a xs (λ e. h (ap suc e))

  pub get_elem?-append :
      (i : ℕ) (xs ys : List A) {x : A} → get_elem? i xs ≡ some x → get_elem? i (xs ++ ys) ≡ some x
  unfolding get_elem?
  get_elem?-append i [] ys h = cc
  get_elem?-append zero (x ∷ xs) ys h = h
  get_elem?-append (suc i) (x ∷ xs) ys h = get_elem?-append i xs ys h

  abbrev pub any : (A → Bool) → List A → Bool
  any p [] = false
  any p (x ∷ xs) = p x || any p xs

  abbrev pub all : (A → Bool) → List A → Bool
  all p [] = true
  all p (x ∷ xs) = p x && all p xs

  abbrev pub filter : (A → Bool) → List A → List A
  filter p [] = []
  filter p (x ∷ xs) = let rest = filter p xs in if p x then x ∷ rest else rest

  abbrev pub find : (A → Bool) → List A → Option A
  find p [] = none
  find p (x ∷ xs) = let rest = find p xs in if p x then some x else rest

  -- `list.sort(…)`, which is stable; `le a b` says that `a` may stand before `b`.
  unfoldable pub place : (A → A → Bool) → A → List A → List A
  place le x [] = x ∷ []
  place le x (y ∷ ys) = let rest = place le x ys in if le x y then x ∷ y ∷ ys else y ∷ rest

  unfoldable pub sort : (A → A → Bool) → List A → List A
  unfolding place
  sort le [] = []
  sort le (x ∷ xs) = place le x (sort le xs)

  any-place :
      (p : A → Bool) (le : A → A → Bool) (x : A) (ys : List A)
      → any p (place le x ys) ≡ any p (x ∷ ys)
  unfolding place
  any-place p le x [] = refl
  any-place p le x (y ∷ ys) = ground (arith, any-place p le x ys)

  -- Sorting keeps what is in a list.
  pub any-sort : (p : A → Bool) (le : A → A → Bool) (xs : List A) → any p (sort le xs) ≡ any p xs
  unfolding sort
  any-sort p le [] = refl
  any-sort p le (x ∷ xs) = ground (arith, any-place p le x (sort le xs), any-sort p le xs)

  pub length-append : (xs ys : List A) → length (xs ++ ys) ≡ length xs + length ys
  length-append [] ys = omega arith
  length-append (x ∷ xs) ys = omega (arith, length-append xs ys)

  -- `any` finds a member at which the test passes.
  pub any_sound :
      (p : A → Bool) (xs : List A) → any p xs ≡ true → (x : A) × Memᴰ x xs × (p x ≡ true)
  any_sound p [] h = cc
  any_sound p (x ∷ xs) h = elim (Bool-cases (p x)) [
    | inl e ↦ (x, Memᴰ.head refl, e)
    | inr e ↦ let (y, m, q) = any_sound p xs (rw (e) at h) in (y, Memᴰ.tail m, q)
  ]

  pub any_complete : (p : A → Bool) (xs : List A) {x : A} → Memᴰ x xs → p x ≡ true → any p xs ≡ true
  any_complete p [] m h = elim m [ ]
  any_complete p (y ∷ ys) (Memᴰ.head e) h = ground arith
  any_complete p (y ∷ ys) (Memᴰ.tail m) h = ground (arith, any_complete p ys m h)

  pub all_sound : (p : A → Bool) (xs : List A) → all p xs ≡ true → (x : A) → Memᴰ x xs → p x ≡ true
  all_sound p [] h x m = elim m [ ]
  all_sound p (y ∷ ys) h x (Memᴰ.head e) = let here : p y ≡ true = ground arith in ap p e ∙ here
  all_sound p (y ∷ ys) h x (Memᴰ.tail m) = all_sound p ys (ground arith) x m

  pub all_complete :
      (p : A → Bool) (xs : List A) → ((x : A) → Memᴰ x xs → p x ≡ true) → all p xs ≡ true
  all_complete p [] h = refl
  all_complete p (y ∷ ys) h =
      let here = h y (Memᴰ.head refl) in
      let there = all_complete p ys (λ x m. h x (Memᴰ.tail m)) in ground arith

  fails_cons :
      (p : A → Bool) {y : A} {ys : List A}
      → p y ≡ false
      → ((x : A) → Memᴰ x ys → p x ≡ false)
      → (x : A) → Memᴰ x (y ∷ ys)
      → p x ≡ false
  fails_cons p h hs x (Memᴰ.head e) = ap p e ∙ h
  fails_cons p h hs x (Memᴰ.tail m) = hs x m

  -- `find` gives a member at which the test passes, or there is none.
  pub find-cases :
      (p : A → Bool) (xs : List A)
      → ((x : A) × (find p xs ≡ some x) × Memᴰ x xs × (p x ≡ true))
        ⊎ ((find p xs ≡ none) × ((x : A) → Memᴰ x xs → p x ≡ false))
  find-cases p [] = inr (refl, λ x m. elim m [ ])
  find-cases p (y ∷ ys) = elim (Bool-cases (p y)) [
    | inl here ↦ inl (y, rw here, Memᴰ.head refl, here)
    | inr not_here ↦ elim (find-cases p ys) [
      | inl (x, e, m, t) ↦ inl (x, rw not_here e, Memᴰ.tail m, t)
      | inr (e, none_there) ↦ inr (rw not_here e, fails_cons p not_here none_there)
    ]
  ]

  mem_of_mem-filter_kept :
      {p : A → Bool} {y : A} {ys : List A}
      → ((x : A) → Memᴰ x (filter p ys) → Memᴰ x ys × (p x ≡ true))
      → p y ≡ true
      → (x : A) → Memᴰ x (y ∷ filter p ys)
      → Memᴰ x (y ∷ ys) × (p x ≡ true)
  mem_of_mem-filter_kept ih kept x (Memᴰ.head e) = (Memᴰ.head e, rw e kept)
  mem_of_mem-filter_kept ih kept x (Memᴰ.tail m) = let (m', h) = ih x m in (Memᴰ.tail m', h)

  pub mem_of_mem-filter :
      (p : A → Bool) (xs : List A) (x : A) → Memᴰ x (filter p xs) → Memᴰ x xs × (p x ≡ true)
  mem_of_mem-filter p [] x m = elim m [ ]
  mem_of_mem-filter p (y ∷ ys) x m = elim (Bool-cases (p y)) [
    | inl kept ↦ mem_of_mem-filter_kept (mem_of_mem-filter p ys) kept x (rw kept at m)
    | inr dropped ↦ let (m', h) = mem_of_mem-filter p ys x (rw dropped at m) in (Memᴰ.tail m', h)
  ]

  pub mem-filter_of_mem :
      (p : A → Bool) (xs : List A) {x : A} → Memᴰ x xs → p x ≡ true → Memᴰ x (filter p xs)
  mem-filter_of_mem p [] m h = elim m [ ]
  mem-filter_of_mem p (y ∷ ys) (Memᴰ.head e) h = rw ((ap p (sym e)) ∙ h) (Memᴰ.head e)
  mem-filter_of_mem p (y ∷ ys) (Memᴰ.tail m) h = elim (Bool-cases (p y)) [
    | inl kept ↦ rw kept (Memᴰ.tail (mem-filter_of_mem p ys m h))
    | inr dropped ↦ rw dropped (mem-filter_of_mem p ys m h)
  ]

module _ {A : Type 0} ⦃e : Eq A⦄ where
  abbrev pub includes : List A → A → Bool
  includes xs a = any (λ x. x == a) xs

  pub includes_sound : (xs : List A) (a : A) → includes xs a ≡ true → Memᴰ a xs
  includes_sound [] a h = cc
  includes_sound (x ∷ xs) a h = elim (Bool-cases (x == a)) [
    | inl same ↦ Memᴰ.head (sym ((e.beq_iff x a).0 same))
    | inr other ↦ Memᴰ.tail (includes_sound xs a (rw other at h))
  ]

  pub includes_complete : (xs : List A) (a : A) → Memᴰ a xs → includes xs a ≡ true
  includes_complete [] a m = elim m [ ]
  includes_complete (x ∷ xs) a (Memᴰ.head p) = rw ((e.beq_iff x a).1 (sym p))
  includes_complete (x ∷ xs) a (Memᴰ.tail m) = ground (arith, includes_complete xs a m)

  pub includes_iff : (xs : List A) (a : A) → (includes xs a ≡ true) ↔ Memᴰ a xs
  includes_iff xs a = (includes_sound xs a, includes_complete xs a)

  -- A filtered list includes what the list includes and the test accepts.
  pub includes-filter :
      (p : A → Bool) (xs : List A) (a : A) → includes (filter p xs) a ≡ (includes xs a && p a)
  includes-filter p [] a = refl
  includes-filter p (x ∷ xs) a = elim (Bool-cases (x == a)) [
    | inl same ↦
        let e' : p x ≡ p a = ap p ((e.beq_iff x a).0 same) in
        ground (arith, includes-filter p xs a, e')
    | inr other ↦ ground (arith, includes-filter p xs a)
  ]
