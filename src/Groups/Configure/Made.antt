-- ===== src/Groups/Configure/Made.antt =====
-- Changes that the server makes one after the other, and the parts of a plan.
use rdfm.Base.{
  ℕ, String, ◌==◌, string_eq, nat_eq, eq_iff, Bool, true, false, Option, none, some, List, [], ◌∷◌,
  ◌++◌, ◌≡◌, ◌⊎◌, sym, ap, subst, refl, arith, Bool-cases, inl, inr, includes,
}
use rdfm.Utils.Model.{Group}
use rdfm.Utils.World.{Json, num}
use rdfm.Groups.Configure.{is_empty, priority_differs, policy_differs}
use rdfm.Groups.Configure.Plan.{Change, set_policy, no_policy, planned_if, policy_change}
use rdfm.Groups.Configure.Server.{Applied, IsRead}

module _ (read_priority : Json → Option ℕ) where
  -- The changes are made one after the other.
  abbrev pub AppliedAll : List Change → Group → Group → Type 0
  AppliedAll [] g h = h ≡ g
  AppliedAll (c ∷ cs) g h = (m : Group) × Applied read_priority c g m × AppliedAll cs m h

  pub AppliedAll-append :
      (xs ys : List Change) (g h : Group)
      → AppliedAll (xs ++ ys) g h
      → (m : Group) × AppliedAll xs g m × AppliedAll ys m h
  AppliedAll-append [] ys g h a = (g, refl, a)
  AppliedAll-append (x ∷ xs) ys g h (n, first, rest) =
      let (m, a, k) = AppliedAll-append xs ys n h rest in (m, (n, first, a), k)

  -- The priorities among the changes are read.
  abbrev pub AllRead : List Change → Type 0
  AllRead [] = Unit {0}
  AllRead (c ∷ cs) = IsRead read_priority c × AllRead cs

  pub AllRead-append : (xs ys : List Change) → AllRead xs → AllRead ys → AllRead (xs ++ ys)
  AllRead-append [] ys a k = k
  AllRead-append (x ∷ xs) ys (r, a) k = (r, AllRead-append xs ys a k)

  pub planned_if-AllRead :
      (t : Bool) (c : Change) → IsRead read_priority c → AllRead (planned_if t c)
  planned_if-AllRead true c r = (r, tt)
  planned_if-AllRead false c r = tt

  pub policy_change-IsRead : (o : Option String) → IsRead read_priority (policy_change o)
  policy_change-IsRead none = tt
  policy_change-IsRead (some policy) = elim (Bool-cases (policy == "")) [
    | inl cleared ↦ rw cleared tt
    | inr given ↦ rw given tt
  ]

  -- One part of the plan: a change that is made, or nothing to do.
  abbrev pub Segment : Bool → Change → Group → Group → Type 0
  Segment t c g h = ((t ≡ true) × Applied read_priority c g h) ⊎ ((t ≡ false) × (h ≡ g))

  pub part_of :
      (t : Bool) (c : Change) (g h : Group) → AppliedAll (planned_if t c) g h → Segment t c g h
  part_of true c g h (m, a, e) = inl (refl, subst (λ x. Applied read_priority c g x) (sym e) a)
  part_of false c g h e = inr (refl, e)

  -- A field that the change leaves alone.
  pub kept_over :
      {A : Type 0} {t : Bool} {c : Change} {g h : Group} (f : Group → A)
      → (Applied read_priority c g h → f h ≡ f g)
      → Segment t c g h
      → f h ≡ f g
  kept_over f k (inl (e, a)) = k a
  kept_over f k (inr (e, same)) = ap f same

  -- What a change of the policy does, if there is one.
  pub policy_change-Applied :
      (o : Option String) (g h : Group)
      → Applied read_priority (policy_change o) g h
      → (policy : String) × (o ≡ some policy) × Applied read_priority (set_policy policy) g h
  policy_change-Applied none g h a = absurd a.policy_after
  policy_change-Applied (some policy) g h a = elim (Bool-cases (policy == "")) [
    | inl cleared ↦
        let a' : Applied read_priority no_policy g h = rw cleared at a in absurd a'.policy_after
    | inr given ↦ (policy, refl, rw given at a)
  ]

pub priority-same : (o : Option Json) (m : ℕ) → priority_differs o m ≡ false → o ≡ some (num m)
priority-same none m e = cc
priority-same (some Json.null) m e = cc
priority-same (some (Json.str s)) m e = cc
priority-same (some (num n)) m e = let same : n ≡ m = ground arith in ap (λ k. some (num k)) same
priority-same (some (Json.strs l)) m e = cc
priority-same (some (Json.nums l)) m e = cc
priority-same (some (Json.obj f)) m e = cc

pub policy-same : (o : Option String) (old : String) → policy_differs o old ≡ false → o ≡ some old
policy-same none old e = cc
policy-same (some new) old e = let same : new ≡ old = ground (arith, eq_iff new old) in ap some same

pub includes-is_empty : (l : List ℕ) (n : ℕ) → is_empty l ≡ true → includes l n ≡ false
includes-is_empty [] n e = refl
includes-is_empty (x ∷ l) n e = cc
