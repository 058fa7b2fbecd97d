-- ===== src/Groups/Configure/Steps/Planned.antt =====
-- `configureGroup` with its `await`s against the plan: what it sends while nobody touches the popup.
use rdfm.Base.{
  ℕ, zero, suc, subst, string_eq, false, some, List, [], ◌∷◌, ◌++◌, map, ◌≡◌, ◌∙◌, ap, sym, refl,
  arith, get_elem?, set,
}
use mathlib.Core.List.{append_assoc}
use rdfm.Utils.Model.{RequestOutput, Group}
use rdfm.Utils.World.{Browser, World}
use rdfm.Groups.Page.{Page, InitialGroupConfiguration}
use rdfm.Groups.Configure.{updated, was_group_modified, group_to_modify}
use rdfm.Groups.Configure.Plan.{
  Change, plan_priority, plan_devices, plan_packages, plan_policy, plan,
}
use rdfm.Groups.Configure.Steps.{
  priority_part, Progress, waits, ends, Turn, configure, answered, Happening, event, refreshed,
  priority_turn, check_turn, first_turn_by, first_turn, next_turn, Run, called, handle, happen,
  happen_all, resumed, idle,
}
use rdfm.Groups.Configure.Steps.Follows.{
  call_of, rest_of, Leaves, Follows, next_turn-Follows, priority_turn-Follows,
}

module _ (b : Browser) (i : InitialGroupConfiguration) (p : Page b)
    (opened : p.initial ≡ some i) where
  -- The only call of `configureGroup` has sent a part of the plan.
  record IsPlanned (r : Run b) : Type 0 where
    pub sent : List Change
    pub left : List Change
    pub split : plan b i p ≡ sent ++ left
    pub calls : r.calls ≡ map (call_of b i p) sent
    pub progress : Progress
    pub alone : r.invocations ≡ progress ∷ []
    pub leaves : Leaves b i p progress left r.page

  map-append :
      (xs ys : List Change)
      → map (call_of b i p) (xs ++ ys) ≡ map (call_of b i p) xs ++ map (call_of b i p) ys
  map-append [] ys = refl
  map-append (x ∷ xs) ys = ap (λ l. call_of b i p x ∷ l) (map-append xs ys)

  -- One more turn, for what is left.
  turn-IsPlanned :
      (r : Run b) (t : Turn b) (sent left : List Change)
      → plan b i p ≡ sent ++ left
      → r.calls ≡ map (call_of b i p) sent
      → Follows b i p t left
      → IsPlanned (record {
        page = t.page;
        calls = r.calls ++ called t.call;
        invocations = t.progress ∷ [];
      })
  turn-IsPlanned r t sent left split calls f = record {
    sent = sent ++ f.sent;
    left = f.left;
    split = split ∙ ap (λ l. sent ++ l) f.split ∙ sym (append_assoc sent f.sent f.left);
    calls = rw (calls, sym f.calls) (sym (map-append sent f.sent));
    progress = t.progress;
    alone = refl;
    leaves = f.leaves;
  }

  resumed-IsPlanned :
      (k : ℕ) (out : RequestOutput) (g : Progress) (r : Run b) (h : IsPlanned r)
      → h.progress ≡ g
      → IsPlanned (resumed b k out (get_elem? k (g ∷ [])) r)
  unfolding get_elem? set
  resumed-IsPlanned (suc k) out g r h e = h
  resumed-IsPlanned zero out (ends o) r h e = h
  resumed-IsPlanned zero out (waits part made) r h e =
      let (rest, same) = subst (λ x. Leaves b i p x h.left r.page) e h.leaves in
      let next =
        subst (λ q. Follows b i p (next_turn b part made out q) h.left) (sym same)
          (rw rest (next_turn-Follows b i p opened part made out r.page.world)) in
      rw (h.alone) (turn-IsPlanned r _ h.sent h.left h.split h.calls next)

  refreshed-Leaves :
      (w : World b) (g : Progress) (left : List Change) (q : Page b)
      → Leaves b i p g left q
      → Leaves b i p g left (record q { world = w })
  refreshed-Leaves w (ends o) left q h = h
  refreshed-Leaves w (waits part made) left q (rest, same) =
      (rest, ap {A = Page b} (λ x. record x { world = w }) same)

  -- An answer or a refresh: nobody touches the popup.
  abbrev pub IsUndisturbed : Happening b → Type 0
  IsUndisturbed (event (answered k out)) = Unit
  IsUndisturbed (refreshed w) = Unit
  IsUndisturbed _ = ⊥

  abbrev pub AllUndisturbed : List (Happening b) → Type 0
  AllUndisturbed [] = Unit
  AllUndisturbed (h ∷ hs) = IsUndisturbed h × AllUndisturbed hs

  happen-IsPlanned :
      (h : Happening b) (r : Run b) → IsUndisturbed h → IsPlanned r → IsPlanned (happen b h r)
  unfolding happen handle
  happen-IsPlanned (event (answered k out)) r u h =
      subst (λ l. IsPlanned (resumed b k out (get_elem? k l) r)) (sym h.alone)
        (resumed-IsPlanned k out h.progress r h refl)
  happen-IsPlanned (refreshed w) r u h = record {
    sent = h.sent;
    left = h.left;
    split = h.split;
    calls = h.calls;
    progress = h.progress;
    alone = h.alone;
    leaves = refreshed-Leaves w h.progress h.left r.page h.leaves;
  }
  happen-IsPlanned _ r u h = absurd u

  happen_all-IsPlanned :
      (hs : List (Happening b)) (r : Run b)
      → AllUndisturbed hs
      → IsPlanned r
      → IsPlanned (happen_all b hs r)
  unfolding happen_all
  happen_all-IsPlanned [] r u h = h
  happen_all-IsPlanned (e ∷ hs) r u h =
      happen_all-IsPlanned hs (happen b e r) u.1 (happen-IsPlanned e r u.0 h)

  -- The configuration that is open is that of a group which is as it was.
  module _ (id : ℕ) (g : Group) (chosen : p.configuration.id ≡ some id)
      (found : group_to_modify b id p ≡ some g) (same : was_group_modified g i ≡ false) where
    unmodified_turn : check_turn b (some g) (some i) p ≡ priority_turn b i p
    unmodified_turn = rw same refl

    first_turn-priority : first_turn b p ≡ priority_turn b i p
    unfolding first_turn
    first_turn-priority =
        ap (λ o. first_turn_by b o p) chosen
        ∙ ap (λ o. check_turn b o p.initial p) found
        ∙ ap (λ o. check_turn b (some g) o p) opened
        ∙ unmodified_turn

    plan-rest : plan b i p ≡ plan_priority b i p ++ rest_of b i p priority_part
    unfolding plan
    plan-rest =
        append_assoc (plan_priority b i p ++ plan_devices b i p) (plan_packages b i p)
          (plan_policy b i p)
        ∙ append_assoc (plan_priority b i p) (plan_devices b i p)
            (plan_packages b i p ++ plan_policy b i p)

    first-IsPlanned : IsPlanned (happen b (event configure) (idle b p))
    unfolding happen handle
    first-IsPlanned = turn-IsPlanned (idle b p) (first_turn b p) [] _ plan-rest refl (
        subst (λ t. Follows b i p t (plan_priority b i p ++ rest_of b i p priority_part))
          (sym first_turn-priority) (priority_turn-Follows b i p p.world))

    -- A click on Configure for a group that is as it was when the popup was opened, and then
    -- answers and refreshes in any order, while nobody touches the popup: the requests sent are the
    -- first changes of the plan made at the click, in its order and for the group, and if the call
    -- ends with the update done, they are the whole plan.
    pub calls-planned :
        (hs : List (Happening b))
        → AllUndisturbed hs
        → let r = happen_all b (event configure ∷ hs) (idle b p) in
          (sent : List Change) × (left : List Change) × (plan b i p ≡ sent ++ left)
          × (r.calls ≡ map (call_of b i p) sent)
          × (get_elem? 0 r.invocations ≡ some (ends updated) → left ≡ [])
    unfolding happen_all get_elem?
    calls-planned hs u =
        let start = happen b (event configure) (idle b p) in
        let k = happen_all-IsPlanned hs start u first-IsPlanned in
        (
          k.sent,
          k.left,
          k.split,
          k.calls,
          λ e.
              let done : k.progress ≡ ends updated = ground (arith, k.alone, e) in
              (subst (λ g. Leaves b i p g k.left (happen_all b hs start).page) done k.leaves) refl,
        )
