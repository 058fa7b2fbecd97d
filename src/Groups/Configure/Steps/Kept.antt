-- ===== src/Groups/Configure/Steps/Kept.antt =====
-- What holds of the group of every request of `configureGroup`, whatever happens while it waits:
-- whatever holds of each group for which the popup is opened.
use rdfm.Base.{subst}
use rdfm.Base.{
  ℕ, String, ◌==◌, string_eq, Bool, Option, none, some, List, [], ◌∷◌, ◌++◌, ◌≡◌, ◌∙◌, sym, ap,
  false, refl, Bool-cases, inl, inr, ◌||◌, not, get_elem?,
}
use mathlib.Core.List.{Memᴰ}
use rdfm.Utils.Model.{RequestOutput, Group}
use rdfm.Utils.World.{Browser}
use rdfm.Groups.Page.{
  Page, InitialGroupConfiguration, close_configure_group_popup, open_configure_group_popup,
  select_package, select_device,
}
use rdfm.Groups.Configure.{
  was_group_modified, selected_ids, removed_devices, added_devices, same_numbers, is_empty,
  priority_differs, policy_differs, group_to_modify,
}
use rdfm.Groups.Configure.Steps.{
  Part, priority_part, devices_part, packages_part, policy_part, Progress, waits, ends, Call, Turn,
  configure, cancel, open_group, type_priority, choose_policy, click_package, click_device,
  answered, Happening, event, refreshed, end_turn, ask_policy, policy_turn, packages_turn,
  devices_turn, priority_turn, check_turn, first_turn_by, first_turn, accepted_turn, next_turn, Run,
  called, handle, happen, happen_all, idle, reads_initial, resumed,
}

-- `holds` is a property of `groupConfiguration.id`.
module _ (b : Browser) (holds : Option ℕ → Type 0) where
  -- While a configuration is open, the property holds of it.
  abbrev pub IsOpenFor : Page b → Type 0
  IsOpenFor p = (i : InitialGroupConfiguration) → p.initial ≡ some i → holds p.configuration.id

  abbrev pub IsCallFor : Call → Type 0
  IsCallFor c = holds c.group

  -- A turn keeps to such groups.
  record IsOwn (t : Turn b) : Type 0 where
    pub open_for : IsOpenFor t.page
    pub call_for : (c : Call) → t.call ≡ some c → IsCallFor c

  end_turn-IsOwn : (made : Bool) (p : Page b) → IsOwn (end_turn b made p)
  unfolding end_turn close_configure_group_popup
  end_turn-IsOwn made p = elim (Bool-cases made) [
    | inl t ↦ rw t (record { open_for = λ j e. cc; call_for = λ c e. cc })
    | inr f ↦ rw f (record { open_for = λ j e. cc; call_for = λ c e. cc })
  ]

  -- A turn that sends nothing and leaves the configuration as it is.
  silent-IsOwn :
      (t : Turn b) (p : Page b)
      → IsOpenFor p
      → t.page.configuration ≡ p.configuration
      → t.page.initial ≡ p.initial
      → t.call ≡ none
      → IsOwn t
  silent-IsOwn t p h e f n = record {
    open_for = λ j g. subst holds (sym (ap (λ c. c.id) e)) (h j (sym f ∙ g));
    call_for = λ c g. cc;
  }

  -- A turn that sends a request and leaves the page as it is.
  asking-IsOwn :
      (t : Turn b) (p : Page b) (c : Call)
      → holds p.configuration.id
      → t.page ≡ p
      → t.call ≡ some c
      → c.group ≡ p.configuration.id
      → IsOwn t
  asking-IsOwn t p c h e f g = record {
    open_for = λ j _. subst holds (sym (ap (λ q. q.configuration.id) e)) h;
    call_for =
        λ d k. (let same : c ≡ d = cc in subst holds (sym (ap (λ x. x.group) (sym same) ∙ g)) h);
  }

  module _ (i : InitialGroupConfiguration) (p : Page b) (h : holds p.configuration.id) where
    ask_policy-IsOwn : (policy : Option String) (made : Bool) → IsOwn (ask_policy b policy made p)
    unfolding ask_policy
    ask_policy-IsOwn none made = silent-IsOwn _ p (λ j _. h) refl refl refl
    ask_policy-IsOwn (some policy) made = elim (Bool-cases (policy == "")) [
      | inl cleared ↦ rw cleared (silent-IsOwn _ p (λ j _. h) refl refl refl)
      | inr given ↦ rw given (asking-IsOwn _ p _ h refl refl refl)
    ]

    policy_turn-IsOwn : (made : Bool) → IsOwn (policy_turn b i made p)
    unfolding policy_turn
    policy_turn-IsOwn made = elim (Bool-cases (policy_differs p.configuration.policy i.policy)) [
      | inl new ↦ rw new (ask_policy-IsOwn p.configuration.policy made)
      | inr same ↦ rw same (end_turn-IsOwn made p)
    ]

    packages_turn-IsOwn : (made : Bool) → IsOwn (packages_turn b i made p)
    unfolding packages_turn
    packages_turn-IsOwn made =
        elim (Bool-cases (same_numbers i.packages (selected_ids p.package_list))) [
          | inl same ↦ rw same (policy_turn-IsOwn made)
          | inr new ↦ rw new (asking-IsOwn _ p _ h refl refl refl)
        ]

    devices_turn-IsOwn : (made : Bool) → IsOwn (devices_turn b i made p)
    unfolding devices_turn
    devices_turn-IsOwn made =
        elim (Bool-cases (
          not (is_empty (removed_devices i.devices (selected_ids p.device_list)))
          || not (is_empty (added_devices i.devices (selected_ids p.device_list))))) [
            | inl new ↦ rw new (asking-IsOwn _ p _ h refl refl refl)
            | inr same ↦ rw same (packages_turn-IsOwn made)
          ]

    priority_turn-IsOwn : IsOwn (priority_turn b i p)
    unfolding priority_turn
    priority_turn-IsOwn = elim (Bool-cases (priority_differs p.configuration.priority i.priority)) [
      | inl new ↦ rw new (asking-IsOwn _ p _ h refl refl refl)
      | inr same ↦ rw same (devices_turn-IsOwn false)
    ]

  check_turn-IsOwn :
      (g : Option Group) (oi : Option InitialGroupConfiguration) (p : Page b)
      → IsOpenFor p
      → p.initial ≡ oi
      → IsOwn (check_turn b g oi p)
  check_turn-IsOwn none oi p h e = silent-IsOwn _ p h refl refl refl
  check_turn-IsOwn (some g) none p h e = silent-IsOwn _ p h refl refl refl
  check_turn-IsOwn (some g) (some i) p h e = elim (Bool-cases (was_group_modified g i)) [
    | inl other ↦ rw other (silent-IsOwn _ p h refl refl refl)
    | inr same ↦ rw same (priority_turn-IsOwn i p (h i e))
  ]

  first_turn_by-IsOwn : (o : Option ℕ) (p : Page b) → IsOpenFor p → IsOwn (first_turn_by b o p)
  first_turn_by-IsOwn none p h = silent-IsOwn _ p h refl refl refl
  first_turn_by-IsOwn (some n) p h = check_turn-IsOwn (group_to_modify b n p) p.initial p h refl

  reads_initial-IsOwn :
      (k : InitialGroupConfiguration → Page b → Turn b) (oi : Option InitialGroupConfiguration)
      (p : Page b)
      → ((i : InitialGroupConfiguration) → holds p.configuration.id → IsOwn (k i p))
      → IsOpenFor p
      → p.initial ≡ oi
      → IsOwn (reads_initial b k oi p)
  reads_initial-IsOwn k none p hk h e = silent-IsOwn _ p h refl refl refl
  reads_initial-IsOwn k (some i) p hk h e = hk i (h i e)

  accepted_turn-IsOwn :
      (part : Part) (made : Bool) (p : Page b) → IsOpenFor p → IsOwn (accepted_turn b part made p)
  unfolding accepted_turn
  accepted_turn-IsOwn priority_part made p h =
      reads_initial-IsOwn _ p.initial p (λ i e. devices_turn-IsOwn i p e made) h refl
  accepted_turn-IsOwn devices_part made p h =
      reads_initial-IsOwn _ p.initial p (λ i e. packages_turn-IsOwn i p e made) h refl
  accepted_turn-IsOwn packages_part made p h =
      reads_initial-IsOwn _ p.initial p (λ i e. policy_turn-IsOwn i p e made) h refl
  accepted_turn-IsOwn policy_part made p h = end_turn-IsOwn made p

  next_turn-IsOwn :
      (part : Part) (made : Bool) (out : RequestOutput) (p : Page b)
      → IsOpenFor p
      → IsOwn (next_turn b part made out p)
  unfolding next_turn
  next_turn-IsOwn part made out p h = elim (Bool-cases out.success) [
    | inl done ↦ rw done (accepted_turn-IsOwn part made p h)
    | inr bad ↦ rw bad (silent-IsOwn _ p h refl refl refl)
  ]

  -- The property holds of a group for which the popup is opened.
  abbrev pub OpensOwn : Happening b → Type 0
  OpensOwn (event (open_group g)) = holds (some g.id)
  OpensOwn _ = Unit

  record IsKept (r : Run b) : Type 0 where
    pub open_for : IsOpenFor r.page
    pub calls_for : (c : Call) → Memᴰ c r.calls → IsCallFor c

  called-IsCallFor :
      (calls : List Call) (o : Option Call)
      → ((c : Call) → Memᴰ c calls → IsCallFor c)
      → ((c : Call) → o ≡ some c → IsCallFor c)
      → (c : Call) → Memᴰ c (calls ++ called o)
      → IsCallFor c
  called-IsCallFor [] none hs h c m = elim m [ ]
  called-IsCallFor [] (some d) hs h c (Memᴰ.head e) =
      subst holds (sym (ap (λ x. x.group) e)) (h d refl)
  called-IsCallFor [] (some d) hs h c (Memᴰ.tail m) = elim m [ ]
  called-IsCallFor (d ∷ ds) o hs h c (Memᴰ.head e) = hs c (Memᴰ.head e)
  called-IsCallFor (d ∷ ds) o hs h c (Memᴰ.tail m) =
      called-IsCallFor ds o (λ x k. hs x (Memᴰ.tail k)) h c m

  resumed-IsKept :
      (k : ℕ) (out : RequestOutput) (o : Option Progress) (r : Run b)
      → IsKept r
      → IsKept (resumed b k out o r)
  resumed-IsKept k out none r h = h
  resumed-IsKept k out (some (ends o)) r h = h
  resumed-IsKept k out (some (waits part made)) r h =
      let own = next_turn-IsOwn part made out r.page h.open_for in
      record {
        open_for = own.open_for;
        calls_for = called-IsCallFor r.calls _ h.calls_for own.call_for;
      }

  happen-IsKept : (h : Happening b) (r : Run b) → OpensOwn h → IsKept r → IsKept (happen b h r)
  unfolding happen handle first_turn close_configure_group_popup open_configure_group_popup
      select_package select_device
  happen-IsKept (event configure) r o k =
      let own = first_turn_by-IsOwn r.page.configuration.id r.page k.open_for in
      record {
        open_for = own.open_for;
        calls_for = called-IsCallFor r.calls _ k.calls_for own.call_for;
      }
  happen-IsKept (event cancel) r o k = record { open_for = λ i e. cc; calls_for = k.calls_for }
  happen-IsKept (event (open_group g)) r o k = record {
    open_for = λ i e. o;
    calls_for = k.calls_for;
  }
  happen-IsKept (event (type_priority s)) r o k = record {
    open_for = k.open_for;
    calls_for = k.calls_for;
  }
  happen-IsKept (event (choose_policy s)) r o k = record {
    open_for = k.open_for;
    calls_for = k.calls_for;
  }
  happen-IsKept (event (click_package j)) r o k = record {
    open_for = k.open_for;
    calls_for = k.calls_for;
  }
  happen-IsKept (event (click_device j)) r o k = record {
    open_for = k.open_for;
    calls_for = k.calls_for;
  }
  happen-IsKept (event (answered j out)) r o k =
      resumed-IsKept j out (get_elem? j r.invocations) r k
  happen-IsKept (refreshed w) r o k = record { open_for = k.open_for; calls_for = k.calls_for }

  -- It holds of all of them in a run.
  abbrev pub AllOpenOwn : List (Happening b) → Type 0
  AllOpenOwn [] = Unit
  AllOpenOwn (h ∷ hs) = OpensOwn h × AllOpenOwn hs

  happen_all-IsKept :
      (hs : List (Happening b)) (r : Run b) → AllOpenOwn hs → IsKept r → IsKept (happen_all b hs r)
  unfolding happen_all
  happen_all-IsKept [] r o k = k
  happen_all-IsKept (h ∷ hs) r o k =
      happen_all-IsKept hs (happen b h r) o.1 (happen-IsKept h r o.0 k)

  pub calls-kept :
      (hs : List (Happening b)) (p : Page b)
      → IsOpenFor p
      → AllOpenOwn hs
      → (c : Call) → Memᴰ c (happen_all b hs (idle b p)).calls
      → IsCallFor c
  calls-kept hs p h o =
      (happen_all-IsKept hs (idle b p) o
        (record { open_for = h; calls_for = λ c m. elim m [ ] })).calls_for
