-- ===== src/Utils/Polling/Laws.antt =====
-- A page that is left polls no more, unless it is left too early.
use rdfm.Base.{
  ℕ, nat_eq, true, false, ◌&&◌, none, some, List, [], ◌∷◌, ◌++◌, map, ◌≡◌, refl, arith, ◌∙◌, ap,
  Bool-cases, inl, inr,
}
use rdfm.Utils.World.{Browser, World}
use rdfm.Utils.Command.{refresh_all}
use rdfm.Utils.Polling.{
  Timers, IsReliable, Polled, Page, Event, loaded, unmounted, tick, is_own, fetch_page, created,
  start_polling, stop_polling, step, run,
}

module _ (b : Browser) (t : Timers) (reliable : IsReliable t) (polled : Polled) where
  -- Since the page `p`, only the one timer that the page `q` keeps the number of was started.
  abbrev KeepsTo : Page b t → Page b t → Type 0
  KeepsTo p q =
      (j : ℕ)
      → (is_own q.interval_id j ≡ false → t.is_running j q.clock ≡ t.is_running j p.clock)
        × (is_own q.interval_id j ≡ true → t.is_running j p.clock ≡ false)

  start_polling-KeepsTo : (p q : Page b t) → KeepsTo p q → KeepsTo p (start_polling b t q)
  unfolding start_polling
  start_polling-KeepsTo p q h j = ground (
    arith,
    h j,
    h (t.set_interval q.clock).0,
    reliable.new_number q.clock,
    reliable.is_running-set_interval q.clock j,
  )

  stop_polling-KeepsTo :
      (p q : Page b t)
      → KeepsTo p q
      → KeepsTo p (stop_polling b t q)
        × ((j : ℕ) → t.is_running j (stop_polling b t q).clock ≡ t.is_running j p.clock)
  unfolding stop_polling
  stop_polling-KeepsTo p q h =
      elim q.interval_id
          as (λ o.
            KeepsTo p (record q { interval_id = o })
            → KeepsTo p (stop_polling b t (record q { interval_id = o }))
              × ((j : ℕ)
                  → t.is_running j (stop_polling b t (record q { interval_id = o })).clock
                    ≡ t.is_running j p.clock)) [
                      | none ↦ λ k. (k, λ j. (k j).0 refl)
                      | some i ↦ λ k.
                          let cleared = reliable.is_running-clear_interval i q.clock in
                          (
                            (λ j. ground (arith, k j, cleared j)),
                            λ j. ground (arith, k j, cleared j),
                          )
                    ]
        h

  step-KeepsTo : (e : Event b t) (p q : Page b t) → KeepsTo p q → KeepsTo p (step b t polled e q)
  unfolding step fetch_page
  step-KeepsTo loaded p q h = start_polling-KeepsTo p (fetch_page b t polled.first q) h
  step-KeepsTo unmounted p q h = (stop_polling-KeepsTo p q h).0
  step-KeepsTo (tick i) p q h =
      elim (Bool-cases (is_own q.interval_id i && t.is_running i q.clock)) [
        | inl due ↦ rw due h
        | inr early ↦ rw early h
      ]

  run-KeepsTo :
      (es : List (Event b t)) (p q : Page b t) → KeepsTo p q → KeepsTo p (run b t polled es q)
  unfolding run
  run-KeepsTo [] p q h = h
  run-KeepsTo (e ∷ es) p q h = run-KeepsTo es p (step b t polled e q) (step-KeepsTo e p q h)

  run-append :
      (es fs : List (Event b t)) (p : Page b t)
      → run b t polled (es ++ fs) p ≡ run b t polled fs (run b t polled es p)
  unfolding run
  run-append [] fs p = refl
  run-append (e ∷ es) fs p = run-append es fs (step b t polled e p)

  tick-silent :
      (j : ℕ) (q : Page b t)
      → (is_own q.interval_id j && t.is_running j q.clock) ≡ false
      → step b t polled (tick j) q ≡ q
  unfolding step
  tick-silent j q h = rw h refl

  ticks-silent :
      (js : List ℕ) (q : Page b t)
      → ((j : ℕ) → (is_own q.interval_id j && t.is_running j q.clock) ≡ false)
      → run b t polled (map tick js) q ≡ q
  unfolding run
  ticks-silent [] q h = refl
  ticks-silent (j ∷ js) q h =
      ap (run b t polled (map tick js)) (tick-silent j q (h j)) ∙ ticks-silent js q h

  -- With timers that behave as documented: whatever a page did since it was created, once it is left
  -- the timers that run are those that ran before it; and as long as nothing but the time passes
  -- then, it does nothing.
  pub run-unmounted :
      (es : List (Event b t)) (w : World b) (c : t.State)
      → let q = run b t polled (es ++ unmounted ∷ []) (created b t w c) in
        ((j : ℕ) → t.is_running j q.clock ≡ t.is_running j c)
        × ((js : List ℕ) → run b t polled (map tick js) q ≡ q)
  unfolding run step
  run-unmounted es w c =
      let p = created b t w c in
      let q = run b t polled es p in
      let kept =
        stop_polling-KeepsTo p q
          (run-KeepsTo es p p (λ j. (λ e. refl, λ e. absurd (ground (arith, e))))) in
      rw (run-append es (unmounted ∷ []) p) (
        kept.1,
        λ js. ticks-silent js (stop_polling b t q) (λ j. ground (arith, kept.0 j, kept.1 j)),
      )

  -- With timers that behave as documented: a page that is left before its first requests are
  -- answered starts a timer afterwards. That timer did not run before, it runs then, and its tick
  -- sends the requests of the page.
  pub unmounted-loaded :
      (w : World b) (c : t.State)
      → let q = run b t polled (unmounted ∷ loaded ∷ []) (created b t w c) in
        let j = (t.set_interval c).0 in
        (t.is_running j c ≡ false)
        × (t.is_running j q.clock ≡ true)
        × ((run b t polled (tick j ∷ []) q).world ≡ refresh_all b polled.again q.world)
  unfolding run step stop_polling start_polling fetch_page
  unmounted-loaded w c =
      let j = (t.set_interval c).0 in
      let runs : t.is_running j (t.set_interval c).1 ≡ true =
        ground (arith, reliable.is_running-set_interval c j) in
      (reliable.new_number c, runs, ground (arith, runs))
