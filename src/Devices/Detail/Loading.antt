-- ===== src/Devices/Detail/Loading.antt =====
-- The actions that the page of a device shows: those fetched, or those fetched before.
use rdfm.Base.{◌==◌, string_eq, eq_iff, String, Bool, true, false, none, some}
use rdfm.Base.{
  List, [], ◌∷◌, ◌≡◌, refl, arith, any, map, any-sort, insert, lookup, lookup-insert, ◌∙◌, ap,
}
use rdfm.Utils.Model.{Action, DataOutput}
use rdfm.Utils.World.{Browser}
use rdfm.Devices.Detail.{
  Page, PageAction, not_running, is_running, by_name, show_actions, result_of, store_actions,
}
use rdfm.Devices.Detail.Actions.{is_listed}

abbrev has_action : String → List Action → Bool
has_action id actions = any (λ a. a.action_id == id) actions

is_listed-map :
    (id : String) (as' : List Action) → is_listed id (map not_running as') ≡ has_action id as'
is_listed-map id [] = refl
is_listed-map id (a ∷ as') = ground (arith, is_listed-map id as')

is_running-map : (id : String) (as' : List Action) → is_running id (map not_running as') ≡ false
unfolding is_running
is_running-map id [] = refl
is_running-map id (a ∷ as') = ground (arith, is_running-map id as')

module _ (b : Browser) (out : DataOutput (List Action)) (fetched : List Action)
    (done : out.success ≡ true) (given : out.result ≡ some fetched) where
  stored :
      (p : Page b)
      → store_actions b out p ≡ record p {
        actions = map not_running (by_name b fetched);
        device_actions = insert p.device.mac_address (by_name b fetched) p.device_actions;
      }
  unfolding store_actions
  stored p =
      let e : result_of out ≡ some fetched = ground (arith, done, given) in
      ap (λ o. show_actions b o (lookup p.device.mac_address p.device_actions) p) e

  -- After the actions of a device were fetched, exactly those are listed, and none of them runs.
  pub store_actions-listed :
      (p : Page b) (id : String)
      → (is_listed id (store_actions b out p).actions ≡ has_action id fetched)
        × (is_running id (store_actions b out p).actions ≡ false)
  unfolding by_name
  store_actions-listed p id = rw (stored p) (
    is_listed-map id (by_name b fetched) ∙ any-sort (λ a. a.action_id == id) _ fetched,
    is_running-map id (by_name b fetched),
  )

  later :
      (p : Page b) (before : List PageAction) (failure : DataOutput (List Action))
      → result_of failure ≡ none
      → lookup p.device.mac_address
          (insert p.device.mac_address (by_name b fetched) p.device_actions)
        ≡ some (by_name b fetched)
      → (store_actions b failure (record p {
        actions = before;
        device_actions = insert p.device.mac_address (by_name b fetched) p.device_actions;
      })).actions
        ≡ map not_running (by_name b fetched)
  unfolding store_actions
  later p before failure failed kept =
      let q : Page b = record p {
        actions = before;
        device_actions = insert p.device.mac_address (by_name b fetched) p.device_actions;
      } in
      ap (λ o. (show_actions b o (lookup q.device.mac_address q.device_actions) q).actions) failed
      ∙ ap (λ o. (show_actions b none o q).actions) kept

  -- If the actions of a device were fetched once, and a later page of it fails to fetch them, that
  -- page shows the same actions, whatever it showed before.
  pub store_actions-kept :
      (p : Page b) (before : List PageAction) (failure : DataOutput (List Action))
      → failure.success ≡ false
      → let q = store_actions b out p in
        (store_actions b failure (record q { actions = before })).actions ≡ q.actions
  store_actions-kept p before failure bad =
      let failed : result_of failure ≡ none = ground (arith, bad) in
      let kept : lookup p.device.mac_address
            (insert p.device.mac_address (by_name b fetched) p.device_actions)
          ≡ some (by_name b fetched) =
        lookup-insert p.device.mac_address p.device.mac_address (by_name b fetched) p.device_actions
        ∙ ground (arith, eq_iff p.device.mac_address p.device.mac_address) in
      rw (stored p) (later p before failure failed kept)
