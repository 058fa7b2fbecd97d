-- ===== src/Utils/Resources/Laws.antt =====
-- What the store of a getter holds over any run of `fetchResources`.
use rdfm.Base.{ℕ, String, ◌==◌, nat_eq, Bool, true, false, Option, none, some, List, [], ◌∷◌}
use rdfm.Base.{◌≡◌, ◌≢◌, ◌≤◌, refl, sym, ◌∙◌, arith, Bool-cases, inl, inr}
use rdfm.Utils.Model.{Body}
use rdfm.Utils.World.{
  Browser, World, Getter, shape, read, write, Resource, Reply, response, rejected,
}
use rdfm.Utils.World.{unreachable_url, active_polling, PollingStatus, Stores}
use rdfm.Utils.World.{empty}
use rdfm.Utils.Fetch.{Output, output, is_ok}
use rdfm.Utils.Fetch.Laws.{reply_to, after_request}
use rdfm.Utils.Resources.{settle, fetch_resources, login_url, unauthorized, code_is, getter_url}

abbrev is_some : {A : Type 0} → Option A → Bool
is_some none = false
is_some (some a) = true

abbrev is_active : PollingStatus → Bool
is_active active_polling = true
is_active _ = false

-- A getter has data exactly while it polls successfully.
abbrev pub IsConsistent : {A : Type 0} → Resource A → Type 0
IsConsistent r = is_some r.resources ≡ is_active r.polling_status

abbrev pub AllConsistent : Stores → Type 0
AllConsistent s = (h : Getter) → IsConsistent (read h s)

write-IsConsistent :
    (g h : Getter) (r : Resource (Body (shape g))) (s : Stores)
    → IsConsistent r
    → IsConsistent (read h s)
    → IsConsistent (read h (write g r s))
write-IsConsistent Getter.pending_devices Getter.pending_devices r s c k = c
write-IsConsistent Getter.registered_devices Getter.registered_devices r s c k = c
write-IsConsistent Getter.device_groups Getter.device_groups r s c k = c
write-IsConsistent Getter.packages Getter.packages r s c k = c
write-IsConsistent Getter.package_groups Getter.package_groups r s c k = c
write-IsConsistent Getter.groups Getter.groups r s c k = c
write-IsConsistent Getter.group_packages Getter.group_packages r s c k = c
write-IsConsistent Getter.group_devices Getter.group_devices r s c k = c
write-IsConsistent _ _ r s c k = k

output-result : {A : Type 0} (r : Reply A) → (output r).success ≡ is_some (output r).result
unfolding output
output-result rejected = refl
output-result (response status none) = refl
output-result (response status (some value)) = ground arith

module _ (b : Browser) (g : Getter) where
  -- The reply to the GET request of the getter, and the state once it is there.
  abbrev pub got : World b → Reply (Body (shape g))
  got = reply_to b (shape g) (getter_url b.server_url g) "GET" [] empty

  abbrev pub after_get : World b → World b
  after_get = after_request b (shape g) (getter_url b.server_url g) "GET" [] empty

  settle-AllConsistent :
      (out : Output (Body (shape g))) (w : World b)
      → out.success ≡ is_some out.result
      → AllConsistent w.stores
      → AllConsistent (settle b g out w).stores
  unfolding settle
  settle-AllConsistent out w e k h = elim (Bool-cases out.success) [
    | inl fine ↦ rw fine (write-IsConsistent g h _ w.stores (sym (e) ∙ fine) (k h))
    | inr bad ↦ rw bad (elim (Bool-cases (code_is out.code unauthorized)) [
      | inl login ↦ rw login (k h)
      | inr lost ↦ rw lost (write-IsConsistent g h _ w.stores refl (k h))
    ])
  ]

  -- `fetchResources` of any getter, whatever the reply, keeps every getter consistent: it has data
  -- exactly when its status is `ActivePolling`.
  pub fetch_resources-AllConsistent :
      (w : World b) → AllConsistent w.stores → AllConsistent (fetch_resources b g w).1.stores
  unfolding fetch_resources
  fetch_resources-AllConsistent w k =
      settle-AllConsistent (output (got w)) (after_get w) (output-result (got w)) k

  -- What one reply does to the getter and to the page.
  pub data Refresh (stores : Stores) (hrefs : List String) (w' : World b)
      : Reply (Body (shape g)) → Type 0 where
    stored :
        (status : ℕ) (value : Body (shape g))
        → 200 ≤ status
        → status ≤ 299
        → w'.stores
          ≡ write g (record { resources = some value; polling_status = active_polling }) stores
        → w'.hrefs ≡ hrefs
        → Refresh stores hrefs w' (response status (some value))
    expelled :
        (status : ℕ) (body : Option (Body (shape g)))
        → status ≡ 401
        → w'.stores ≡ stores
        → w'.hrefs ≡ login_url b ∷ hrefs
        → Refresh stores hrefs w' (response status body)
    lost :
        (r : Reply (Body (shape g)))
        → (output r).success ≡ false
        → (output r).code ≢ some 401
        → w'.stores ≡ write g (record { resources = none; polling_status = unreachable_url }) stores
        → w'.hrefs ≡ hrefs
        → Refresh stores hrefs w' r

  settle-Refresh :
      (r : Reply (Body (shape g))) (w : World b)
      → Refresh w.stores w.hrefs (settle b g (output r) w) r
  unfolding settle output
  settle-Refresh rejected w = lost rejected refl (λ e. cc e) refl refl
  settle-Refresh (response status none) w = elim (Bool-cases (status == 401)) [
    | inl login ↦ rw login (expelled status none (ground arith) refl refl)
    | inr other ↦ rw other (lost (response status none) refl (ground arith) refl refl)
  ]
  settle-Refresh (response status (some value)) w = elim (Bool-cases (is_ok status)) [
    | inl fine ↦ rw fine (stored status value (ground arith) (ground arith) refl refl)
    | inr bad ↦ elim (Bool-cases (status == 401)) [
      | inl login ↦ rw (bad, login) (expelled status (some value) (ground arith) refl refl)
      | inr other ↦
          rw (bad, other)
            (lost (response status (some value)) (rw bad) (rw bad (ground arith)) refl refl)
    ]
  ]

  settle-sent : (out : Output (Body (shape g))) (w : World b) → (settle b g out w).sent ≡ w.sent
  unfolding settle
  settle-sent out w = ground arith

  -- `fetchResources` sends one GET. By its reply it stores the data and polls on, or goes to the
  -- login page and keeps what it has (status 401), or forgets the data; no other getter changes.
  pub fetch_resources-Refresh :
      (w : World b)
      → ((fetch_resources b g w).1.sent ≡ (after_get w).sent)
        × Refresh w.stores w.hrefs (fetch_resources b g w).1 (got w)
  unfolding fetch_resources
  fetch_resources-Refresh w =
      (settle-sent (output (got w)) (after_get w), settle-Refresh (got w) (after_get w))
