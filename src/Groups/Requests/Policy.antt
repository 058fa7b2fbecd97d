-- ===== src/Groups/Requests/Policy.antt =====
-- The format of an update policy: a name and an argument, with one comma between them.
use rdfm.Base.{ℕ, String, ◌<>◌, ◌==◌, nat_eq, true, false}
use rdfm.Base.{◌≡◌, ◌↔◌, arith, count_char}
use rdfm.Base.{length-split, has_char-count_char, if◌then◌else◌, Bool-cases, inl, inr}
use rdfm.Utils.Model.{failed}
use rdfm.Utils.World.{Browser, World}
use rdfm.Groups.Requests.{is_malformed, update_policy_request, post_policy}

-- A policy is well-formed exactly when it has one comma.
pub is_malformed_iff :
    (policy : String) → (is_malformed policy ≡ false) ↔ (count_char b',' policy ≡ 1)
unfolding is_malformed
is_malformed_iff policy = (
  λ h. ground (arith, length-split b',' policy),
  λ h. ground (arith, length-split b',' policy, has_char-count_char b',' policy),
)

update_policy_request-wellformed :
    (b : Browser) (id : ℕ) (policy : String) (w : World b)
    → is_malformed policy ≡ false
    → update_policy_request b id policy w ≡ post_policy b id policy w
unfolding update_policy_request
update_policy_request-wellformed b id policy w h = rw h

update_policy_request-malformed :
    (b : Browser) (id : ℕ) (policy : String) (w : World b)
    → is_malformed policy ≡ true
    → update_policy_request b id policy w ≡ (failed ("Invalid policy format: " <> policy), w)
unfolding update_policy_request
update_policy_request-malformed b id policy w h = rw h

-- `updatePolicyRequest` sends a policy with exactly one comma, and no other: the others fail with a
-- message that quotes the policy, and nothing is sent or changed.
pub update_policy_request_lem :
    (b : Browser) (id : ℕ) (policy : String) (w : World b)
    → update_policy_request b id policy w ≡ (
        if count_char b',' policy == 1
        then post_policy b id policy w
        else (failed ("Invalid policy format: " <> policy), w))
update_policy_request_lem b id policy w = elim (Bool-cases (is_malformed policy)) [
  | inl bad ↦
      let other : (count_char b',' policy == 1) ≡ false = ground (arith, is_malformed_iff policy) in
      rw other (update_policy_request-malformed b id policy w bad)
  | inr good ↦
      let one : (count_char b',' policy == 1) ≡ true = ground (arith, is_malformed_iff policy) in
      rw one (update_policy_request-wellformed b id policy w good)
]
