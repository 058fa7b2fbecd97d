-- ===== src/Utils/Submission.antt =====
-- What the submission of a form promises, for the two forms that create something: a package and a
-- group.
use rdfm.Base.{ℕ, String, Bool, true, false, Option, none, some, List, [], ◌≡◌, ◌≢◌}
use rdfm.Utils.Model.{RequestOutput}
use rdfm.Utils.World.{Browser, World, Getter}
use rdfm.Utils.Fetch.{Output}
use rdfm.Utils.Resources.{fetch_resources}
use rdfm.Utils.Permissions.{update_permissions}

-- The result of the function: `none` is a rejected promise.
abbrev pub settled : Bool → RequestOutput → Option RequestOutput
settled true output = some output
settled false output = none

-- From `w` the function came to `m`; `r` is the result of its request, made only if the form has no
-- errors.
pub data Submitted (b : Browser) (errors : List (String × String)) (w : World b)
    (r : Output (Unit {0}) × World b) (refused_as : Option ℕ → RequestOutput)
    (done_as : RequestOutput) (g : Getter) (m : Option RequestOutput × World b) : Type 0 where
  invalid :
      errors ≢ []
      → m ≡ (some (record { success = false; message = none; errors = some errors }), w)
      → Submitted b errors w r refused_as done_as g m
  refused :
      errors ≡ []
      → r.0.success ≡ false
      → m ≡ (some (refused_as r.0.code), r.1)
      → Submitted b errors w r refused_as done_as g m
  accepted :
      (u : Bool × World b)
      → errors ≡ []
      → r.0.success ≡ true
      → u ≡ update_permissions b (fetch_resources b g r.1).1
      → m ≡ (settled u.0 done_as, u.1)
      → Submitted b errors w r refused_as done_as g m
