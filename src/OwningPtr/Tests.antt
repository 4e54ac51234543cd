-- ===== src/OwningPtr/Tests.antt =====
-- An object that moves between variables, is released and is given back.
use codelab.Base.{List, [], ◌∷◌}
use codelab.OwningPtr.Owners.{
  Call, creating, taking_over, assigning, destroying, releasing, resetting, run, fresh_client,
  Serves, run-fresh_client,
}

abbrev moves : List Call
moves =
    creating 1 50
    ∷ taking_over 2 1
    ∷ creating 3 60
    ∷ assigning 3 2
    ∷ assigning 3 3
    ∷ releasing 3
    ∷ resetting 1 50
    ∷ destroying 1
    ∷ destroying 2
    ∷ []

run-fresh_client_example : Serves (run moves fresh_client)
run-fresh_client_example = run-fresh_client moves
