-- ===== src/Tests/Calls.antt =====
-- Calls of the repository of users whose writes land later: on two logins, and on one.
use rpi_nest_api.Prelude.{String, ◌≡◌, ◌≢◌, refl, eq_iff, none, some, List, [], ◌∷◌}
use rpi_nest_api.Exec.{ok}
use rpi_nest_api.Users.{Call, CreateUserData, create_call, update_call, remove_call, perform_all}
use rpi_nest_api.Users.Turns.{Move, ask, land, begin, run, quiet}
use rpi_nest_api.Users.Turns.Calm.{IsCalm, run-eq-perform_all}
use rpi_nest_api.Tests.Accounts.{two_users, eve}
use rpi_nest_api.Tests.Stores.{user_store}

abbrev data_with : String → CreateUserData
data_with password_hash = record { password_hash = password_hash; description = none; roles = [] }

abbrev demote_eve : Call
demote_eve =
    update_call 31 "eve" (record { password_hash = none; description = none; roles = some [] })

abbrev describe_eve : Call
describe_eve =
    update_call 32 "eve" (record { password_hash = none; description = some "Eve"; roles = none })

-- The write for "bob" lands after that for "eve", which came later; then "eve" is removed.
abbrev calm_moves : List Move
calm_moves =
    ask (create_call 30 "bob" (data_with "h"))
    ∷ ask demote_eve
    ∷ land 0
    ∷ ask (remove_call 33 "eve")
    ∷ land 1
    ∷ land 0
    ∷ []

bob_not_eve : ◌≢◌ {A = String} "bob" "eve"
bob_not_eve e = cc ((eq_iff "bob" "eve").1 e)

calm_moves-IsCalm : IsCalm user_store calm_moves (quiet two_users)
unfolding begin
calm_moves-IsCalm = (tt, ((bob_not_eve, tt), ((bob_not_eve, tt), tt)))

all_landed : (run user_store calm_moves (quiet two_users)).1.writes ≡ []
unfolding run
all_landed = refl

run-eq-perform_all_example :
    ((run user_store calm_moves (quiet two_users)).0
      ≡ (perform_all user_store
          (create_call 30 "bob" (data_with "h") ∷ demote_eve ∷ remove_call 33 "eve" ∷ [])
          two_users).0)
    × ((k : String)
        → user_store.get (run user_store calm_moves (quiet two_users)).1.store k
          ≡ user_store.get
              (perform_all user_store
                (create_call 30 "bob" (data_with "h") ∷ demote_eve ∷ remove_call 33 "eve" ∷ [])
                two_users).1
              k)
run-eq-perform_all_example =
    run-eq-perform_all user_store calm_moves two_users calm_moves-IsCalm all_landed

-- Two creations of one user are both answered with success, and an update that is under way with
-- another one for the same user undoes it.
both_created :
    (run user_store
      (ask (create_call 30 "bob" (data_with "h")) ∷ ask (create_call 31 "bob" (data_with "i")) ∷ [])
      (quiet two_users)).0
    ≡ ok tt ∷ ok tt ∷ []
unfolding run
both_created = refl

demotion_lost :
    user_store.get
      (run user_store
        (ask demote_eve ∷ ask describe_eve ∷ land 1 ∷ land 0 ∷ [])
        (quiet two_users)).1.store
      "eve"
    ≡ some (record eve { description = some "Eve"; modified = 32 })
unfolding run
demotion_lost = refl
