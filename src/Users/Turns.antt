-- ===== src/Users/Turns.antt =====
-- src/datastore/user-repository/user.repository.ts between the turns of the event loop. lmdb makes
-- the write of a call later than the call (`commitDelay`), and other calls read before that what was
-- stored. So a call checks and reads the store at once, and its write lands at some later time.
use rpi_nest_api.Prelude.{
  ℕ, zero, suc, String, true, false, ◌≡◌, ◌≢◌, Option, none, some, List, [], ◌∷◌, All, not,
  if◌then◌else◌,
}
use rpi_nest_api.Exec.{Void, Result, ok, err, error}
use rpi_nest_api.Users.{
  UserData, UpdateUserData, UserStore, Call, create_call, update_call, remove_call, new_user, merge,
}
use rpi_nest_api.Users.Directory.{login_of}
pub mod Calm

-- A write that has not landed: a user that is put, or none where one is removed.
pub record Write : Type 0 where
  pub login : String
  pub value : Option UserData

pub record System (U : Type 0) : Type 0 where
  pub store : U
  pub writes : List Write

-- A call comes in, or the write at a place lands.
pub data Move : Type 0 where
  ask : Call → Move
  land : ℕ → Move

abbrev pub calls_of : List Move → List Call
calls_of [] = []
calls_of (ask c ∷ ms) = c ∷ calls_of ms
calls_of (land n ∷ ms) = calls_of ms

abbrev pub write_at : ℕ → List Write → Option Write
write_at n [] = none
write_at zero (x ∷ xs) = some x
write_at (suc n) (x ∷ xs) = write_at n xs

abbrev pub without : ℕ → List Write → List Write
without n [] = []
without zero (x ∷ xs) = xs
without (suc n) (x ∷ xs) = x ∷ without n xs

abbrev pub update_value : ℕ → UpdateUserData → Option UserData → Result (Option UserData)
update_value now c none = err (error "Could not update unknown user")
update_value now c (some user) = ok (some (merge now user c))

module _ {U : Type 0} (db : UserStore U) where
  -- A call up to its write: an exception, or the value to write.
  unfoldable pub begin : Call → U → Result (Option UserData)
  begin (create_call now login c) s =
      if db.does_exist s login
      then err (error "User already exists")
      else ok (some (new_user now login c))
  begin (update_call now login c) s = update_value now c (db.get s login)
  begin (remove_call now login) s =
      if not (db.does_exist s login) then err (error "Could not remove unknown user") else ok none

  abbrev pub write : String → Option UserData → U → U
  write login none s = db.remove s login
  write login (some u) s = db.put s login u

  abbrev pub begun : Call → Result (Option UserData) → System U → Result Void × System U
  begun c (ok v) s =
      (ok tt, record s { writes = record { login = login_of c; value = v } ∷ s.writes })
  begun c (err e) s = (err e, s)

  abbrev pub landed : ℕ → Option Write → System U → System U
  landed n none s = s
  landed n (some w) s = record {
    store = write w.login w.value s.store;
    writes = without n s.writes;
  }

  -- What the calls are answered with, and the end.
  unfoldable pub run : List Move → System U → List (Result Void) × System U
  unfolding begin
  run [] s = ([], s)
  run (ask c ∷ ms) s =
      let (r, s') = begun c (begin c s.store) s in let (rs, s'') = run ms s' in (r ∷ rs, s'')
  run (land n ∷ ms) s = run ms (landed n (write_at n s.writes) s)

abbrev pub quiet : {U : Type 0} → U → System U
quiet s = record { store = s; writes = [] }
