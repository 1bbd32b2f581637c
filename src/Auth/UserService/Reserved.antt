-- ===== src/Auth/UserService/Reserved.antt =====
-- The account "admin" is out of the reach of the user service.
use rpi_nest_api.Prelude.{
  ℕ, String, false, ◌≡◌, refl, List, [], ◌∷◌, arith, ◌==◌, ◌∙◌, eq_iff, Bool-cases, Option-cases,
  inl, inr,
}
use rpi_nest_api.Roles.{admin_user_name}
use rpi_nest_api.Users
use rpi_nest_api.Users.{UserStore, UserData, Call, create_call, update_call, remove_call, perform}
use rpi_nest_api.Users.Directory.{perform-other, login_of}
use rpi_nest_api.Auth.Crypto.{Bcrypt}
use rpi_nest_api.Auth.UserService.{
  UpdateUserDto, UserRequest, put, patch, delete, update_known, handle, serve,
}

module _ {U : Type 0} (db : UserStore U) where
  call-admin :
      (c : Call) (s : U)
      → (login_of c == admin_user_name) ≡ false
      → db.get (perform db c s).1 admin_user_name ≡ db.get s admin_user_name
  call-admin c s h =
      perform-other db c s admin_user_name
        (λ e. ground (arith, eq_iff (login_of c) admin_user_name))

  create-admin :
      (now : ℕ) (k : String) (c : Users.CreateUserData) (s : U)
      → (k == admin_user_name) ≡ false
      → db.get (Users.create db now k c s).1 admin_user_name ≡ db.get s admin_user_name
  unfolding perform
  create-admin now k c s h = call-admin (create_call now k c) s h

  update-admin :
      (now : ℕ) (k : String) (c : Users.UpdateUserData) (s : U)
      → (k == admin_user_name) ≡ false
      → db.get (Users.update db now k c s).1 admin_user_name ≡ db.get s admin_user_name
  unfolding perform
  update-admin now k c s h = call-admin (update_call now k c) s h

  remove-admin :
      (k : String) (s : U)
      → (k == admin_user_name) ≡ false
      → db.get (Users.remove db k s).1 admin_user_name ≡ db.get s admin_user_name
  unfolding perform
  remove-admin k s h = call-admin (remove_call 0 k) s h

  update_known-admin :
      (now : ℕ) (k : String) (c : UpdateUserDto) (s : U)
      → db.get (update_known db now k c s).1 admin_user_name ≡ db.get s admin_user_name
  update_known-admin now k c s = elim (Bool-cases (k == admin_user_name)) [
    | inl reserved ↦ rw reserved
    | inr free ↦ rw free (update-admin now k _ s free)
  ]

module _ {U : Type 0} (db : UserStore U) (bcrypt : Bcrypt) where
  pub handle-admin :
      (r : UserRequest) (s : U)
      → db.get (handle db bcrypt r s).1 admin_user_name ≡ db.get s admin_user_name
  unfolding handle
  handle-admin (put now salt u) s = elim (Bool-cases (u.login == admin_user_name)) [
    | inl reserved ↦ rw reserved
    | inr free ↦ rw free (create-admin db now u.login _ s free)
  ]
  handle-admin (patch now c) s = elim (Option-cases c.login) [
    | inl e ↦ rw e
    | inr (k, e) ↦ rw e (update_known-admin db now k c s)
  ]
  handle-admin (delete login) s = elim (Bool-cases (login == admin_user_name)) [
    | inl reserved ↦ rw reserved
    | inr free ↦ rw free (remove-admin db login s free)
  ]

  -- No requests to the user controller, however many and with whatever data, change the account
  -- "admin": it is neither created nor modified nor removed.
  pub serve-admin :
      (rs : List UserRequest) (s : U)
      → db.get (serve db bcrypt rs s) admin_user_name ≡ db.get s admin_user_name
  unfolding serve
  serve-admin [] s = refl
  serve-admin (r ∷ rs) s = serve-admin rs (handle db bcrypt r s).1 ∙ handle-admin r s
