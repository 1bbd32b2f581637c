-- ===== src/Database.antt =====
-- The database of the third-party package lmdb (`Database`), as the repositories of
-- src/datastore use it: an interface with the documented behaviour of its calls. The state of a
-- database is `St`; a key `k` stores values of type `V k`.
pub mod Assoc
use rpi_nest_api.Prelude.{Bool, ◌≡◌, ◌≢◌, Option, none, some, is_some}

pub record Database (St : Type 0) (K : Type 0) (V : K → Type 0) : Type 0 where
  pub get : St → (k : K) → Option (V k)
  pub does_exist : St → K → Bool
  pub put : St → (k : K) → V k → St
  pub remove : St → K → St
  pub get-put_self : (s : St) (k : K) (v : V k) → get (put s k v) k ≡ some v
  pub get-put_other : (s : St) (k j : K) (v : V k) → j ≢ k → get (put s k v) j ≡ get s j
  pub get-remove_self : (s : St) (k : K) → get (remove s k) k ≡ none
  pub get-remove_other : (s : St) (k j : K) → j ≢ k → get (remove s k) j ≡ get s j
  pub does_exist_lem : (s : St) (k : K) → does_exist s k ≡ is_some (get s k)
