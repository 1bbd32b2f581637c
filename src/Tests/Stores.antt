-- ===== src/Tests/Stores.antt =====
-- Concrete stores: users in an association list, settings in a record.
use rpi_nest_api.Prelude.{
  String, ◌≡◌, ◌≢◌, refl, ap, Option, none, some, is_some, List, [], ◌∷◌, map, includes_text, ◌∙◌,
}
use rpi_nest_api.Database.Assoc.{lookup, keys, includes-keys, assoc}
use rpi_nest_api.Users.{UserData, StoreKey, text, symbol, text_keys, UserStore}
use rpi_nest_api.Settings.{
  AuthenticationSettings, MetadataSettings, TestSettings, SettingsKey, SettingsType, SettingsStore,
  authentication, metadata, test,
}

abbrev pub Users : Type 0
Users = List (String × UserData)

-- lmdb keeps the shared structures under a symbol.
abbrev stored_keys : Users → List StoreKey
stored_keys s = symbol "structures" ∷ map text (keys s)

text_keys-map : (ks : List String) → text_keys (map text ks) ≡ ks
text_keys-map [] = refl
text_keys-map (k ∷ ks) = ap (λ rest. k ∷ rest) (text_keys-map ks)

pub stored_keys_lem :
    (s : Users) (k : String) → includes_text (text_keys (stored_keys s)) k ≡ is_some (lookup k s)
stored_keys_lem s k = ap (λ ks. includes_text ks k) (text_keys-map (keys s)) ∙ includes-keys k s

abbrev pub user_store : UserStore Users
user_store = record {
  database = assoc UserData;
  get_keys = stored_keys;
  get_many = λ s ks. map (λ k. lookup k s) ks;
  get_keys_lem = stored_keys_lem;
  get_many_lem = λ s ks. refl;
}

pub record SettingsTable : Type 0 where
  pub of_authentication : Option AuthenticationSettings
  pub of_metadata : Option MetadataSettings
  pub of_test : Option TestSettings

abbrev read : SettingsTable → (k : SettingsKey) → Option (SettingsType k)
read s authentication = s.of_authentication
read s metadata = s.of_metadata
read s test = s.of_test

abbrev write : SettingsTable → (k : SettingsKey) → Option (SettingsType k) → SettingsTable
write s authentication v = record s { of_authentication = v }
write s metadata v = record s { of_metadata = v }
write s test v = record s { of_test = v }

pub read-write :
    (s : SettingsTable) (k : SettingsKey) (v : Option (SettingsType k)) → read (write s k v) k ≡ v
read-write s authentication v = refl
read-write s metadata v = refl
read-write s test v = refl

pub read-write_other :
    (s : SettingsTable) (k j : SettingsKey) (v : Option (SettingsType k))
    → j ≢ k
    → read (write s k v) j ≡ read s j
read-write_other s authentication authentication v h = absurd (h refl)
read-write_other s authentication metadata v h = refl
read-write_other s authentication test v h = refl
read-write_other s metadata authentication v h = refl
read-write_other s metadata metadata v h = absurd (h refl)
read-write_other s metadata test v h = refl
read-write_other s test authentication v h = refl
read-write_other s test metadata v h = refl
read-write_other s test test v h = absurd (h refl)

abbrev pub settings_store : SettingsStore SettingsTable
settings_store = record {
  get = read;
  does_exist = λ s k. is_some (read s k);
  put = λ s k v. write s k (some v);
  remove = λ s k. write s k none;
  get-put_self = λ s k v. read-write s k (some v);
  get-put_other = λ s k j v h. read-write_other s k j (some v) h;
  get-remove_self = λ s k. read-write s k none;
  get-remove_other = λ s k j h. read-write_other s k j none h;
  does_exist_lem = λ s k. refl;
}
