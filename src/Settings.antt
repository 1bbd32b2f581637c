-- ===== src/Settings.antt =====
-- src/datastore/settings-repository: the settings of the API, by key, in lmdb's store 'settings'.
-- The type of a value depends on its key. A property of a `Partial` object is `none` where the
-- object has no such property; `some none` is a property that is present and undefined.
use rpi_nest_api.Prelude.{String, Bool, true, Option, none, some, List, [], ◌∷◌, or_else, template}
use rpi_nest_api.Exec.{Void, Exec, error, pure, throw, gets, modify, ◌>>=◌, ◌>>◌}
use rpi_nest_api.Database.{Database}
pub mod Access
pub mod Maintenance

pub record AuthenticationSettings : Type 0 where
  pub is_admin_password_reset_enabled : Bool

pub record MetadataSettings : Type 0 where
  pub name : Option String
  pub description : Option String
  pub location : Option String

pub record TestSettings : Type 0 where
  pub foo : String
  pub bar : String

pub data SettingsKey : Type 0 where
  authentication metadata test : SettingsKey

abbrev pub SettingsType : SettingsKey → Type 0
SettingsType authentication = AuthenticationSettings
SettingsType metadata = MetadataSettings
SettingsType test = TestSettings

pub record PartialAuthentication : Type 0 where
  pub is_admin_password_reset_enabled : Option Bool

pub record PartialMetadata : Type 0 where
  pub name : Option (Option String)
  pub description : Option (Option String)
  pub location : Option (Option String)

pub record PartialTest : Type 0 where
  pub foo : Option String
  pub bar : Option String

abbrev pub PartialSettings : SettingsKey → Type 0
PartialSettings authentication = PartialAuthentication
PartialSettings metadata = PartialMetadata
PartialSettings test = PartialTest

abbrev pub key_text : SettingsKey → String
key_text authentication = "authentication"
key_text metadata = "metadata"
key_text test = "test"

-- DEFAULT_SETTINGS, and its keys in the order of `Object.keys`
abbrev pub default_settings : (k : SettingsKey) → SettingsType k
default_settings authentication = record { is_admin_password_reset_enabled = true }
default_settings metadata = record { name = none; description = none; location = none }
default_settings test = record { foo = "foo"; bar = "bar" }

abbrev pub all_settings_keys : List SettingsKey
all_settings_keys = authentication ∷ metadata ∷ test ∷ []

-- { ...currentValue, ...data }
unfoldable pub merge : (k : SettingsKey) → SettingsType k → PartialSettings k → SettingsType k
merge authentication v c = record {
  is_admin_password_reset_enabled =
      or_else c.is_admin_password_reset_enabled v.is_admin_password_reset_enabled;
}
merge metadata v c = record {
  name = or_else c.name v.name;
  description = or_else c.description v.description;
  location = or_else c.location v.location;
}
merge test v c = record { foo = or_else c.foo v.foo; bar = or_else c.bar v.bar }

abbrev pub SettingsStore : Type 0 → Type 0
SettingsStore St = Database St SettingsKey SettingsType

abbrev pub not_initialized : SettingsKey → String
not_initialized k = template ("Settings \"" ∷ key_text k ∷ "\" not initialized." ∷ [])

module _ {St : Type 0} (db : SettingsStore St) where
  abbrev pub value_or_throw : (k : SettingsKey) → Option (SettingsType k) → Exec St (SettingsType k)
  value_or_throw k none = throw (error (not_initialized k))
  value_or_throw k (some v) = pure v

  unfoldable pub get : (k : SettingsKey) → Exec St (SettingsType k)
  get k = do value ← gets (λ s. db.get s k); value_or_throw k value

  unfoldable pub is_initialized : SettingsKey → Exec St Bool
  is_initialized k = gets (λ s. db.does_exist s k)

  unfoldable pub reset_defaults : SettingsKey → Exec St Void
  reset_defaults k = modify (λ s. db.put s k (default_settings k))

  unfoldable pub update : (k : SettingsKey) → PartialSettings k → Exec St Void
  unfolding get
  update k c = do current_value ← get k; modify (λ s. db.put s k (merge k current_value c))

  unfoldable pub set : (k : SettingsKey) → SettingsType k → Exec St Void
  set k v = modify (λ s. db.put s k v)

-- What `for(key)` hands out.
pub record BoundSettings (St : Type 0) (k : SettingsKey) : Type 0 where
  pub get : Exec St (SettingsType k)
  pub is_initialized : Exec St Bool
  pub reset_defaults : Exec St Void
  pub update : PartialSettings k → Exec St Void

module _ {St : Type 0} (db : SettingsStore St) where
  unfoldable pub for : (k : SettingsKey) → BoundSettings St k
  unfolding get is_initialized reset_defaults update
  for k = record {
    get = get db k;
    is_initialized = is_initialized db k;
    reset_defaults = reset_defaults db k;
    update = update db k;
  }
