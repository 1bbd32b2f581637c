-- ===== src/Validation/Metadata.antt =====
-- The request of src/device/device.controller.ts that writes the metadata of the device.
use rpi_nest_api.Prelude.{
  ℕ, ◌≤◌, String, ◌≡◌, ◌≢◌, ◌⊎◌, inl, inr, refl, ap, ◌∙◌, Option, some, [], ◌∷◌, arith,
}
use rpi_nest_api.Exec.{Void, Exception, Exec, ok, err, Result-cases, lift, ◌>>=◌}
use rpi_nest_api.Json.{text, Fields, get}
use rpi_nest_api.Settings.{
  SettingsKey, MetadataSettings, PartialMetadata, SettingsStore, metadata, merge,
}
use rpi_nest_api.Device.Metadata.{get_meta_data, set_meta_data}
use rpi_nest_api.Device.Metadata.RoundTrip.{set_meta_data-get_meta_data}
use rpi_nest_api.Validation.{
  Checks, IsValid, tested_at, string_length, decorated, decorators, max_length, is_string,
  is_optional,
}
use rpi_nest_api.Validation.Dto.{device_metadata_dto}
use rpi_nest_api.Validation.Accounts.{optional_text}

-- The properties that a body has.
abbrev pub SendsMetadata : Fields → MetadataSettings → Type 0
SendsMetadata fs v =
    (get "name" fs ≡ optional_text v.name)
    × (get "description" fs ≡ optional_text v.description)
    × (get "location" fs ≡ optional_text v.location)

-- The instance of DeviceMetadataDto with the properties of a body. A new instance has all three
-- fields, undefined, as the compiler's target ESNext defines them; so each is present.
abbrev pub metadata_instance : MetadataSettings → PartialMetadata
metadata_instance v = record {
  name = some v.name;
  description = some v.description;
  location = some v.location;
}

abbrev pub AtMost : ℕ → Option String → Type 0
AtMost n o = (t : String) → o ≡ some t → string_length t ≤ n

-- The limits of the properties.
abbrev pub InLimits : MetadataSettings → Type 0
InLimits v = AtMost 253 v.name × AtMost 1000 v.description × AtMost 500 v.location

module _ {T : Type 0} (checks : Checks) (settings : SettingsStore T) where
  unfoldable pub receive_meta_data : Fields → MetadataSettings → Exec T Void
  receive_meta_data fs v = do
    body ← lift (checks.transform device_metadata_dto fs)
    set_meta_data settings (metadata_instance v)

  text_AtMost :
      (n : ℕ) (fs : Fields) (name : String) (o : Option String)
      → IsValid checks.check device_metadata_dto fs
      → decorators name device_metadata_dto
        ≡ some (decorated (max_length n ∷ is_string ∷ is_optional ∷ []))
      → get name fs ≡ optional_text o
      → AtMost n o
  text_AtMost n fs name o valid d sent t e =
      let tested =
        tested_at checks.check device_metadata_dto fs name _ (text t) valid.tested d
          (sent ∙ ap optional_text e) refl in
      ground (arith, checks.max_length_lem n t, tested.0 refl)

  valid-InLimits :
      (fs : Fields) (v : MetadataSettings)
      → IsValid checks.check device_metadata_dto fs
      → SendsMetadata fs v
      → InLimits v
  valid-InLimits fs v valid (n, d, l) = (
    text_AtMost 253 fs "name" v.name valid refl n,
    text_AtMost 1000 fs "description" v.description valid refl d,
    text_AtMost 500 fs "location" v.location valid refl l,
  )

  -- If the metadata is initialised, a request to write it, whose body has texts for the properties
  -- that it names, has two outcomes: it throws and changes nothing; or the name has at most 253
  -- characters, the description 1000 and the location 500, the metadata that is read afterwards is
  -- that of the body, with nothing for what it does not name, and no other setting changes.
  pub receive_meta_data_lem :
      (fs : Fields) (v old : MetadataSettings) (s : T)
      → SendsMetadata fs v
      → settings.get s metadata ≡ some old
      → ((e : Exception) × (receive_meta_data fs v s ≡ (err e, s)))
        ⊎ ((s' : T) × (receive_meta_data fs v s ≡ (ok tt, s'))
            × InLimits v
            × (get_meta_data settings s' ≡ (ok v, s'))
            × ((k : SettingsKey) → k ≢ metadata → settings.get s' k ≡ settings.get s k))
  unfolding receive_meta_data
  receive_meta_data_lem fs v old s sends stored =
      elim (Result-cases (checks.transform device_metadata_dto fs)) [
        | inr (e, r) ↦ inl (e, rw r)
        | inl (gs, r) ↦
            let (s', done, read, others) =
              set_meta_data-get_meta_data settings old (metadata_instance v) s stored in
            inr (
              s',
              rw r done,
              valid-InLimits fs v (checks.transform_accepted device_metadata_dto fs gs r).1 sends,
              unfold merge in read,
              others,
            )
      ]
