-- ===== src/Tests/Description.antt =====
-- The properties of the proxies' events and of the description of the API at samples.
use rpi_nest_api.Prelude.{arith, ℕ, none, some, List, [], ◌∷◌, ◌≡◌, refl}
use rpi_nest_api.Dbus.Variants.{text, object, array, nil, end, field}
use rpi_nest_api.Dbus.Events.{
  Registration, Call, on, remove_listener, run, step, forward_new, forward_removed, constructed,
  properties_changed,
}
use rpi_nest_api.Dbus.Events.Delivery.{properties_changed-called}
use rpi_nest_api.OpenApi.{Operation, PathItem, get_, add_default_responses, fix_schema}
use rpi_nest_api.OpenApi.Responses.{described_paths, add_default_responses-eq-described_paths}

abbrev changes_to : ℕ → Registration
changes_to listener = record { event = "PropertiesChanged"; listener = listener }

abbrev sample_calls : List Call
sample_calls =
    on (changes_to 7)
    ∷ on (changes_to 8)
    ∷ on (record { event = "Updated"; listener = 9 })
    ∷ remove_listener (changes_to 7)
    ∷ on (changes_to 7)
    ∷ []

properties_changed-called_example :
    properties_changed "org.freedesktop.timedate1" "org.freedesktop.timedate1"
      (run sample_calls constructed)
    ≡ 8 ∷ 7 ∷ []
unfolding run step forward_new forward_removed constructed
properties_changed-called_example =
    properties_changed-called sample_calls "org.freedesktop.timedate1" "org.freedesktop.timedate1"
      (omega arith, (omega arith, (omega arith, (omega arith, (omega arith, tt)))))

-- The second listener stays on the interface when both were removed.
left_behind :
    (run
      (on (changes_to 7)
        ∷ on (changes_to 8)
        ∷ remove_listener (changes_to 7)
        ∷ remove_listener (changes_to 8)
        ∷ [])
      constructed).on_interface
    ≡ changes_to 8 ∷ record { event = "removeListener"; listener = 1 } ∷ []
unfolding run step forward_new forward_removed constructed
left_behind = refl

abbrev sample_operation : Operation
sample_operation = record { security = some (text "bearer"); responses = λ code. none }

abbrev sample_item : PathItem
sample_item get_ = some sample_operation
sample_item _ = none

add_default_responses-eq-described_paths_example :
    add_default_responses (("/device", sample_item) ∷ [])
    ≡ described_paths (("/device", sample_item) ∷ [])
add_default_responses-eq-described_paths_example =
    add_default_responses-eq-described_paths (("/device", sample_item) ∷ [])

fixed_schema :
    fix_schema (
      object (
        field "type" (text "object") (
          field "properties"
            (object (
              field "roles" (object (field "items" (text "x") (field "enum" (array nil) end))) end))
            end)))
    ≡ object (
        field "type" (text "object") (
          field "properties"
            (object (field "roles" (object (field "items" (text "x") end)) end))
            end))
unfolding fix_schema
fixed_schema = refl
