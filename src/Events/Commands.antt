-- ===== src/Events/Commands.antt =====
-- `build_map_event_command` of app/services/public_event_commands.py, and the commands of service_models.py.
-- `V` stands for the values of a JSON object that are not null; a null and a missing key are both
-- `None` to `payload.get(key)`.
use parcel_explorer.Prelude.{
  CharTests, strip, text_eq, String, Text, codes, Option, none, some, Dict, lookup, or_else,
  if◌then◌else◌,
}

abbrev pub Payload : Type 0 → Type 0
Payload V = Dict (Option V)

-- payload.get(key)
abbrev pub get : {V : Type 0} → String → Payload V → Option V
get key payload = or_else (lookup key payload) none

-- the whole MapEventCommand
pub data MapEventCommand (V : Type 0) : Type 0 where
  search_command :
      Option V → Option V → Option V → Option V → Option V → Option V → Option V → MapEventCommand V
  land_click_command : Option V → Option V → Option V → Option V → MapEventCommand V
  unknown_command : Text → Option V → MapEventCommand V

module _ {V : Type 0} (chars : CharTests) (str : V → Text) where
  -- str(payload.get("eventType", "")).strip()
  abbrev pub event_type_of : Payload V → Text
  event_type_of payload = elim (lookup "eventType" payload) [
    | none ↦ strip chars (codes "")
    | some none ↦ strip chars (codes "None")
    | some (some v) ↦ strip chars (str v)
  ]

  unfoldable pub build_map_event_command : Payload V → MapEventCommand V
  build_map_event_command payload =
      let event_type = event_type_of payload in
      if text_eq event_type (codes "search")
      then search_command (get "anonId" payload) (get "minArea" payload) (get "searchTerm" payload)
          (get "rawSearchTerm" payload) (get "rawMinAreaInput" payload)
          (get "rawMaxAreaInput" payload) (get "rawRentOnly" payload)
      else if text_eq event_type (codes "land_click")
      then land_click_command (get "anonId" payload) (get "landAddress" payload)
          (get "landId" payload) (get "clickSource" payload)
      else unknown_command event_type (get "anonId" payload)
