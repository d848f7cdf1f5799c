-- ===== src/Tests/Mqtt.antt =====
-- The MQTT side of bridge/r60v_broker at concrete inputs.
use r60v_home_assistant.Base.{◌≡◌, ◌≢◌, refl, true, false, none, some, [], ◌∷◌}
use r60v_home_assistant.Protocol.Text.{Text, codes}
use r60v_home_assistant.Broker.Command.{unknown}
use r60v_home_assistant.State.Entities.{Rounded, unreadable, entities, climate_entities}
use r60v_home_assistant.State.Entities.Resolve.{resolve}
use r60v_home_assistant.Store.{DeviceState, note_wedged, note_success, available, set_available}
use r60v_home_assistant.Store
use r60v_home_assistant.Mqtt.{
  MqttBridge, command_topic, climate_target_command_topic, availability_topic, publish_availability,
  on_store_change, on_connect, on_message,
}
use r60v_home_assistant.Mqtt.Routing.{is_among, subscribed-known}

-- A reader of no number at all.
abbrev no_number : Text → Rounded
no_number s = unreadable

abbrev bridge : MqttBridge
bridge = record {
  base_topic = codes "rocket-r60v";
  made = true;
  published = [];
  subscribed = [];
  last_pub_available = none;
}

abbrev power_topic : Text
power_topic = codes "rocket-r60v/power/set"

power-subscribed : is_among power_topic (on_connect no_number bridge).subscribed ≡ true
unfolding on_connect entities command_topic climate_entities climate_target_command_topic
    publish_availability
power-subscribed = refl

subscribed-known_example :
    (key : Text) × (on_message no_number bridge.base_topic power_topic ≡ some key)
    × (resolve no_number key (codes "ON") ≢ unknown)
subscribed-known_example =
    subscribed-known no_number bridge power_topic (codes "ON") refl power-subscribed

steam_routed :
    on_message no_number (codes "rocket-r60v") (codes "rocket-r60v/steam_boiler/target/set")
    ≡ some (codes "steam_boiler")
unfolding on_message entities command_topic climate_entities climate_target_command_topic
steam_routed = refl

sensor_ignored : on_message no_number (codes "rocket-r60v") (codes "rocket-r60v/display/set") ≡ none
unfolding on_message entities command_topic climate_entities climate_target_command_topic
sensor_ignored = refl

-- The store is offline, and the bridge has said so. When the MQTT client connects again it says that
-- the machine is online, and the store's next event does not correct it.
abbrev offline : DeviceState
offline = note_wedged (Store.init 3 30000 2)

offline-Unavailable : available offline ≡ false
unfolding note_wedged available Store.init set_available
offline-Unavailable = refl

reconnected :
    (on_store_change offline (on_connect no_number (on_store_change offline bridge))).published
    ≡ (codes "rocket-r60v/status", codes "offline")
      ∷ (codes "rocket-r60v/status", codes "online")
      ∷ []
unfolding on_store_change on_connect publish_availability availability_topic note_wedged available
    Store.init set_available
reconnected = refl
