-- ===== src/Integration/Diagnostics.antt =====
-- What custom_components/rocket_r60v shows of the link: the parsing of bridge_health.py, the
-- availability of an entity (entity.py) and the diagnostics of sensor.py and binary_sensor.py.
pub mod Link
use r60v_home_assistant.Base.{
  ℕ, Bool, true, false, not, ◌&&◌, ◌||◌, Option, none, some, List, [], ◌∷◌, if◌then◌else◌, ltb,
  ◌==◌,
}
use mathlib.Core.Option
use r60v_home_assistant.Base.Int.{ℤ, pos, eq_ℤ}
use r60v_home_assistant.Protocol.Text.{Text, codes}
use r60v_home_assistant.Integration.Snapshot.{StateSnapshot}
use r60v_home_assistant.Integration.BridgeHealth.{BridgeHealth, usable}
use r60v_home_assistant.Integration.Coordinator.{Coordinator}

-- What `data.get` finds under a key: nothing, null, a boolean, an integer, a float (whether it is
-- not zero, and its integer part), a text, or a list or dict (whether it has members).
pub data Member : Type 0 where
  missing null : Member
  flag : Bool → Member
  number : ℤ → Member
  float : Bool → ℤ → Member
  text : Text → Member
  container : Bool → Member

has_char : Text → Bool
has_char [] = false
has_char (c ∷ s) = true

unfoldable pub as_bool : Member → Bool
unfolding has_char
as_bool missing = false
as_bool null = false
as_bool (flag b) = b
as_bool (number n) = not (eq_ℤ n (pos 0))
as_bool (float b n) = b
as_bool (text s) = has_char s
as_bool (container b) = b

-- `_as_bool(data.get(key, True))`
as_bool_or_true : Member → Bool
unfolding as_bool
as_bool_or_true missing = true
as_bool_or_true m = as_bool m

unfoldable pub as_int : Member → Option ℤ
as_int (number n) = some n
as_int (float b n) = some n
as_int _ = none

text_or_none : Member → Option Text
text_or_none (text s) = some s
text_or_none _ = none

-- `iso` is what `datetime.fromisoformat` makes of a text whose Z is replaced; `none` is its
-- `ValueError`.
parse_iso : (Text → Option ℕ) → Member → Option ℕ
parse_iso iso (text (c ∷ s)) = iso (c ∷ s)
parse_iso iso _ = none

-- `BridgeHealth.from_json`, where `get` looks a key up.
unfoldable pub from_json : (Text → Option ℕ) → (Text → Member) → BridgeHealth
unfolding as_bool_or_true text_or_none parse_iso
from_json iso get = record {
  available = as_bool_or_true (get (codes "available"));
  schema = as_int (get (codes "schema"));
  link_up = as_bool (get (codes "link_up"));
  ssid = text_or_none (get (codes "ssid"));
  signal = as_int (get (codes "signal"));
  ip = text_or_none (get (codes "ip"));
  machine_reachable = as_bool (get (codes "machine_reachable"));
  ap_visible = as_bool (get (codes "ap_visible"));
  machine_powered_off = as_bool (get (codes "machine_powered_off"));
  diagnostic_window = as_bool (get (codes "diagnostic_window"));
  link_uptime_s = as_int (get (codes "link_uptime_s"));
  recoveries_total = as_int (get (codes "recoveries_total"));
  last_recovery = parse_iso iso (get (codes "last_recovery"));
  stale = as_bool (get (codes "stale"));
  updated = parse_iso iso (get (codes "updated"));
}

-- What comes of a request to the endpoint: an exception that is caught, or a status and a body,
-- which is no dict or a dict by its `get`.
pub data Response : Type 0 where
  unreachable : Response
  answers : ℕ → Option (Text → Member) → Response

-- `async_fetch_bridge_health`
unfoldable pub fetch_bridge_health : (Text → Option ℕ) → Response → Option BridgeHealth
fetch_bridge_health iso unreachable = none
fetch_bridge_health iso (answers status body) =
    if status == 200 then Option.map (from_json iso) body else none

shown_available : Option StateSnapshot → Bool
shown_available none = false
shown_available (some s) = s.available

-- `R60VEntity.available`; the base class looks at `last_update_success`.
unfoldable pub entity_available : Coordinator → Bool
unfolding shown_available
entity_available c = c.last_update_success && shown_available c.data_now

-- `R60VMachineConnectivitySensor.is_on`
unfoldable pub machine_connectivity : Coordinator → Option Bool
machine_connectivity c = Option.map (λ (s : StateSnapshot). s.available) c.data_now

pub data LinkState : Type 0 where
  up down recovering unknown : LinkState

link_of : Option BridgeHealth → LinkState
link_of none = unknown
link_of (some b) =
    if not (usable b)
    then unknown
    else if b.diagnostic_window
    then recovering
    else if b.link_up
    then up
    else down

-- `R60VBridgeLinkSensor.native_value`
unfoldable pub link_state : Coordinator → LinkState
unfolding link_of
link_state c = link_of c.bridge

-- The value of a usable report, by a property of the report.
when_usable {ℓ} :
    {A : Type ℓ}
    → (BridgeHealth → Bool)
    → (BridgeHealth → Option A)
    → Option BridgeHealth
    → Option A
when_usable test value none = none
when_usable test value (some b) = if test b then value b else none

-- The signal's, the uptime's, the recoveries' and the last recovery's `native_value`.
unfoldable pub link_signal : Coordinator → Option ℤ
unfolding when_usable
link_signal c = when_usable (λ b. usable b && b.link_up) (λ b. b.signal) c.bridge

unfoldable pub link_uptime : Coordinator → Option ℤ
unfolding when_usable
link_uptime c = when_usable (λ b. usable b && b.link_up) (λ b. b.link_uptime_s) c.bridge

unfoldable pub recoveries : Coordinator → Option ℤ
unfolding when_usable
recoveries c = when_usable (λ b. b.available) (λ b. b.recoveries_total) c.bridge

unfoldable pub last_recovery : Coordinator → Option ℕ
unfolding when_usable
last_recovery c = when_usable (λ b. true) (λ b. b.last_recovery) c.bridge

-- `is_on` of the diagnostic window's and of the machine's sensor.
unfoldable pub in_diagnostic_window : Coordinator → Option Bool
unfolding when_usable
in_diagnostic_window c = when_usable usable (λ b. some (b.diagnostic_window)) c.bridge

unfoldable pub machine_reachable : Coordinator → Option Bool
unfolding when_usable
machine_reachable c = when_usable usable (λ b. some (b.machine_reachable)) c.bridge
