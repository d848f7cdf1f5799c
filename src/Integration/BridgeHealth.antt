-- ===== src/Integration/BridgeHealth.antt =====
-- The parsed report on the bridge's link (custom_components/rocket_r60v/bridge_health.py). A
-- datetime is a number of milliseconds.
use r60v_home_assistant.Base.{ℕ, Bool, false, not, ◌&&◌, ◌||◌, Option, none, some}
use r60v_home_assistant.Base.Int.{ℤ, pos, eq_ℤ}
use r60v_home_assistant.Protocol.Text.{Text}

pub record BridgeHealth : Type 0 where
  pub available : Bool
  pub schema : Option ℤ
  pub link_up : Bool
  pub ssid : Option Text
  pub signal : Option ℤ
  pub ip : Option Text
  pub machine_reachable : Bool
  pub ap_visible : Bool
  pub machine_powered_off : Bool
  pub diagnostic_window : Bool
  pub link_uptime_s : Option ℤ
  pub recoveries_total : Option ℤ
  pub last_recovery : Option ℕ
  pub stale : Bool
  pub updated : Option ℕ

-- The fields' defaults.
abbrev pub report : Bool → BridgeHealth
report is_available = record {
  available = is_available;
  schema = none;
  link_up = false;
  ssid = none;
  signal = none;
  ip = none;
  machine_reachable = false;
  ap_visible = false;
  machine_powered_off = false;
  diagnostic_window = false;
  link_uptime_s = none;
  recoveries_total = none;
  last_recovery = none;
  stale = false;
  updated = none;
}

-- `self.schema in SUPPORTED_SCHEMAS`
unfoldable pub supported : Option ℤ → Bool
supported none = false
supported (some schema) = eq_ℤ schema (pos 1)

unfoldable pub usable : BridgeHealth → Bool
unfolding supported
usable b = b.available && supported b.schema && not b.stale

unfoldable pub blocking : BridgeHealth → Bool
unfolding usable
blocking b = usable b && (b.diagnostic_window || not b.link_up)
