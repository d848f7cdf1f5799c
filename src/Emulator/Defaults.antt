-- ===== src/Emulator/Defaults.antt =====
-- The machine that the emulator starts with: `MachineModel.__init__` and `_init_defaults`.
use r60v_home_assistant.Base.{ℕ, List, [], ◌∷◌, set, replicate, ◌+◌}
use r60v_home_assistant.Base.Int.{pos}
use r60v_home_assistant.Protocol.Text.{codes}
use r60v_home_assistant.Protocol.Address.{
  temperature_unit, language, brew_boiler_temp, service_boiler_temp, kp_coffee, kp_group, ki_coffee,
  ki_group, kd_coffee, kd_group, water_feed, active_profile, wand_wash_time, service_boiler_enable,
  standby, group_temp, total_coffee_count, auto_on_hour, auto_on_minute, auto_off_hour,
  auto_off_minute,
}
use r60v_home_assistant.Emulator.{MachineModel}

-- The bytes that are set, in the order of the source.
abbrev defaults : List (ℕ × ℕ)
defaults =
    (temperature_unit, 0)
    ∷ (language, 0)
    ∷ (brew_boiler_temp, 105)
    ∷ (service_boiler_temp, 123)
    ∷ (kp_coffee, 15)
    ∷ (kp_group, 40)
    ∷ (ki_coffee, 1)
    ∷ (ki_group, 1)
    ∷ (kd_coffee, 65)
    ∷ (kd_group, 5)
    ∷ (water_feed, 1)
    ∷ (active_profile, 0)
    ∷ (wand_wash_time, 15)
    ∷ (service_boiler_enable, 1)
    ∷ (standby, 0)
    ∷ (group_temp, 95)
    ∷ (total_coffee_count, 0xF4)
    ∷ (total_coffee_count + 1, 0x01)
    ∷ (auto_on_hour, 14)
    ∷ (auto_on_minute, 0)
    ∷ (auto_off_hour, 8)
    ∷ (auto_off_minute, 0)
    ∷ []

set_all : List (ℕ × ℕ) → List ℕ → List ℕ
set_all [] settings = settings
set_all ((address, value) ∷ rest) settings = set_all rest (set settings address value)

-- The live values are rounded; the clock's fields are those of the moment.
unfoldable pub new_machine : List ℕ → MachineModel
unfolding set_all
new_machine now = record {
  settings = set_all defaults (replicate 0x100 0);
  brew_temp = pos 92;
  service_temp = pos 118;
  decibar = pos 0;
  shown = codes "READY";
  clock_fields = now;
}
