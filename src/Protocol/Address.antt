-- ===== src/Protocol/Address.antt =====
-- The address map and the ranges at the end of protocol.py.
use r60v_home_assistant.Base.{ℕ}

abbrev pub temperature_unit : ℕ
temperature_unit = 0x00

abbrev pub language : ℕ
language = 0x01

abbrev pub brew_boiler_temp : ℕ
brew_boiler_temp = 0x02

abbrev pub service_boiler_temp : ℕ
service_boiler_temp = 0x03

abbrev pub water_feed : ℕ
water_feed = 0x46

abbrev pub active_profile : ℕ
active_profile = 0x47

abbrev pub service_boiler_enable : ℕ
service_boiler_enable = 0x49

abbrev pub standby : ℕ
standby = 0x4A

abbrev pub total_coffee_count : ℕ
total_coffee_count = 0x4D

abbrev pub auto_on_hour : ℕ
auto_on_hour = 0x51

abbrev pub auto_on_minute : ℕ
auto_on_minute = 0x52

abbrev pub auto_off_hour : ℕ
auto_off_hour = 0x53

abbrev pub auto_off_minute : ℕ
auto_off_minute = 0x54

abbrev pub date_time : ℕ
date_time = 0xA000

abbrev pub current_brew_temp : ℕ
current_brew_temp = 0xB000

abbrev pub current_service_temp : ℕ
current_service_temp = 0xB001

abbrev pub current_pressure : ℕ
current_pressure = 0xB002

abbrev pub display : ℕ
display = 0xB007

abbrev pub settings_base : ℕ
settings_base = 0x0000

abbrev pub settings_len : ℕ
settings_len = 0x73

abbrev pub brew_temp_range_c : ℕ × ℕ
brew_temp_range_c = (85, 115)

abbrev pub service_temp_range_c : ℕ × ℕ
service_temp_range_c = (115, 125)

abbrev pub profile_a : ℕ
profile_a = 0x16

abbrev pub profile_b : ℕ
profile_b = 0x26

abbrev pub profile_c : ℕ
profile_c = 0x36

abbrev pub kp_coffee : ℕ
kp_coffee = 0x04

abbrev pub kp_group : ℕ
kp_group = 0x06

abbrev pub ki_coffee : ℕ
ki_coffee = 0x0A

abbrev pub ki_group : ℕ
ki_group = 0x0C

abbrev pub kd_coffee : ℕ
kd_coffee = 0x10

abbrev pub kd_group : ℕ
kd_group = 0x12

abbrev pub wand_wash_time : ℕ
wand_wash_time = 0x48

abbrev pub group_temp : ℕ
group_temp = 0x4C
