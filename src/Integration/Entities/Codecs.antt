-- ===== src/Integration/Entities/Codecs.antt =====
-- What an encoder writes, the decoder reads back: switches, selects, clock times and timers.
use r60v_home_assistant.Base.{
  ℕ, ◌+◌, ◌≤◌, ◌<◌, ◌≡◌, refl, ap, ◌∙◌, Bool, true, false, ◌&&◌, leb, Bool-cases, inl, inr, Option,
  none, some, List, [], ◌∷◌, arith, length, get_elem?,
}
use mathlib.Core.Option
use r60v_home_assistant.Protocol.Text.{Text}
use r60v_home_assistant.State.Select.{index-found}
use r60v_home_assistant.Integration.Snapshot.{
  StateSnapshot, settings_byte, after, settings_byte-after, settings_byte-after_first,
}
use r60v_home_assistant.Integration.Entities.{
  ClockTime, IsClock, IsSetting, bool_on_zero, bool_on_nonzero, enum, time_at, encode_time,
  encode_bool, encode_enum, timer_disabled, timer_time, encode_timer, clock_of,
}

module _ (s : StateSnapshot) (address : ℕ) where
  pub bool_on_zero-encode_bool :
      (value : Bool)
      → address + 1 ≤ length s.settings
      → bool_on_zero address (after (encode_bool address 0 1 value) s) ≡ value
  unfolding bool_on_zero encode_bool
  bool_on_zero-encode_bool true fits =
      rw (settings_byte-after_first address 0 [] s (omega arith) fits)
  bool_on_zero-encode_bool false fits =
      rw (settings_byte-after_first address 1 [] s (omega arith) fits)

  pub bool_on_nonzero-encode_bool :
      (value : Bool)
      → address + 1 ≤ length s.settings
      → bool_on_nonzero address (after (encode_bool address 1 0 value) s) ≡ value
  unfolding bool_on_nonzero encode_bool
  bool_on_nonzero-encode_bool true fits =
      rw (settings_byte-after_first address 1 [] s (omega arith) fits)
  bool_on_nonzero-encode_bool false fits =
      rw (settings_byte-after_first address 0 [] s (omega arith) fits)

  clock-after :
      (hour minute : ℕ)
      → hour < 256
      → minute < 256
      → address + 2 ≤ length s.settings
      → clock_of
          (settings_byte address (after (address, hour ∷ minute ∷ []) s))
          (settings_byte (address + 1) (after (address, hour ∷ minute ∷ []) s))
        ≡ clock_of hour minute
  clock-after hour minute h m fits =
      rw (settings_byte-after_first address hour (minute ∷ []) s h fits) rw
        (settings_byte-after address (hour ∷ minute ∷ []) 1 minute s refl m fits) refl

  -- A timer that is set, or disabled, by a command reads as just that.
  pub timer_time-encode_timer :
      (value : Option ClockTime)
      → IsSetting value
      → address + 2 ≤ length s.settings
      → timer_time address (address + 1) (after (encode_timer address value) s) ≡ value
  unfolding timer_time encode_timer
  timer_time-encode_timer none valid fits =
      clock-after timer_disabled timer_disabled (omega arith) (omega arith) fits
      ∙ unfold clock_of in refl
  timer_time-encode_timer (some t) valid fits =
      clock-after t.hour t.minute (ground arith) (ground arith) fits
      ∙ unfold clock_of in ground arith

  pub time_at-encode_time :
      (t : ClockTime)
      → IsClock t
      → address + 2 ≤ length s.settings
      → time_at address (address + 1) (after (encode_time address t) s) ≡ some t
  unfolding time_at encode_time
  time_at-encode_time t valid fits =
      clock-after t.hour t.minute (ground arith) (ground arith) fits
      ∙ unfold clock_of in ground arith

  pub enum-encode_enum :
      (options : List Text) (i : ℕ) (option : Text)
      → length options ≤ 256
      → get_elem? options i ≡ some option
      → address + 1 ≤ length s.settings
      → Option.map (λ c. enum address options (after c s)) (encode_enum address options option)
        ≡ some (some option)
  unfolding encode_enum enum
  enum-encode_enum options i option short h fits =
      let (j, found, small, there) = index-found options option i h in
      rw found (
        ap some (
          ap (get_elem? options)
            (settings_byte-after_first address j [] s (omega (arith, small, short)) fits)
          ∙ there))

clock_of-IsSetting : (hour minute : ℕ) → IsSetting (clock_of hour minute)
unfolding clock_of
clock_of-IsSetting hour minute = elim (Bool-cases (leb hour 23 && leb minute 59)) [
  | inl good ↦ rw good (ground arith, ground arith)
  | inr bad ↦ rw bad tt
]

-- A timer that reads as set, reads as a time of day.
pub timer_time-IsSetting : (h m : ℕ) (s : StateSnapshot) → IsSetting (timer_time h m s)
unfolding timer_time
timer_time-IsSetting h m s = clock_of-IsSetting (settings_byte h s) (settings_byte m s)
