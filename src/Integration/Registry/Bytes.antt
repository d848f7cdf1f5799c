-- ===== src/Integration/Registry/Bytes.antt =====
-- What the commands of the registry write.
use r60v_home_assistant.Base.{
  ℕ, zero, suc, ◌+◌, ◌≤◌, ◌<◌, ◌≡◌, refl, subst, Bool, true, false, Option, none, some, List, [],
  ◌∷◌, arith, length, get_elem?, All,
}
use mathlib.Core.Option
use mathlib.Core.Option.{some_inj}
use r60v_home_assistant.Base.Results.{Result, ok, err, ◌>>=◌}
use r60v_home_assistant.Protocol.Text.{Text}
use r60v_home_assistant.Protocol.Address.{
  settings_len, temperature_unit, language, profile_a, profile_b, profile_c, water_feed,
  active_profile, service_boiler_enable, standby, auto_on_hour, auto_on_minute, auto_off_hour,
  auto_off_minute,
}
use r60v_home_assistant.State.Select.{index, get_elem?-index}
use r60v_home_assistant.Integration.Snapshot.{StateSnapshot, Command}
use r60v_home_assistant.Integration.Entities.{
  ClockTime, bool_on_zero, bool_on_nonzero, time_at, encode_bool, encode_enum, encode_time,
  profile_options, water_feed_options, temp_unit_options, language_options,
}
use r60v_home_assistant.Integration.Profile.{Reading, ProfileError, encode_profile}
use r60v_home_assistant.Integration.Profile.Blocks.{encode_profile-IsProfile}
use r60v_home_assistant.Integration.Registry.{
  Access, Value, flag, label, clock, command_for, command_of, R60vEntityDescription, entities,
  encode_profile_at, select_at, profile_at, entity,
}
use r60v_home_assistant.Integration.Registry.RoundTrip.{
  IsValue, profile-length, profile-bytes, All-get_elem?,
}

-- A write of bytes, one at least, that lies inside the settings block.
pub record IsWrite (c : Command) : Type 0 where
  pub some_byte : 0 < length c.1
  pub bytes : All (λ b. b < 256) c.1
  pub inside : c.0 + length c.1 ≤ settings_len

abbrev Writes : Access → Type 0
Writes a = (v : Value) (c : Command) → IsValue v → command_for a v ≡ some c → IsWrite c

switches-Writes :
    (decode : StateSnapshot → Bool) (encode : Bool → Command)
    → ((b : Bool) → IsWrite (encode b))
    → Writes (Access.switches decode encode)
unfolding command_for
switches-Writes decode encode h (flag b) c valid e = subst IsWrite (some_inj.0 e) (h b)
switches-Writes decode encode h (label t) c valid e = cc
switches-Writes decode encode h (clock t) c valid e = cc

encode_bool-IsWrite :
    (address on off : ℕ)
    → on < 256
    → off < 256
    → address < settings_len
    → (b : Bool) → IsWrite (encode_bool address on off b)
unfolding encode_bool
encode_bool-IsWrite address on off h k inside true = record {
  some_byte = omega arith;
  bytes = (h, tt);
  inside = omega arith;
}
encode_bool-IsWrite address on off h k inside false = record {
  some_byte = omega arith;
  bytes = (k, tt);
  inside = omega arith;
}

times-Writes :
    (decode : StateSnapshot → Option ClockTime) (address : ℕ)
    → address + 2 ≤ settings_len
    → Writes (Access.times decode (encode_time address))
unfolding command_for encode_time
times-Writes decode address inside (clock t) c valid e = subst IsWrite (some_inj.0 e) (record {
  some_byte = omega arith;
  bytes = (omega (arith, valid.0), (omega (arith, valid.1), tt));
  inside = omega arith;
})
times-Writes decode address inside (label t) c valid e = cc
times-Writes decode address inside (flag t) c valid e = cc

get_elem?-some {ℓ} :
    {A : Type ℓ} (xs : List A) (i : ℕ) (x : A) → get_elem? xs i ≡ some x → i < length xs
get_elem?-some [] i x h = cc
get_elem?-some (y ∷ xs) zero x h = omega arith
get_elem?-some (y ∷ xs) (suc i) x h = omega (arith, get_elem?-some xs i x h)

selected-IsWrite :
    (address : ℕ) (options : List Text) (option : Text) (c : Command) (found : Option ℕ)
    → index options option ≡ found
    → length options ≤ 256
    → address + 1 ≤ settings_len
    → Option.map (λ i. (address, i ∷ [])) found ≡ some c
    → IsWrite c
selected-IsWrite address options option c none e short inside h = cc
selected-IsWrite address options option c (some i) e short inside h =
    subst IsWrite (some_inj.0 h) (record {
      some_byte = omega arith;
      bytes =
          (omega (arith, get_elem?-some options i option (get_elem?-index options option i e)), tt);
      inside = omega arith;
    })

selects-Writes :
    (address : ℕ) (options : List Text)
    → length options ≤ 256
    → address + 1 ≤ settings_len
    → Writes (select_at address options)
unfolding command_for select_at encode_enum
selects-Writes address options short inside (label t) c valid e =
    selected-IsWrite address options t c (index options t) refl short inside e
selects-Writes address options short inside (flag b) c valid e = cc
selects-Writes address options short inside (clock t) c valid e = cc

module _ (number : Text → Reading) where
  profile-IsWrite :
      (address : ℕ) (t : Text) (r : Result ProfileError (List ℕ)) (c : Command)
      → encode_profile number t ≡ r
      → command_of (r >>= λ block. ok (address, block)) ≡ some c
      → address + 15 ≤ settings_len
      → IsWrite c
  unfolding command_of
  profile-IsWrite address t (err e) c enc h inside = cc
  profile-IsWrite address t (ok block) c enc h inside =
      let p = encode_profile-IsProfile number t block enc in
      let n = profile-length block p in
      subst IsWrite (some_inj.0 h) (record {
        some_byte = omega (arith, n);
        bytes = profile-bytes block p;
        inside = omega (arith, n);
      })

  profiles-Writes : (address : ℕ) → address + 15 ≤ settings_len → Writes (profile_at number address)
  unfolding command_for profile_at command_of
  profiles-Writes address inside (label t) c valid e =
      profile-IsWrite address t (encode_profile number t) c refl (unfold encode_profile_at in e)
        inside
  profiles-Writes address inside (flag b) c valid e = cc
  profiles-Writes address inside (clock t) c valid e = cc

  -- A sensor takes no command.
  entities-Writes : All (λ e. Writes e.access) (entities number)
  unfolding entities entity command_for
  entities-Writes = (
    λ v c valid h. cc,
    (
      λ v c valid h. cc,
      (
        λ v c valid h. cc,
        (
          switches-Writes (bool_on_zero standby) (encode_bool standby 0 1)
              (encode_bool-IsWrite standby 0 1 (omega arith) (omega arith) (omega arith)),
          (
            switches-Writes (bool_on_nonzero service_boiler_enable)
                (encode_bool service_boiler_enable 1 0)
                (encode_bool-IsWrite service_boiler_enable 1 0 (omega arith) (omega arith)
                  (omega arith)),
            (
              selects-Writes active_profile profile_options (omega arith) (omega arith),
              (
                selects-Writes water_feed water_feed_options (omega arith) (omega arith),
                (
                  selects-Writes temperature_unit temp_unit_options (omega arith) (omega arith),
                  (
                    selects-Writes language language_options (omega arith) (omega arith),
                    (
                      times-Writes (time_at auto_on_hour auto_on_minute) auto_on_hour (omega arith),
                      (
                        times-Writes (time_at auto_off_hour auto_off_minute) auto_off_hour
                            (omega arith),
                        (
                          profiles-Writes profile_a (omega arith),
                          (
                            profiles-Writes profile_b (omega arith),
                            (profiles-Writes profile_c (omega arith), tt),
                          ),
                        ),
                      ),
                    ),
                  ),
                ),
              ),
            ),
          ),
        ),
      ),
    ),
  )

  pub command_for-IsWrite :
      (k : ℕ) (e : R60vEntityDescription) (v : Value) (c : Command)
      → get_elem? (entities number) k ≡ some e
      → IsValue v
      → command_for e.access v ≡ some c
      → IsWrite c
  command_for-IsWrite k e v c at valid h =
      All-get_elem? (λ d. Writes d.access) (entities number) k e entities-Writes at v c valid h
