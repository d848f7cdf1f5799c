-- ===== src/Integration/Registry/RoundTrip.antt =====
-- What a command of a writable entity writes, the entity shows.
use r60v_home_assistant.Base.{
  ℕ, zero, suc, ◌+◌, ◌≤◌, ◌<◌, ◌≡◌, refl, ap, sym, subst, ◌∙◌, ◌⊎◌, inl, inr, Bool, true, false,
  Option, none, some, List, [], ◌∷◌, arith, length, get_elem?, All, ◌++◌, length-append,
}
use mathlib.Core.Option
use mathlib.Core.Option.{some_inj}
use r60v_home_assistant.Base.Int.{pos}
use r60v_home_assistant.Base.Results.{Result, ok, err, ◌>>=◌}
use r60v_home_assistant.Protocol.Text.{Text}
use r60v_home_assistant.Protocol.Address.{
  settings_len, temperature_unit, language, profile_a, profile_b, profile_c, water_feed,
  active_profile, service_boiler_enable, standby, auto_on_hour, auto_off_hour,
}
use r60v_home_assistant.State.Select.{index, get_elem?-index}
use r60v_home_assistant.Integration.Snapshot.{
  StateSnapshot, Command, after, settings_block, settings_block-after,
}
use r60v_home_assistant.Integration.Entities.{
  ClockTime, IsClock, enum, encode_enum, profile_options, water_feed_options, temp_unit_options,
  language_options,
}
use r60v_home_assistant.Integration.Entities.Codecs.{
  bool_on_zero-encode_bool, bool_on_nonzero-encode_bool, time_at-encode_time, enum-encode_enum,
}
use r60v_home_assistant.Integration.Profile.{
  Reading, tenths, ProfileError, fmt_num, encode_profile, decode_profile, profile_len,
}
use r60v_home_assistant.Integration.Profile.Blocks.{
  IsStep, times, pressures, IsProfile, encode_profile-IsProfile,
}
use r60v_home_assistant.Integration.Profile.RoundTrip.{encode_profile-decode_profile}
use r60v_home_assistant.Integration.Registry.{
  Access, Access, Value, flag, label, clock, shown, command_for, command_of, R60vEntityDescription,
  entities, decode_profile_at, encode_profile_at, select_at, profile_at, entity,
}

-- `datetime.time` holds no other values.
abbrev pub IsValue : Value → Type 0
IsValue (clock t) = IsClock t
IsValue _ = Unit

abbrev pub is_text : Access → Bool
is_text (Access.texts decode encode) = true
is_text _ = false

-- The entity shows a value that gives the same command, and it is the one that was sent, unless the
-- entity is a text.
abbrev pub Echo : Access → Value → Command → StateSnapshot → Type 0
Echo a v c s =
    (w : Value) × (shown a (after c s) ≡ some w)
    × (command_for a w ≡ some c)
    × ((is_text a ≡ true) ⊎ (w ≡ v))

-- What holds of an entity, for every command to it.
abbrev Echoes : StateSnapshot → Access → Type 0
Echoes s a = (v : Value) (c : Command) → IsValue v → command_for a v ≡ some c → Echo a v c s

switches-Echoes :
    (s : StateSnapshot) (decode : StateSnapshot → Bool) (encode : Bool → Command)
    → ((b : Bool) → decode (after (encode b) s) ≡ b)
    → Echoes s (Access.switches decode encode)
unfolding shown command_for
switches-Echoes s decode encode back (flag b) c valid h = (
  flag b,
  ap (λ d. some (flag (decode (after d s)))) (sym (some_inj.0 h))
      ∙ ap (λ x. some (flag x)) (back b),
  h,
  inr refl,
)
switches-Echoes s decode encode back (label t) c valid h = cc
switches-Echoes s decode encode back (clock t) c valid h = cc

times-Echoes :
    (s : StateSnapshot) (decode : StateSnapshot → Option ClockTime) (encode : ClockTime → Command)
    → ((t : ClockTime) → IsClock t → decode (after (encode t) s) ≡ some t)
    → Echoes s (Access.times decode encode)
unfolding shown command_for
times-Echoes s decode encode back (clock t) c valid h = (
  clock t,
  ap (λ d. Option.map clock (decode (after d s))) (sym (some_inj.0 h))
      ∙ ap (Option.map clock) (back t valid),
  h,
  inr refl,
)
times-Echoes s decode encode back (label t) c valid h = cc
times-Echoes s decode encode back (flag t) c valid h = cc

block_bytes :
    (steps : List (ℕ × ℕ)) (rest : List ℕ)
    → All (λ b. b < 256) rest
    → All (λ b. b < 256) (times steps ++ rest)
block_bytes [] rest h = h
block_bytes ((time, pressure) ∷ steps) rest h =
    (omega arith, (omega arith, block_bytes steps rest h))

pressure_bytes : (steps : List (ℕ × ℕ)) → All IsStep steps → All (λ b. b < 256) (pressures steps)
pressure_bytes [] h = tt
pressure_bytes ((time, pressure) ∷ steps) h = (omega (arith, h.0.1), pressure_bytes steps h.1)

length-times : (steps : List (ℕ × ℕ)) → length (times steps) ≡ length steps + length steps
length-times [] = omega arith
length-times ((time, pressure) ∷ steps) = omega (arith, length-times steps)

length-pressures : (steps : List (ℕ × ℕ)) → length (pressures steps) ≡ length steps
length-pressures [] = refl
length-pressures ((time, pressure) ∷ steps) = ap suc (length-pressures steps)

pub profile-length : (block : List ℕ) → IsProfile block → length block ≡ 15
profile-length block p =
    ap (λ (b : List ℕ). length b) p.same
    ∙ omega (
      arith,
      length-append {0} (times p.steps) (pressures p.steps),
      length-times p.steps,
      length-pressures p.steps,
      p.five,
    )

pub profile-bytes : (block : List ℕ) → IsProfile block → All (λ b. b < 256) block
profile-bytes block p =
    subst (All (λ b. b < 256)) (sym p.same)
      (block_bytes p.steps (pressures p.steps) (pressure_bytes p.steps p.in_range))

module _ (s : StateSnapshot) (whole : settings_len ≤ length s.settings) where
  selected :
      (address : ℕ) (options : List Text) (option : Text) (c : Command) (found : Option ℕ)
      → index options option ≡ found
      → length options ≤ 256
      → address + 1 ≤ settings_len
      → Option.map (λ i. (address, i ∷ [])) found ≡ some c
      → encode_enum address options option ≡ some c
      → enum address options (after c s) ≡ some option
  selected address options option c none e short inside h h' = cc
  selected address options option c (some i) e short inside h h' = some_inj.0 (
      ap (Option.map (λ d. enum address options (after d s))) (sym h')
      ∙ enum-encode_enum s address options i option short (get_elem?-index options option i e)
          (omega (arith, whole, inside)))

  selects-Echoes :
      (address : ℕ) (options : List Text)
      → length options ≤ 256
      → address + 1 ≤ settings_len
      → Echoes s (select_at address options)
  unfolding shown command_for select_at
  selects-Echoes address options short inside (label t) c valid h = (
    label t,
    ap (Option.map label) (
        selected address options t c (index options t) refl short inside (unfold encode_enum in h)
          h),
    h,
    inr refl,
  )
  selects-Echoes address options short inside (flag b) c valid h = cc
  selects-Echoes address options short inside (clock t) c valid h = cc

  module _ (number : Text → Reading)
      (reads_printed : (n : ℕ) → n ≤ 600 → number (fmt_num n) ≡ tenths (pos n)) where
    profile_shown :
        (address : ℕ) (t : Text) (r : Result ProfileError (List ℕ)) (c : Command)
        → encode_profile number t ≡ r
        → command_of (r >>= λ block. ok (address, block)) ≡ some c
        → address + 15 ≤ settings_len
        → (text : Text) × (decode_profile_at address (after c s) ≡ some text)
          × (encode_profile_at number address text ≡ ok c)
    unfolding command_of decode_profile_at encode_profile_at
    profile_shown address t (err e) c enc h inside = cc
    profile_shown address t (ok block) c enc h inside =
        let p = encode_profile-IsProfile number t block enc in
        let (text, decoded, encoded) = encode_profile-decode_profile number reads_printed block p in
        let n = profile-length block p in
        let same : (address, block) ≡ c = some_inj.0 h in
        let kept : settings_block address profile_len (after (address, block) s) ≡ block =
          ap (λ k. settings_block address k (after (address, block) s)) (sym n)
          ∙ settings_block-after address block s (profile-bytes block p)
              (omega (arith, whole, inside, n)) in
        (
          text,
          ap (λ d. decode_profile (settings_block address profile_len (after d s))) (sym same)
              ∙ (ap decode_profile kept ∙ decoded),
          ap (λ r. r >>= λ b. ok (address, b)) encoded ∙ ap ok same,
        )

    profiles-Echoes :
        (address : ℕ) → address + 15 ≤ settings_len → Echoes s (profile_at number address)
    unfolding shown command_for profile_at command_of
    profiles-Echoes address inside (label t) c valid h =
        let (text, decoded, encoded) =
          profile_shown address t (encode_profile number t) c refl (unfold encode_profile_at in h)
            inside in
        (label text, ap (Option.map label) decoded, ap command_of encoded, inl refl)
    profiles-Echoes address inside (flag b) c valid h = cc
    profiles-Echoes address inside (clock t) c valid h = cc

    -- A sensor takes no command.
    entities-Echoes : All (λ e. Echoes s e.access) (entities number)
    unfolding entities entity command_for
    entities-Echoes = (
      λ v c valid h. cc,
      (
        λ v c valid h. cc,
        (
          λ v c valid h. cc,
          (
            switches-Echoes s _ _
                (λ b. bool_on_zero-encode_bool s standby b (omega (arith, whole))),
            (
              switches-Echoes s _ _ (λ b.
                  bool_on_nonzero-encode_bool s service_boiler_enable b (omega (arith, whole))),
              (
                selects-Echoes active_profile profile_options (omega arith) (omega arith),
                (
                  selects-Echoes water_feed water_feed_options (omega arith) (omega arith),
                  (
                    selects-Echoes temperature_unit temp_unit_options (omega arith) (omega arith),
                    (
                      selects-Echoes language language_options (omega arith) (omega arith),
                      (
                        times-Echoes s _ _ (λ t valid.
                            time_at-encode_time s auto_on_hour t valid (omega (arith, whole))),
                        (
                          times-Echoes s _ _ (λ t valid.
                              time_at-encode_time s auto_off_hour t valid (omega (arith, whole))),
                          (
                            profiles-Echoes profile_a (omega arith),
                            (
                              profiles-Echoes profile_b (omega arith),
                              (profiles-Echoes profile_c (omega arith), tt),
                            ),
                          ),
                        ),
                      ),
                    ),
                  ),
                ),
              ),
            ),
          ),
        ),
      ),
    )

pub All-get_elem? {ℓ} :
    (P : R60vEntityDescription → Type ℓ) (es : List R60vEntityDescription) (k : ℕ)
    (e : R60vEntityDescription)
    → All P es
    → get_elem? es k ≡ some e
    → P e
All-get_elem? P [] k e h at = cc
All-get_elem? P (d ∷ es) zero e h at = subst P (some_inj.0 at) h.0
All-get_elem? P (d ∷ es) (suc k) e h at = All-get_elem? P es k e h.1 at

-- Whatever command a writable entity of the registry makes of a value, once the command shows in a
-- whole settings block the entity shows a value that makes the same command again, and this is the
-- value that was sent, unless the entity is a text. It is assumed that `float` reads back the
-- numbers from 0 to 60 that are printed with at most one decimal.
pub shown-command_for :
    (number : Text → Reading)
    → ((n : ℕ) → n ≤ 600 → number (fmt_num n) ≡ tenths (pos n))
    → (k : ℕ) (e : R60vEntityDescription) (v : Value) (c : Command) (s : StateSnapshot)
    → settings_len ≤ length s.settings
    → get_elem? (entities number) k ≡ some e
    → IsValue v
    → command_for e.access v ≡ some c
    → Echo e.access v c s
shown-command_for number reads_printed k e v c s whole at valid h =
    All-get_elem? (λ d. Echoes s d.access) (entities number) k e
      (entities-Echoes s whole number reads_printed) at v c valid h
