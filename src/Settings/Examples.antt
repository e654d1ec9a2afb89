-- ===== src/Settings/Examples.antt =====
-- A change of the settings, and the theorem at it.
use mathlib.Core.Option.{some-injective}
use sub_manager_vpn.Base.{refl, ◌≡◌, is_empty, sym, codes, some, none, ap}
use sub_manager_vpn.Settings.{
  save, works, is_guarded, default_settings, update, Store, SettingsCodec, Settings,
}
use sub_manager_vpn.Settings.Guard.{update-Outcome, Outcome, IsRoundTrip}

-- A codec for settings that have a path for the state and nothing else
abbrev toy_codec : SettingsCodec
toy_codec = record {
  encode = λ s. some (s.state_path);
  decode = λ t. some (record default_settings { state_path = t });
}

abbrev moved : Settings
moved = record default_settings { state_path = codes "b" }

abbrev started : Store
started = record { file = none; cur = default_settings }

toy-IsRoundTrip : IsRoundTrip toy_codec moved
toy-IsRoundTrip t e =
    ap (λ p. some (record default_settings { state_path = p })) (sym (some-injective _ _ e))

update-moved : (update toy_codec works moved started).1.file ≡ some (codes "b")
unfolding update is_guarded save is_empty
update-moved = refl

update-Outcome_example :
    Outcome toy_codec works moved started (update toy_codec works moved started)
update-Outcome_example = update-Outcome toy_codec works moved started toy-IsRoundTrip
