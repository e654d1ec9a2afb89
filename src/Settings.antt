-- ===== src/Settings.antt =====
-- internal/settings/settings.go: the settings in memory and in config.json.
pub mod Guard
pub mod Examples
use sub_manager_vpn.Base.Map.{Map}
use sub_manager_vpn.Base.Int.{pos, ℤ}
use sub_manager_vpn.Base.{
  ◌+◌, true, ltb, is_empty, ◌∷◌, not, false, List, ℕ, some, none, if◌then◌else◌, codes, [], Text,
  Option, Bool,
}

pub record Settings : Type 0 where
  pub state_path : Text
  pub sources_path : Text
  pub assets_dir : Text
  pub out_dir : Text
  pub interval : Text
  pub top_n : ℤ
  pub degrade_ms : ℤ
  pub min_keep : ℤ
  pub serve_addr : Text
  pub serve_token : Text
  pub web_addr : Text
  pub web_token : Text
  pub web_secret : Text
  pub probe_url : Text
  pub speed_test_url : Text
  pub min_speed_mbps : ℤ
  pub speed_test_top_n : ℤ
  pub exclude_countries : List Text
  pub exclude_protocols : List Text
  pub workers : ℤ
  pub probe_batch : ℤ
  pub probe_timeout_ms : ℤ
  pub max_ping_ms : ℤ
  pub re_probe_cycles : ℤ
  pub dead_cycles : ℤ
  pub sub_validity_interval : Text
  pub sub_ping_interval : Text
  pub sub_top_n : ℤ
  pub cdn_enabled : Bool
  pub cdn_source : Text
  pub cdn_vwn_config : Text
  pub cdn_fallback_ip : Text
  pub cdn_overrides : Map Text

-- `Default`
abbrev pub default_settings : Settings
default_settings = record {
  state_path = [];
  sources_path = [];
  assets_dir = [];
  out_dir = [];
  interval = codes "2h";
  top_n = pos 5;
  degrade_ms = pos 0;
  min_keep = pos 1;
  serve_addr = [];
  serve_token = [];
  web_addr = [];
  web_token = [];
  web_secret = [];
  probe_url = [];
  speed_test_url = [];
  min_speed_mbps = pos 0;
  speed_test_top_n = pos 0;
  exclude_countries = [];
  exclude_protocols = [];
  workers = pos 350;
  probe_batch = pos 0;
  probe_timeout_ms = pos 2000;
  max_ping_ms = pos 0;
  re_probe_cycles = pos 6;
  dead_cycles = pos 84;
  sub_validity_interval = codes "5m";
  sub_ping_interval = codes "30m";
  sub_top_n = pos 0;
  cdn_enabled = false;
  cdn_source = [];
  cdn_vwn_config = codes "/usr/local/etc/xray/connect_host";
  cdn_fallback_ip = [];
  cdn_overrides = [];
}

-- encoding/json for the settings. `none` is an error.
pub record SettingsCodec : Type 0 where
  pub encode : Settings → Option Text
  pub decode : Text → Option Settings

-- How far a write comes: the file is renamed and made private; or the rename or what stands before it
-- fails; or the file is renamed and cannot be made private.
pub data Disk : Type 0 where
  works full unlocked : Disk

-- `len(s)`: the bytes of a text in UTF-8
unfoldable pub byte_length : Text → ℕ
byte_length [] = 0
byte_length (c ∷ s) =
    (if ltb c 0x80 then 1 else if ltb c 0x800 then 2 else if ltb c 0x10000 then 3 else 4)
    + byte_length s

-- `file` is the text of config.json, `none` if there is none.
pub record Store : Type 0 where
  pub file : Option Text
  pub cur : Settings

module _ (codec : SettingsCodec) where
  -- `Load`: the settings, and whether the file was there.
  unfoldable pub load : Option Text → Option (Settings × Bool)
  load none = some (default_settings, false)
  load (some t) = elim (codec.decode t) [ none ↦ none | some s ↦ some (s, true) ]

  -- `Save`: whether there was no error, and the file after it.
  unfoldable pub save : Disk → Settings → Option Text → Bool × Option Text
  save disk s file = elim (codec.encode s) [
    | none ↦ (false, file)
    | some t ↦ elim disk [
      | works ↦ (true, some t)
      | full ↦ (false, file)
      | unlocked ↦ (false, some t)
    ]
  ]

  -- `NewStore`
  unfoldable pub new_store : Option Text → Option Store
  new_store file = elim (load file) [
    | none ↦ none
    | some (s, existed) ↦ some record { file = file; cur = s }
  ]

  -- The guard of `Update`.
  unfoldable pub is_guarded : Settings → Bool
  is_guarded patch =
      if not (is_empty patch.web_addr)
      then (if is_empty patch.web_token
          then false
          else if ltb (byte_length patch.web_secret) 24
          then false
          else true)
      else true

  -- `Update`
  unfoldable pub update : Disk → Settings → Store → Bool × Store
  update disk patch s =
      if not (is_guarded patch)
      then (false, s)
      else (let saved = save disk patch s.file in
          if not saved.0
          then (false, record s { file = saved.1 })
          else (true, record { file = saved.1; cur = patch }))
