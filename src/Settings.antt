-- ===== src/Settings.antt =====
-- src/settings.c: the settings that are read from a file, and the timer that reads them again when the
-- file changes. GIO's files and GLib's key files are an argument.
pub mod LogLevel
pub mod Reads
pub mod Watching
pub mod Tests
use renderer_service_upnp.Prelude.{
  ℕ, suc, Bool, true, false, ◌&&◌, ◌||◌, not, String, List, [], ◌∷◌, ◌++◌, Option, none, some,
  if◌then◌else◌, ◌==◌, string_eq, nat_eq, leb,
}
use renderer_service_upnp.Prelude.Int.{ℤ, pos, negsuc}
use renderer_service_upnp.Log.{
  LogType, log_type_syslog, log_type_glib, Levels, Build, Log, Output, update_type_level,
}

-- What g_key_file_get_boolean, _get_integer and _get_integer_list give for the three keys, `none` with
-- an error.
pub record KeyFile : Type 0 where
  pub never_quit : Option Bool
  pub log_type : Option ℤ
  pub log_level : Option (List ℤ)

-- The files of a type of file systems, and the directories that the settings look in; `path_of` is
-- g_strdup_printf of a directory and the name of the file. `load` is g_key_file_load_from_file.
pub record Gio (Fs : Type 0) : Type 0 where
  pub sys_config_dir : String
  pub user_config_dir : Option String
  pub path_of : String → String
  pub get_parent : String → String
  pub query_exists : String → Fs → Bool
  pub load : String → Fs → Option KeyFile
  pub make_directory : String → Fs → Fs × Bool
  pub copy : String → String → Fs → Fs
  pub can_monitor : String → Fs → Bool

-- rsu_settings_context_t; `handler_id` is there with the monitor
pub record Settings : Type 0 where
  pub keyfile : Option KeyFile
  pub monitor : Option String
  pub ev_id : ℕ
  pub never_quit : Bool
  pub log_type : LogType
  pub log_level : Levels

-- The bits of log_level_array's entries.
unfoldable pub level_bits : Bool → Bool → Bool → Bool → Bool → Bool → Levels
level_bits e c w m i d = record {
  error = e;
  critical = c;
  warning = w;
  message = m;
  info = i;
  debug = d;
}

abbrev pub level_disabled : Levels
level_disabled = record {
  error = false;
  critical = false;
  warning = false;
  message = false;
  info = false;
  debug = false;
}

-- log_level_array, of an index below 9
unfoldable pub log_level_array : ℕ → Levels
log_level_array n =
    if n == 1
    then record level_disabled { error = true }
    else if n == 2
    then record level_disabled { critical = true }
    else if n == 3
    then record level_disabled { warning = true }
    else if n == 4
    then record level_disabled { message = true }
    else if n == 5
    then record level_disabled { info = true }
    else if n == 6
    then record level_disabled { debug = true }
    else if n == 7
    then record level_disabled { error = true; critical = true; info = true }
    else if n == 8
    then level_bits true true true true true true
    else level_disabled

-- `|` of levels
unfoldable pub level_or : Levels → Levels → Levels
level_or a b = record {
  error = a.error || b.error;
  critical = a.critical || b.critical;
  warning = a.warning || b.warning;
  message = a.message || b.message;
  info = a.info || b.info;
  debug = a.debug || b.debug;
}

-- The loop of prv_rsu_settings_to_log_level
unfoldable pub to_log_level_from : Levels → List ℤ → Levels
to_log_level_from value [] = value
to_log_level_from value (negsuc n ∷ rest) = to_log_level_from value rest
to_log_level_from value (pos n ∷ rest) =
    let valid = leb 1 n && leb n 6 in
    let last =
      to_log_level_from (if valid then level_or value (log_level_array n) else value) rest in
    if valid then last else if n == 0 || (n == 7 || n == 8) then log_level_array n else last

-- prv_rsu_settings_to_log_level
unfoldable pub to_log_level : List ℤ → Levels
to_log_level list = to_log_level_from level_disabled list

-- prv_rsu_settings_to_log_type
unfoldable pub to_log_type : ℤ → LogType
to_log_type (pos n) = if n == 1 then log_type_glib else log_type_syslog
to_log_type (negsuc n) = log_type_syslog

unfoldable pub read_never_quit : Option Bool → Settings → Settings
read_never_quit none s = s
read_never_quit (some v) s = record s { never_quit = v }

unfoldable pub read_log_type : Option ℤ → Settings → Settings
read_log_type none s = s
read_log_type (some v) s = record s { log_type = to_log_type v }

unfoldable pub read_log_level : Option (List ℤ) → Settings → Settings
read_log_level none s = s
read_log_level (some v) s = record s { log_level = to_log_level v }

-- prv_rsu_settings_read_keys, of the key file that is there
unfoldable pub read_keys : KeyFile → Settings → Settings
read_keys k s =
    read_log_level k.log_level (read_log_type k.log_type (read_never_quit k.never_quit s))

-- The settings and the log, with the sources of g_timeout_add_seconds that are pending, and what is
-- told to syslog. An id is never used twice.
pub record SettingsLoop : Type 0 where
  pub settings : Settings
  pub log : Log
  pub timeouts : List ℕ
  pub next_id : ℕ
  pub outputs : List Output

-- g_source_remove of a timeout
unfoldable pub remove_timeout : ℕ → List ℕ → List ℕ
remove_timeout i [] = []
remove_timeout i (j ∷ rest) = if j == i then rest else j ∷ remove_timeout i rest

-- GFileMonitorEvent
pub data FileEvent : Type 0 where
  file_changed file_changes_done_hint file_deleted file_created file_moved : FileEvent
  file_attribute_changed file_pre_unmount file_unmounted : FileEvent

unfoldable pub resets_timer : FileEvent → Bool
resets_timer file_changed = true
resets_timer file_changes_done_hint = true
resets_timer file_deleted = true
resets_timer file_created = true
resets_timer file_moved = true
resets_timer _ = false

-- prv_rsu_settings_monitor_keyfile_cb
unfoldable pub monitor_keyfile_cb : FileEvent → SettingsLoop → SettingsLoop
monitor_keyfile_cb e s =
    if resets_timer e
    then record s {
      timeouts =
          s.next_id
          ∷ (if s.settings.ev_id == 0
              then s.timeouts
              else remove_timeout s.settings.ev_id s.timeouts);
      settings = record s.settings { ev_id = s.next_id };
      next_id = suc s.next_id;
    }
    else s

-- g_malloc0
abbrev pub blank : Settings
blank = record {
  keyfile = none;
  monitor = none;
  ev_id = 0;
  never_quit = false;
  log_type = log_type_syslog;
  log_level = level_disabled;
}

module _ {Fs : Type 0} (gio : Gio Fs) (build : Build) where
  unfoldable pub loc_path_of : Option String → Option String
  loc_path_of none = none
  loc_path_of (some dir) = if dir == "" then none else some (gio.path_of dir)

  -- prv_rsu_settings_get_keyfile_path
  unfoldable pub get_keyfile_path : Option String × Option String
  get_keyfile_path = (
    if gio.sys_config_dir == "" then none else some (gio.path_of gio.sys_config_dir),
    loc_path_of gio.user_config_dir,
  )

  -- prv_rsu_settings_check_local_keyfile
  unfoldable pub check_local_keyfile : Option String → String → Fs → Fs
  check_local_keyfile none loc fs = fs
  check_local_keyfile (some sys) loc fs =
      let dir = gio.get_parent loc in
      let made = gio.make_directory dir fs in
      if gio.query_exists loc fs
      then fs
      else if gio.query_exists dir fs
      then gio.copy sys loc fs
      else if made.1
      then gio.copy sys loc made.0
      else made.0

  -- prv_rsu_settings_load_keyfile; a null path loads nothing
  unfoldable pub load_keyfile : Option String → Fs → Option KeyFile
  load_keyfile none fs = none
  load_keyfile (some path) fs = gio.load path fs

  -- prv_rsu_settings_init_default
  unfoldable pub init_default : Settings → Settings
  init_default s = record s {
    never_quit = build.never_quit;
    log_type = build.log_type;
    log_level = build.log_level;
  }

  unfoldable pub or_else_load : Option KeyFile → Option KeyFile → Option KeyFile
  or_else_load none sys = sys
  or_else_load (some k) sys = some k

  unfoldable pub use_keyfile : Option KeyFile → SettingsLoop → SettingsLoop
  use_keyfile none s = record s { settings = record s.settings { keyfile = none } }
  use_keyfile (some k) s =
      let read = read_keys k (record s.settings { keyfile = some k }) in
      let told = update_type_level build read.log_type read.log_level s.log in
      record s { settings = read; log = told.0; outputs = s.outputs ++ told.1 }

  -- prv_rsu_settings_keyfile_init
  unfoldable pub keyfile_init : Option String → Option String → Fs → SettingsLoop → SettingsLoop
  keyfile_init sys loc fs s =
      use_keyfile (or_else_load (load_keyfile loc fs) (load_keyfile sys fs)) s

  -- `if (sys_path || loc_path)`
  unfoldable pub init_from : Option String × Option String → Fs → SettingsLoop → SettingsLoop
  init_from (none, none) fs s = s
  init_from (sys, loc) fs s = keyfile_init sys loc fs s

  -- prv_rsu_settings_reload
  unfoldable pub reload : Fs → SettingsLoop → SettingsLoop
  reload fs s =
      init_from get_keyfile_path fs
        (record s { settings = init_default (record s.settings { keyfile = none }) })

  -- prv_rsu_settings_monitor_timout_cb, whose source is gone when it returns FALSE
  unfoldable pub monitor_timeout_cb : ℕ → Fs → SettingsLoop → SettingsLoop
  monitor_timeout_cb i fs s =
      let s' = reload fs s in
      record s' {
        settings = record s'.settings { ev_id = 0 };
        timeouts = remove_timeout i s'.timeouts;
      }

  -- prv_rsu_settings_monitor_local_keyfile
  unfoldable pub monitor_local_keyfile : String → Fs → Settings → Settings
  monitor_local_keyfile loc fs s =
      if gio.can_monitor loc fs then record s { monitor = some loc } else s

  unfoldable pub prepare : Option String × Option String → Fs → Settings → Fs × Settings
  prepare (sys, none) fs s = (fs, s)
  prepare (sys, some loc) fs s =
      let fs' = check_local_keyfile sys loc fs in (fs', monitor_local_keyfile loc fs' s)

  -- rsu_settings_new, with a log and a main loop with no timeout
  unfoldable pub settings_new : Log → Fs → Fs × SettingsLoop
  settings_new log fs =
      let ready = prepare get_keyfile_path fs (init_default blank) in
      (
        ready.0,
        init_from get_keyfile_path ready.0
            (record { settings = ready.1; log = log; timeouts = []; next_id = 1; outputs = [] }),
      )

-- rsu_settings_is_never_quit
unfoldable pub is_never_quit : Settings → Bool
is_never_quit s = s.never_quit
