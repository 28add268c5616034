-- ===== src/Settings/Tests.antt =====
-- The settings at concrete files.
use renderer_service_upnp.Prelude.{
  true, false, ◌≡◌, [], ◌∷◌, some, none, String, Option, Bool, ◌==◌, string_eq, if◌then◌else◌,
}
use renderer_service_upnp.Prelude.Int.{pos, negsuc}
use renderer_service_upnp.Log.{Build, Log, log_type_syslog, log_init, empty_mask}
use renderer_service_upnp.Log.Subset.{level_has, warning_message}
use renderer_service_upnp.Settings.{KeyFile, Gio, SettingsLoop, to_log_level, settings_new}
use renderer_service_upnp.Settings.LogLevel.{means, to_log_level-means}

-- Numbers out of range are skipped, and 8 counts although 3 comes first.
to_log_level-means_example :
    level_has warning_message (to_log_level (pos 3 ∷ pos 9 ∷ negsuc 0 ∷ pos 8 ∷ pos 7 ∷ []))
    ≡ means warning_message (pos 3 ∷ pos 9 ∷ negsuc 0 ∷ pos 8 ∷ pos 7 ∷ [])
to_log_level-means_example =
    to_log_level-means warning_message (pos 3 ∷ pos 9 ∷ negsuc 0 ∷ pos 8 ∷ pos 7 ∷ [])

abbrev build : Build
build = record {
  log_type = log_type_syslog;
  log_level = record {
    error = true;
    critical = true;
    warning = false;
    message = false;
    info = true;
    debug = false;
  };
  never_quit = false;
}

-- A file system that has the system's file, and the user's or not.
abbrev Files : Type 0
Files = Bool

abbrev system_file : KeyFile
system_file = record { never_quit = some true; log_type = none; log_level = some (pos 3 ∷ []) }

abbrev user_file : KeyFile
user_file = record { never_quit = none; log_type = some (pos 1); log_level = none }

abbrev load_file : String → Files → Option KeyFile
load_file path has_user =
    if path == "/etc/conf" then some system_file else if has_user then some user_file else none

abbrev path_in : String → String
path_in dir = if dir == "/etc" then "/etc/conf" else "/home/conf"

abbrev gio : Gio Files
gio = record {
  sys_config_dir = "/etc";
  user_config_dir = some "/home";
  path_of = path_in;
  get_parent = λ p. "/home";
  query_exists = λ p fs. fs;
  load = load_file;
  make_directory = λ d fs. (fs, false);
  copy = λ a b fs. fs;
  can_monitor = λ p fs. true;
}

abbrev log : Log
log = (log_init build "" empty_mask).0

abbrev started : SettingsLoop
started = (settings_new gio build log false).1
