-- ===== src/Log/Tests.antt =====
-- The log at concrete levels.
use renderer_service_upnp.Prelude.{true, false, ◌≡◌, refl, [], ◌∷◌}
use renderer_service_upnp.Log.{
  Levels, Build, Log, log_type_syslog, log_type_glib, get_mf, level_flags, any_flag, flags_and,
  mask_and, log_init, empty_mask, update_type_level, trace_by, log_trace, logv,
}
use renderer_service_upnp.Log.Subset.{IsSubset, error_message, flag_of, update_type_level-IsSubset}

abbrev errors : Levels
errors = record {
  error = true;
  critical = false;
  warning = false;
  message = false;
  info = false;
  debug = false;
}

abbrev debugging : Levels
debugging = record {
  error = false;
  critical = false;
  warning = false;
  message = false;
  info = false;
  debug = true;
}

abbrev build : Build
build = record { log_type = log_type_syslog; log_level = errors; never_quit = false }

abbrev at_start : Log
at_start = (log_init build "" empty_mask).0

update_type_level-IsSubset_example :
    IsSubset build debugging (update_type_level build log_type_glib debugging at_start).0
update_type_level-IsSubset_example =
    update_type_level-IsSubset build log_type_glib debugging at_start

-- With no kind of message in both levels, rsu_log_trace still calls GLib: the flags are not 0.
trace_disjoint :
    log_trace
      (get_mf errors).0
      (flag_of error_message)
      "lost"
      (update_type_level build log_type_glib debugging at_start).0
    ≡ logv (flag_of error_message) "lost" ∷ []
unfolding update_type_level get_mf level_flags any_flag flags_and mask_and trace_by log_trace
trace_disjoint = refl
