-- ===== src/Log.antt =====
-- src/log.h and src/log.c: the levels of messages, and what is written. A set of bits is a record of
-- Boolean values, one for each bit that the program names: Levels for the RSU_LOG_LEVEL_ flags of
-- configure.ac, Mask for the LOG_MASK bits of syslog, Flags for the GLogLevelFlags.
pub mod Subset
pub mod Tests
use renderer_service_upnp.Prelude.{
  Bool, true, false, ◌&&◌, ◌||◌, not, String, List, [], ◌∷◌, ◌++◌, Option, none, some,
  if◌then◌else◌, ◌==◌, string_eq,
}

-- rsu_log_type_t
pub data LogType : Type 0 where
  log_type_syslog log_type_glib log_type_file : LogType

pub record Levels : Type 0 where
  pub error : Bool
  pub critical : Bool
  pub warning : Bool
  pub message : Bool
  pub info : Bool
  pub debug : Bool

pub record Mask : Type 0 where
  pub log_err : Bool
  pub log_crit : Bool
  pub log_warning : Bool
  pub log_notice : Bool
  pub log_info : Bool
  pub log_debug : Bool

pub record Flags : Type 0 where
  pub level_error : Bool
  pub level_critical : Bool
  pub level_warning : Bool
  pub level_message : Bool
  pub level_info : Bool
  pub level_debug : Bool
  pub flag_recursion : Bool
  pub flag_fatal : Bool

-- RSU_LOG_TYPE, RSU_LOG_LEVEL and RSU_NEVER_QUIT, which configure sets.
pub record Build : Type 0 where
  pub log_type : LogType
  pub log_level : Levels
  pub never_quit : Bool

-- `&` of masks and of flags; whether a bit is set
unfoldable pub mask_and : Mask → Mask → Mask
mask_and a b = record {
  log_err = a.log_err && b.log_err;
  log_crit = a.log_crit && b.log_crit;
  log_warning = a.log_warning && b.log_warning;
  log_notice = a.log_notice && b.log_notice;
  log_info = a.log_info && b.log_info;
  log_debug = a.log_debug && b.log_debug;
}

unfoldable pub flags_and : Flags → Flags → Flags
flags_and a b = record {
  level_error = a.level_error && b.level_error;
  level_critical = a.level_critical && b.level_critical;
  level_warning = a.level_warning && b.level_warning;
  level_message = a.level_message && b.level_message;
  level_info = a.level_info && b.level_info;
  level_debug = a.level_debug && b.level_debug;
  flag_recursion = a.flag_recursion && b.flag_recursion;
  flag_fatal = a.flag_fatal && b.flag_fatal;
}

unfoldable pub any_mask : Mask → Bool
any_mask m =
    m.log_err || (m.log_crit || (m.log_warning || (m.log_notice || (m.log_info || m.log_debug))))

unfoldable pub any_flag : Flags → Bool
any_flag f =
    f.level_error
    || (f.level_critical
        || (f.level_warning
            || (f.level_message
                || (f.level_info || (f.level_debug || (f.flag_recursion || f.flag_fatal))))))

-- The flags before `if (*flags)`.
unfoldable pub level_flags : Levels → Flags
level_flags l = record {
  level_error = l.error;
  level_critical = l.critical;
  level_warning = l.warning;
  level_message = l.message;
  level_info = l.info;
  level_debug = l.debug;
  flag_recursion = false;
  flag_fatal = false;
}

-- prv_rsu_log_get_mf
unfoldable pub get_mf : Levels → Mask × Flags
get_mf l = (
  record {
    log_err = l.error;
    log_crit = l.critical;
    log_warning = l.warning;
    log_notice = l.message;
    log_info = l.info;
    log_debug = l.debug;
  },
  if any_flag (level_flags l)
      then record (level_flags l) { flag_recursion = true; flag_fatal = true }
      else level_flags l,
)

-- rsu_log_t; that the old handler is there to be put back is `has_handler`
pub record Log : Type 0 where
  pub old_mask : Mask
  pub mask : Mask
  pub log_type : LogType
  pub flags : Flags
  pub has_handler : Bool

-- What is written, or told to syslog and to GLib.
pub data Output : Type 0 where
  setlogmask : Mask → Output
  vsyslog : Mask → String → Output
  logv : Flags → String → Output
  default_handler : Flags → String → Output
  openlog closelog set_handler restore_handler : Output

module _ (build : Build) where
  -- prv_rsu_log_set_flags_from_param
  unfoldable pub set_flags_from_param : Log → Log
  set_flags_from_param log =
      let mf = get_mf build.log_level in
      record log { mask = mf.0; flags = mf.1; log_type = build.log_type }

  -- rsu_log_update_type_level, but for its own message
  unfoldable pub update_type_level : LogType → Levels → Log → Log × List Output
  update_type_level log_type log_level log =
      let mf = get_mf log_level in
      let compile_mf = get_mf build.log_level in
      let mask = mask_and mf.0 compile_mf.0 in
      let flags = flags_and mf.1 compile_mf.1 in
      (record log { mask = mask; flags = flags; log_type = log_type }, setlogmask mask ∷ [])

unfoldable pub trace_by : LogType → Mask → Flags → String → Log → List Output
trace_by log_type_syslog priority flags text log =
    if any_mask log.mask then vsyslog priority text ∷ [] else []
trace_by log_type_glib priority flags text log =
    if any_flag log.flags then logv flags text ∷ [] else []
trace_by log_type_file priority flags text log = []

-- rsu_log_trace of a message with a priority, here the mask with its one bit, and flags
unfoldable pub log_trace : Mask → Flags → String → Log → List Output
log_trace priority flags text log = trace_by log.log_type priority flags text log

-- prv_rsu_log_handler; whether the domain is the program's own is an argument
unfoldable pub log_handler : Bool → Flags → String → Log → List Output
log_handler own level message log =
    if not own
    then []
    else if any_flag (flags_and log.flags level)
    then default_handler level message ∷ []
    else []

-- No bits, and the bits of informational messages.
abbrev pub empty_mask : Mask
empty_mask = record {
  log_err = false;
  log_crit = false;
  log_warning = false;
  log_notice = false;
  log_info = false;
  log_debug = false;
}

abbrev info_mask : Mask
info_mask = record empty_mask { log_info = true }

abbrev pub empty_flags : Flags
empty_flags = record {
  level_error = false;
  level_critical = false;
  level_warning = false;
  level_message = false;
  level_info = false;
  level_debug = false;
  flag_recursion = false;
  flag_fatal = false;
}

-- `memset(&s_log_context, 0, sizeof(s_log_context))`
abbrev pub log_zero : Log
log_zero = record {
  old_mask = empty_mask;
  mask = empty_mask;
  log_type = log_type_syslog;
  flags = empty_flags;
  has_handler = false;
}

unfoldable pub is_syslog : LogType → Bool
is_syslog log_type_syslog = true
is_syslog _ = false

module _ (build : Build) where
  -- RSU_LOG_INFO where the log is not that of syslog
  unfoldable pub inform : String → Log → List Output
  inform text log =
      if build.log_level.info && not (is_syslog log.log_type)
      then log_trace info_mask (record empty_flags { level_info = true }) text log
      else []

  -- rsu_log_init, which says `text`; `old` is the mask that setlogmask gives back
  unfoldable pub log_init : String → Mask → Log × List Output
  log_init text old =
      let log = set_flags_from_param build log_zero in
      let ready = record log { old_mask = old; has_handler = true } in
      (
        ready,
        openlog
            ∷ setlogmask info_mask
            ∷ vsyslog info_mask text
            ∷ setlogmask log.mask
            ∷ set_handler
            ∷ inform text ready,
      )

  -- rsu_log_finalize, which says `text`
  unfoldable pub log_finalize : String → Log → Log × List Output
  log_finalize text log = (
    log_zero,
    setlogmask info_mask ∷ vsyslog info_mask text ∷ inform text log
        ++ restore_handler ∷ setlogmask log.old_mask ∷ closelog ∷ [],
  )
