-- ===== src/Log/Subset.antt =====
-- The levels that are written are those of the settings that the build has too.
use renderer_service_upnp.Prelude.{
  Bool, true, false, ◌&&◌, ◌||◌, ◌≡◌, refl, ◌∙◌, String, [], ◌∷◌, if◌then◌else◌, Bool-cases, inl,
  inr,
}
use renderer_service_upnp.Log.{
  empty_flags, LogType, Levels, Mask, Flags, Build, Log, mask_and, flags_and, any_flag, level_flags,
  get_mf, update_type_level, log_handler, default_handler,
}

-- A kind of message.
pub data Priority : Type 0 where
  error_message critical_message warning_message plain_message info_message debug_message : Priority

abbrev pub level_has : Priority → Levels → Bool
level_has error_message l = l.error
level_has critical_message l = l.critical
level_has warning_message l = l.warning
level_has plain_message l = l.message
level_has info_message l = l.info
level_has debug_message l = l.debug

abbrev pub mask_has : Priority → Mask → Bool
mask_has error_message m = m.log_err
mask_has critical_message m = m.log_crit
mask_has warning_message m = m.log_warning
mask_has plain_message m = m.log_notice
mask_has info_message m = m.log_info
mask_has debug_message m = m.log_debug

-- The flags of a message of GLib's.
abbrev pub flag_of : Priority → Flags
flag_of error_message = record empty_flags { level_error = true }
flag_of critical_message = record empty_flags { level_critical = true }
flag_of warning_message = record empty_flags { level_warning = true }
flag_of plain_message = record empty_flags { level_message = true }
flag_of info_message = record empty_flags { level_info = true }
flag_of debug_message = record empty_flags { level_debug = true }

abbrev flag_has : Priority → Flags → Bool
flag_has error_message f = f.level_error
flag_has critical_message f = f.level_critical
flag_has warning_message f = f.level_warning
flag_has plain_message f = f.level_message
flag_has info_message f = f.level_info
flag_has debug_message f = f.level_debug

flag_has-and :
    (p : Priority) (a b : Flags) → flag_has p (flags_and a b) ≡ (flag_has p a && flag_has p b)
unfolding flags_and
flag_has-and error_message a b = refl
flag_has-and critical_message a b = refl
flag_has-and warning_message a b = refl
flag_has-and plain_message a b = refl
flag_has-and info_message a b = refl
flag_has-and debug_message a b = refl

flag_has-level_flags : (p : Priority) (l : Levels) → flag_has p (level_flags l) ≡ level_has p l
unfolding level_flags
flag_has-level_flags error_message l = refl
flag_has-level_flags critical_message l = refl
flag_has-level_flags warning_message l = refl
flag_has-level_flags plain_message l = refl
flag_has-level_flags info_message l = refl
flag_has-level_flags debug_message l = refl

-- RECURSION and FATAL are no levels.
flag_has-extra :
    (p : Priority) (f : Flags)
    → flag_has p (record f { flag_recursion = true; flag_fatal = true }) ≡ flag_has p f
flag_has-extra error_message f = refl
flag_has-extra critical_message f = refl
flag_has-extra warning_message f = refl
flag_has-extra plain_message f = refl
flag_has-extra info_message f = refl
flag_has-extra debug_message f = refl

flag_has-get_mf : (p : Priority) (l : Levels) → flag_has p (get_mf l).1 ≡ level_has p l
unfolding get_mf
flag_has-get_mf p l = elim (Bool-cases (any_flag (level_flags l))) [
  | inl e ↦ rw e (flag_has-extra p (level_flags l) ∙ flag_has-level_flags p l)
  | inr e ↦ rw e (flag_has-level_flags p l)
]

and_false : (b : Bool) → (b && false) ≡ false
and_false true = refl
and_false false = refl

and_true : (b : Bool) → (b && true) ≡ b
and_true true = refl
and_true false = refl

or_false : (b : Bool) → (b || false) ≡ b
or_false true = refl
or_false false = refl

-- A message with one flag is met by the flags that have it.
any_flag-flag_of : (p : Priority) (f : Flags) → any_flag (flags_and f (flag_of p)) ≡ flag_has p f
unfolding any_flag flags_and
any_flag-flag_of error_message f = simp (and_false, and_true, or_false)
any_flag-flag_of critical_message f = simp (and_false, and_true, or_false)
any_flag-flag_of warning_message f = simp (and_false, and_true, or_false)
any_flag-flag_of plain_message f = simp (and_false, and_true, or_false)
any_flag-flag_of info_message f = simp (and_false, and_true, or_false)
any_flag-flag_of debug_message f = simp (and_false, and_true, or_false)

-- What holds of the log after it was told a level.
pub record IsSubset (build : Build) (level : Levels) (log : Log) : Type 0 where
  pub masked :
      (p : Priority) → mask_has p log.mask ≡ (level_has p level && level_has p build.log_level)
  pub handled :
      (p : Priority) (text : String)
      → log_handler true (flag_of p) text log ≡ (
          if level_has p level && level_has p build.log_level
          then default_handler (flag_of p) text ∷ []
          else [])

module _ (build : Build) (log_type : LogType) (level : Levels) (log : Log) where
  masked_lem :
      (p : Priority)
      → mask_has p (update_type_level build log_type level log).0.mask
        ≡ (level_has p level && level_has p build.log_level)
  unfolding update_type_level get_mf mask_and
  masked_lem error_message = refl
  masked_lem critical_message = refl
  masked_lem warning_message = refl
  masked_lem plain_message = refl
  masked_lem info_message = refl
  masked_lem debug_message = refl

  handled_lem :
      (p : Priority) (text : String)
      → log_handler true (flag_of p) text (update_type_level build log_type level log).0 ≡ (
          if level_has p level && level_has p build.log_level
          then default_handler (flag_of p) text ∷ []
          else [])
  unfolding update_type_level log_handler
  handled_lem p text =
      let both : any_flag
            (flags_and (flags_and (get_mf level).1 (get_mf build.log_level).1) (flag_of p))
          ≡ (level_has p level && level_has p build.log_level) =
        any_flag-flag_of p (flags_and (get_mf level).1 (get_mf build.log_level).1)
        ∙ flag_has-and p (get_mf level).1 (get_mf build.log_level).1
        ∙ rw (flag_has-get_mf p level, flag_has-get_mf p build.log_level) refl in
      rw both refl

  -- After rsu_log_update_type_level, whatever the log was before: the mask for syslog has exactly the
  -- kinds of messages that are both in the level of the settings and in that of the build; and of the
  -- program's own messages with no other flag, the handler for GLib passes on exactly these kinds.
  pub update_type_level-IsSubset :
      IsSubset build level (update_type_level build log_type level log).0
  update_type_level-IsSubset = record { masked = masked_lem; handled = handled_lem }
