-- ===== src/Settings/Reads.antt =====
-- What the settings are after the files were read.
use renderer_service_upnp.Prelude.{
  Bool, ◌≡◌, refl, String, Option, none, some, nat_eq, string_eq, arith,
}
use renderer_service_upnp.Log.{LogType, Levels, Build}
use renderer_service_upnp.Settings.{
  KeyFile, Gio, Settings, to_log_type, to_log_level, read_never_quit, read_log_type, read_log_level,
  read_keys, SettingsLoop, get_keyfile_path, load_keyfile, init_default, or_else_load, use_keyfile,
  keyfile_init, init_from, reload, monitor_local_keyfile, prepare,
}

abbrev given_or {ℓ} : {A : Type ℓ} → Option A → A → A
given_or none a = a
given_or (some b) a = b

abbrev quit_or : Option KeyFile → Bool → Bool
quit_or none v = v
quit_or (some k) v = given_or k.never_quit v

abbrev type_or : Option KeyFile → LogType → LogType
type_or none v = v
type_or (some k) v = elim k.log_type [ none ↦ v | some z ↦ to_log_type z ]

abbrev level_or_default : Option KeyFile → Levels → Levels
level_or_default none v = v
level_or_default (some k) v = elim k.log_level [ none ↦ v | some zs ↦ to_log_level zs ]

-- Looking for a file leaves the timer alone.
pub record SameTimer (s s' : SettingsLoop) : Type 0 where
  pub ev_same : s'.settings.ev_id ≡ s.settings.ev_id
  pub next_same : s'.next_id ≡ s.next_id
  pub timeouts_same : s'.timeouts ≡ s.timeouts

module _ {Fs : Type 0} (gio : Gio Fs) (build : Build) where
  -- The file that counts: the user's if it can be read, else that of the system.
  abbrev pub keyfile_of : Fs → Option KeyFile
  keyfile_of fs =
      let paths = get_keyfile_path gio build in
      or_else_load gio build (load_keyfile gio build paths.1 fs) (load_keyfile gio build paths.0 fs)

  -- The settings are those of a file, or those of the build where it has none.
  pub record Reflects (file : Option KeyFile) (s : Settings) : Type 0 where
    pub quit_is : s.never_quit ≡ quit_or file build.never_quit
    pub type_is : s.log_type ≡ type_or file build.log_type
    pub level_is : s.log_level ≡ level_or_default file build.log_level

  read_keys-Reflects :
      (k : KeyFile) (s : Settings) → Reflects none s → Reflects (some k) (read_keys k s)
  unfolding read_keys read_never_quit read_log_type read_log_level
  read_keys-Reflects k s r = record {
    quit_is = ground (arith, r.quit_is);
    type_is = ground (arith, r.type_is);
    level_is = ground (arith, r.level_is);
  }

  use_keyfile-Reflects :
      (o : Option KeyFile) (s : SettingsLoop)
      → Reflects none s.settings
      → Reflects o (use_keyfile gio build o s).settings
  unfolding use_keyfile
  use_keyfile-Reflects none s r = record {
    quit_is = r.quit_is;
    type_is = r.type_is;
    level_is = r.level_is;
  }
  use_keyfile-Reflects (some k) s r =
      read_keys-Reflects k (record s.settings { keyfile = some k })
        (record { quit_is = r.quit_is; type_is = r.type_is; level_is = r.level_is })

  pub init_from-Reflects :
      (paths : Option String × Option String) (fs : Fs) (s : SettingsLoop)
      → Reflects none s.settings
      → Reflects
          (or_else_load gio build
            (load_keyfile gio build paths.1 fs)
            (load_keyfile gio build paths.0 fs))
          (init_from gio build paths fs s).settings
  unfolding init_from keyfile_init load_keyfile or_else_load
  init_from-Reflects (none, none) fs s r = r
  init_from-Reflects (none, some loc) fs s r = use_keyfile-Reflects _ s r
  init_from-Reflects (some sys, none) fs s r = use_keyfile-Reflects _ s r
  init_from-Reflects (some sys, some loc) fs s r = use_keyfile-Reflects _ s r

  use_keyfile-SameTimer :
      (o : Option KeyFile) (s : SettingsLoop) → SameTimer s (use_keyfile gio build o s)
  unfolding use_keyfile read_keys read_never_quit read_log_type read_log_level
  use_keyfile-SameTimer none s = record { ev_same = refl; next_same = refl; timeouts_same = refl }
  use_keyfile-SameTimer (some k) s = record {
    ev_same = ground arith;
    next_same = refl;
    timeouts_same = refl;
  }

  pub init_from-SameTimer :
      (paths : Option String × Option String) (fs : Fs) (s : SettingsLoop)
      → SameTimer s (init_from gio build paths fs s)
  unfolding init_from keyfile_init
  init_from-SameTimer (none, none) fs s = record {
    ev_same = refl;
    next_same = refl;
    timeouts_same = refl;
  }
  init_from-SameTimer (none, some loc) fs s = use_keyfile-SameTimer _ s
  init_from-SameTimer (some sys, none) fs s = use_keyfile-SameTimer _ s
  init_from-SameTimer (some sys, some loc) fs s = use_keyfile-SameTimer _ s

  pub defaults-Reflects : (s : Settings) → Reflects none (init_default gio build s)
  unfolding init_default
  defaults-Reflects s = record { quit_is = refl; type_is = refl; level_is = refl }

  pub reload-Reflects :
      (fs : Fs) (s : SettingsLoop) → Reflects (keyfile_of fs) (reload gio build fs s).settings
  unfolding reload
  reload-Reflects fs s = init_from-Reflects (get_keyfile_path gio build) fs _ (defaults-Reflects _)

  pub reload-SameTimer : (fs : Fs) (s : SettingsLoop) → SameTimer s (reload gio build fs s)
  unfolding reload init_default
  reload-SameTimer fs s =
      let w = init_from-SameTimer (get_keyfile_path gio build) fs _ in
      record { ev_same = w.ev_same; next_same = w.next_same; timeouts_same = w.timeouts_same }

  pub prepare-Reflects :
      (paths : Option String × Option String) (fs : Fs) (s : Settings)
      → Reflects none s
      → Reflects none (prepare gio build paths fs s).1
  unfolding prepare monitor_local_keyfile
  prepare-Reflects (sys, none) fs s r = r
  prepare-Reflects (sys, some loc) fs s r = record {
    quit_is = ground (arith, r.quit_is);
    type_is = ground (arith, r.type_is);
    level_is = ground (arith, r.level_is);
  }

  pub prepare-ev_id :
      (paths : Option String × Option String) (fs : Fs) (s : Settings)
      → (prepare gio build paths fs s).1.ev_id ≡ s.ev_id
  unfolding prepare monitor_local_keyfile
  prepare-ev_id (sys, none) fs s = refl
  prepare-ev_id (sys, some loc) fs s = ground arith
