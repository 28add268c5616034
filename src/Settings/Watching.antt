-- ===== src/Settings/Watching.antt =====
-- The settings follow the file, over any sequence of changes and timers.
use renderer_service_upnp.Prelude.{
  ℕ, ◌<◌, Bool, true, false, ◌≡◌, List, [], ◌∷◌, if◌then◌else◌, ◌==◌, nat_eq, string_eq, ◌||◌,
}
use renderer_service_upnp.Log.{Build, Log}
use renderer_service_upnp.Settings.{
  Gio, SettingsLoop, FileEvent, resets_timer, monitor_keyfile_cb, monitor_timeout_cb, settings_new,
}
use renderer_service_upnp.Settings.Reads.{Reflects, keyfile_of}

abbrev has_timeout : ℕ → List ℕ → Bool
has_timeout i [] = false
has_timeout i (j ∷ rest) = j == i || has_timeout i rest

-- The timeouts that there are when `ev_id` is this one.
abbrev timeouts_of : ℕ → List ℕ
timeouts_of n = if n == 0 then [] else n ∷ []

-- One timer at most, that of `ev_id`.
pub record OneTimer (s : SettingsLoop) : Type 0 where
  pub positive : 0 < s.next_id
  pub below : s.settings.ev_id < s.next_id
  pub pending : s.timeouts ≡ timeouts_of s.settings.ev_id

module _ {Fs : Type 0} (gio : Gio Fs) (build : Build) where
  -- The service with the files as they are now. A change of the files comes with an event of the
  -- monitor that resets the timer; other events change nothing; the timer fires when it will.
  pub data Life : Fs → SettingsLoop → Type 0 where
    begins :
        (log : Log) (fs : Fs)
        → Life (settings_new gio build log fs).0 (settings_new gio build log fs).1
    changes :
        {fs fs' : Fs} {s : SettingsLoop} (e : FileEvent)
        → Life fs s
        → resets_timer e ≡ true
        → Life fs' (monitor_keyfile_cb e s)
    stirs :
        {fs : Fs} {s : SettingsLoop} (e : FileEvent) → Life fs s → Life fs (monitor_keyfile_cb e s)
    fires :
        {fs : Fs} {s : SettingsLoop} (i : ℕ)
        → Life fs s
        → has_timeout i s.timeouts ≡ true
        → Life fs (monitor_timeout_cb gio build i fs s)

  -- What holds of the service at all times.
  pub record IsCurrent (fs : Fs) (s : SettingsLoop) : Type 0 where
    pub timer : OneTimer s
    pub reflects : s.settings.ev_id ≡ 0 → Reflects gio build (keyfile_of gio build fs) s.settings
