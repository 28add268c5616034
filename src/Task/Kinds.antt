-- ===== src/Task/Kinds.antt =====
-- src/task.h: the types of requests, their parameters, and the values that D-Bus carries.
use renderer_service_upnp.Prelude.{ℕ, Bool, String, List}
use renderer_service_upnp.Prelude.Int.{ℤ}

-- rsu_task_type_t
pub data TaskType : Type 0 where
  get_version get_servers raise quit set_prop get_all_props get_prop : TaskType
  pause play play_pause stop next previous open_uri seek set_position : TaskType
  goto_track host_uri remove_uri : TaskType

-- The GVariants that the program makes or reads, with the entries of an a{sv}. A double is kept as the
-- fraction that it is computed from, without the error of floating point.
mutual
  pub data Variant : Type 0 where
    string : String → Variant
    strings : List String → Variant
    boolean : Bool → Variant
    int32 int64 : ℤ → Variant
    uint32 : ℕ → Variant
    double : ℤ → ℕ → Variant
    doubles : List (ℤ × ℕ) → Variant
    dict : Entries → Variant

  pub data Entries : Type 0 where
    no_entries : Entries
    entry : String → Variant → Entries → Entries

-- The union `ut`.
pub data Payload : Type 0 where
  no_params : Payload
  get_props_of : String → Payload
  get_prop_of : String → String → Payload
  set_prop_of : String → String → Variant → Payload
  uri_of : String → Payload
  hosted_uri : String → String → Payload
  -- position, track_number
  seek_to : ℤ → ℕ → Payload

-- A D-Bus call that waits for an answer: its serial and its sender.
pub record Invocation : Type 0 where
  pub serial : ℕ
  pub sender : String
