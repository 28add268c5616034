-- ===== src/Host/File.antt =====
-- src/host-service.c: a hosted file and the clients that host it.
use renderer_service_upnp.Prelude.{
  ℕ, String, Bool, true, false, ◌||◌, List, [], ◌∷◌, ◌++◌, Option, none, some, ◌==◌, string_eq,
  if◌then◌else◌,
}
use renderer_service_upnp.Error.{Error, object_not_found, bad_mime}

pub data Result {ℓ} (A : Type ℓ) : Type ℓ where
  ok : A → Result A
  err : Error → Result A

-- What the file system, the content type database, GUPnP-DLNA, libsoup and printf answer.
pub record Env : Type 0 where
  -- g_file_test(file, G_FILE_TEST_IS_REGULAR | G_FILE_TEST_EXISTS)
  pub is_file : String → Bool
  -- g_content_type_guess, g_content_type_get_mime_type
  pub content_type_guess : String → Option String
  pub get_mime_type : String → Option String
  -- prv_compute_dlna_header
  pub dlna_header : String → String
  -- g_strdup_printf(HOST_SERVICE_ROOT"/%d%s", id, extension of the file name)
  pub print_path : ℕ → String → String
  -- soup_address_resolve_sync of the interface's address
  pub resolves : String → Bool
  -- g_strdup_printf("http://%s:%d%s", device_if, port of its server, path)
  pub print_url : String → String → String
  -- g_mapped_file_new succeeds
  pub can_map : String → Bool

-- rsu_host_file_t. `mapped` says that `mapped_file` is there; `mapped_count` counts its references.
pub record HostFile : Type 0 where
  pub id : ℕ
  pub clients : List String
  pub mime_type : String
  pub mapped : Bool
  pub mapped_count : ℕ
  pub path : String
  pub dlna_header : String

module _ (env : Env) where
  -- prv_host_file_new, from the content type on
  file_of_type : String → ℕ → Option String → Result HostFile
  file_of_type file id none = err bad_mime
  file_of_type file id (some t) = elim (env.get_mime_type t) [
    | none ↦ err bad_mime
    | some m ↦ ok (record {
      id = id;
      clients = [];
      mime_type = m;
      mapped = false;
      mapped_count = 0;
      path = env.print_path id file;
      dlna_header = env.dlna_header file;
    })
  ]

  -- prv_host_file_new
  unfoldable pub host_file_new : String → ℕ → Result HostFile
  unfolding file_of_type
  host_file_new file id =
      if env.is_file file
      then file_of_type file id (env.content_type_guess file)
      else err object_not_found

-- The search for a client in the array of clients.
unfoldable pub member : String → List String → Bool
member c [] = false
member c (x ∷ xs) = x == c || member c xs

-- g_ptr_array_remove_index at the first place where the client stands
unfoldable pub without : String → List String → List String
without c [] = []
without c (x ∷ xs) = if x == c then xs else x ∷ without c xs

-- The clients of a file that is hosted already, after prv_add_new_file.
unfoldable pub add_client : String → HostFile → HostFile
add_client c hf = if member c hf.clients then hf else record hf { clients = hf.clients ++ c ∷ [] }

-- prv_remove_client
unfoldable pub remove_client : String → HostFile → HostFile × Bool
remove_client c hf =
    if member c hf.clients
    then (record hf { clients = without c hf.clients }, true)
    else (hf, false)

unfoldable pub is_empty {ℓ} : {A : Type ℓ} → List A → Bool
is_empty [] = true
is_empty (x ∷ xs) = false
