-- ===== src/Host/Service.antt =====
-- src/host-service.c: hosting a file, taking it back, and losing a client.
use renderer_service_upnp.Prelude.{
  ℕ, suc, String, Bool, true, false, List, [], ◌∷◌, Option, none, some, string_eq, if◌then◌else◌,
  ◌&&◌,
}
use renderer_service_upnp.Error.{host_failed}
use renderer_service_upnp.Dict.{lookup, insert, remove}
use renderer_service_upnp.Host.File.{
  Result, ok, err, Env, HostFile, host_file_new, add_client, remove_client, is_empty,
}

-- rsu_host_server_t; `counter` is an unsigned int of which the model does not see the wrap
pub record HostServer : Type 0 where
  pub files : List (String × HostFile)
  pub counter : ℕ

-- rsu_host_service_t: the servers by interface
abbrev pub HostService : Type 0
HostService = List (String × HostServer)

-- rsu_host_service_new
unfoldable pub service_new : HostService
service_new = []

module _ (env : Env) where
  -- prv_host_server_new
  unfoldable pub host_server_new : String → Result HostServer
  host_server_new device_if =
      if env.resolves device_if then ok (record { files = []; counter = 0 }) else err host_failed

  -- prv_add_new_file of a file that is not there: the counter moves also where the file is refused
  unfoldable pub add_fresh :
      HostServer → String → String → String → Result HostFile → HostServer × Result String
  add_fresh server client device_if file (err e) =
      (record server { counter = suc server.counter }, err e)
  add_fresh server client device_if file (ok hf) = (
    record {
      files = insert file (record hf { clients = client ∷ [] }) server.files;
      counter = suc server.counter;
    },
    ok (env.print_url device_if hf.path),
  )

  -- prv_add_new_file, by what its lookup finds
  unfoldable pub add_found :
      HostServer → String → String → String → Option HostFile → HostServer × Result String
  add_found server client device_if file none =
      add_fresh server client device_if file (host_file_new env file server.counter)
  add_found server client device_if file (some hf) = (
    record server { files = insert file (add_client client hf) server.files },
    ok (env.print_url device_if hf.path),
  )

  -- prv_add_new_file
  unfoldable pub add_new_file : HostServer → String → String → String → HostServer × Result String
  add_new_file server client device_if file =
      add_found server client device_if file (lookup file server.files)

  -- Storing the server that an operation leaves.
  unfoldable pub store :
      HostService → String → HostServer × Result String → HostService × Result String
  store hs device_if (server, r) = (insert device_if server hs, r)

  -- rsu_host_service_add of the server that a lookup or prv_host_server_new gave
  unfoldable pub add_on :
      HostService → String → String → String → Result HostServer → HostService × Result String
  add_on hs device_if client file (err e) = (hs, err e)
  add_on hs device_if client file (ok server) =
      store hs device_if (add_new_file server client device_if file)

  -- rsu_host_service_add: the server that is there, or a new one
  unfoldable pub server_for : String → Option HostServer → Result HostServer
  server_for device_if none = host_server_new device_if
  server_for device_if (some server) = ok server

  -- rsu_host_service_add
  unfoldable pub service_add : HostService → String → String → String → HostService × Result String
  service_add hs device_if client file =
      add_on hs device_if client file (server_for device_if (lookup device_if hs))

-- A file that has lost a client, in the table of its server.
unfoldable pub put_file : String → HostFile → List (String × HostFile) → List (String × HostFile)
put_file file hf files = if is_empty hf.clients then remove file files else insert file hf files

-- A server that has lost a client, in the table of servers.
unfoldable pub put_server : String → HostServer → HostService → HostService
put_server device_if server hs =
    if is_empty server.files then remove device_if hs else insert device_if server hs

-- rsu_host_service_remove, by what its lookup of the file finds
unfoldable pub remove_on :
    HostService → String → String → String → HostServer → Option HostFile → HostService × Bool
remove_on hs device_if client file server none = (hs, false)
remove_on hs device_if client file server (some hf) =
    let (hf', found) = remove_client client hf in
    if found
    then (put_server device_if (record server { files = put_file file hf' server.files }) hs, true)
    else (hs, false)

-- rsu_host_service_remove, by what its lookup of the server finds
unfoldable pub remove_at :
    HostService → String → String → String → Option HostServer → HostService × Bool
remove_at hs device_if client file none = (hs, false)
remove_at hs device_if client file (some server) =
    remove_on hs device_if client file server (lookup file server.files)

-- rsu_host_service_remove
unfoldable pub service_remove : HostService → String → String → String → HostService × Bool
service_remove hs device_if client file = remove_at hs device_if client file (lookup device_if hs)

-- The inner loop of rsu_host_service_lost_client, which walks over the files of a server.
unfoldable pub lose_files : String → List (String × HostFile) → List (String × HostFile)
lose_files client [] = []
lose_files client ((file, hf) ∷ rest) =
    let (hf', found) = remove_client client hf in
    if found && is_empty hf'.clients
    then lose_files client rest
    else (file, hf') ∷ lose_files client rest

-- rsu_host_service_lost_client
unfoldable pub lost_client : HostService → String → HostService
lost_client [] client = []
lost_client ((device_if, server) ∷ rest) client =
    let files = lose_files client server.files in
    if is_empty files
    then lost_client rest client
    else (device_if, record server { files = files }) ∷ lost_client rest client
