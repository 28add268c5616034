-- ===== src/Host/Http.antt =====
-- src/host-service.c: the HTTP requests for hosted files, and how long a file stays mapped.
use renderer_service_upnp.Prelude.{
  suc, ltb, ◌-◌, String, Bool, true, not, ◌&&◌, List, [], ◌∷◌, Option, none, some, ◌==◌, nat_eq,
  string_eq, if◌then◌else◌,
}
use renderer_service_upnp.Dict.{insert}
use renderer_service_upnp.Host.File.{Env, HostFile}
use renderer_service_upnp.Host.Service.{HostServer}

pub data Method : Type 0 where
  get head other_method : Method

-- The status, and for SOUP_STATUS_OK the content type; `dlna` is the contentFeatures.dlna.org header
-- that was added.
pub data Response : Type 0 where
  not_implemented not_found bad_request : Response
  answered : Method → String → Option String → Response

-- prv_host_server_find_file
unfoldable pub find_file : String → List (String × HostFile) → Option (String × HostFile)
find_file url [] = none
find_file url ((file, hf) ∷ rest) = if hf.path == url then some (file, hf) else find_file url rest

-- The header that the request's getContentFeatures.dlna.org asks for; `none` for a bad request.
unfoldable pub dlna_answer : HostFile → Option String → Option (Option String)
dlna_answer hf none = some none
dlna_answer hf (some hdr) =
    if hdr == "1" then some (if hf.dlna_header == "" then none else some hf.dlna_header) else none

-- The reference to the mapping that an answer takes; `none` if the file cannot be mapped.
unfoldable pub map_file : Bool → HostFile → Option HostFile
map_file can_map hf =
    if hf.mapped
    then some (record hf { mapped_count = suc hf.mapped_count })
    else if can_map
    then some (record hf { mapped = true; mapped_count = 1 })
    else none

unfoldable pub answer_mapped :
    Method → Option String → HostFile → Option HostFile → HostFile × Response
answer_mapped method dlna hf none = (hf, not_found)
answer_mapped method dlna hf (some hf') = (hf', answered method hf'.mime_type dlna)

unfoldable pub answer_dlna : Bool → Method → HostFile → Option (Option String) → HostFile × Response
answer_dlna can_map method hf none = (hf, bad_request)
answer_dlna can_map method hf (some dlna) = answer_mapped method dlna hf (map_file can_map hf)

-- prv_soup_server_cb on the file that it finds
unfoldable pub serve_file : Bool → Method → Option String → HostFile → HostFile × Response
serve_file can_map method hdr hf = answer_dlna can_map method hf (dlna_answer hf hdr)

module _ (env : Env) where
  unfoldable pub serve_found :
      HostServer → Method → Option String → Option (String × HostFile) → HostServer × Response
  serve_found server method hdr none = (server, not_found)
  serve_found server method hdr (some (file, hf)) =
      let (hf', r) = serve_file (env.can_map file) method hdr hf in
      (record server { files = insert file hf' server.files }, r)

  -- prv_soup_server_cb
  unfoldable pub soup_server_cb :
      HostServer → Method → String → Option String → HostServer × Response
  soup_server_cb server other_method path hdr = (server, not_implemented)
  soup_server_cb server get path hdr = serve_found server get hdr (find_file path server.files)
  soup_server_cb server head path hdr = serve_found server head hdr (find_file path server.files)

-- prv_soup_message_finished_cb, which only a GET is connected to
unfoldable pub message_finished : HostFile → HostFile
message_finished hf =
    if ltb 0 hf.mapped_count
    then record hf {
      mapped = not (hf.mapped_count - 1 == 0) && hf.mapped;
      mapped_count = hf.mapped_count - 1;
    }
    else hf

-- What happens to one hosted file: a GET or a HEAD that is answered, the end of a GET's answer.
pub data Event : Type 0 where
  gets heads finishes : Event

unfoldable pub on_event : HostFile → Event → HostFile
unfolding serve_file answer_dlna answer_mapped dlna_answer map_file message_finished
on_event hf gets = (serve_file true get none hf).0
on_event hf heads = (serve_file true head none hf).0
on_event hf finishes = message_finished hf

unfoldable pub run_events : HostFile → List Event → HostFile
run_events hf [] = hf
run_events hf (e ∷ es) = run_events (on_event hf e) es
