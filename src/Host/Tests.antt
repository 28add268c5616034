-- ===== src/Host/Tests.antt =====
-- Runs of the host service at concrete files and clients, and its theorems at concrete inputs.
use renderer_service_upnp.Prelude.{
  ltb, ◌+◌, ◌≡◌, refl, true, false, not, ◌&&◌, ◌||◌, [], ◌∷◌, some, arith,
}
use renderer_service_upnp.Host.File.{Env, HostFile}
use renderer_service_upnp.Host.Service.{
  HostService, service_new, service_add, service_remove, lost_client,
}
use renderer_service_upnp.Host.View.{hosts}
use renderer_service_upnp.Host.Invariant.{IsService, service_add-IsService}
use renderer_service_upnp.Host.Removal.{service_remove-IsService, lost_client-IsService}
use renderer_service_upnp.Host.Triples.{
  is_ok, hosts-service_add, hosts-service_remove, hosts-lost_client,
}
use renderer_service_upnp.Host.Http.{gets, heads, finishes, run_events}
use renderer_service_upnp.Host.Serve.{count-run_events, mapped-run_events}

abbrev pub music : Env
music = record {
  is_file = λ f. true;
  content_type_guess = λ f. some "audio/mpeg";
  get_mime_type = λ t. some t;
  dlna_header = λ f. "";
  print_path = λ n f. "/rendererserviceupnp/0.mp3";
  resolves = λ d. true;
  print_url = λ d p. p;
  can_map = λ f. true;
}

pub new-IsService : IsService service_new
unfolding service_new
new-IsService = record { distinct = tt; servers = tt }

abbrev one_hosted : HostService
one_hosted = (service_add music service_new "10.0.0.1" ":1.42" "/a.mp3").0

one_hosted-IsService : IsService one_hosted
one_hosted-IsService =
    service_add-IsService music service_new "10.0.0.1" ":1.42" "/a.mp3" new-IsService

service_add-IsService_example :
    IsService (service_add music one_hosted "10.0.0.1" ":1.7" "/a.mp3").0
service_add-IsService_example =
    service_add-IsService music one_hosted "10.0.0.1" ":1.7" "/a.mp3" one_hosted-IsService

service_remove-IsService_example :
    IsService (service_remove one_hosted "10.0.0.1" ":1.42" "/a.mp3").0
service_remove-IsService_example =
    service_remove-IsService one_hosted "10.0.0.1" ":1.42" "/a.mp3" one_hosted-IsService

lost_client-IsService_example : IsService (lost_client one_hosted ":1.42")
lost_client-IsService_example = lost_client-IsService ":1.42" one_hosted one_hosted-IsService

hosts-service_add_example :
    hosts (service_add music one_hosted "10.0.0.1" ":1.7" "/a.mp3").0 "10.0.0.1" ":1.42" "/a.mp3"
    ≡ (is_ok (service_add music one_hosted "10.0.0.1" ":1.7" "/a.mp3").1
          && (true && (true && false))
        || hosts one_hosted "10.0.0.1" ":1.42" "/a.mp3")
hosts-service_add_example =
    hosts-service_add music ":1.7" "/a.mp3" ":1.42" "/a.mp3" "10.0.0.1" "10.0.0.1" one_hosted

hosts-service_remove_example :
    (hosts (service_remove one_hosted "10.0.0.1" ":1.42" "/a.mp3").0 "10.0.0.1" ":1.42" "/a.mp3"
      ≡ (not (true && (true && true)) && hosts one_hosted "10.0.0.1" ":1.42" "/a.mp3"))
    × ((service_remove one_hosted "10.0.0.1" ":1.42" "/a.mp3").1
        ≡ hosts one_hosted "10.0.0.1" ":1.42" "/a.mp3")
hosts-service_remove_example =
    hosts-service_remove ":1.42" "/a.mp3" ":1.42" "/a.mp3" "10.0.0.1" "10.0.0.1" one_hosted
      one_hosted-IsService

hosts-lost_client_example :
    hosts (lost_client one_hosted ":1.42") "10.0.0.1" ":1.42" "/a.mp3"
    ≡ (not true && hosts one_hosted "10.0.0.1" ":1.42" "/a.mp3")
hosts-lost_client_example =
    hosts-lost_client ":1.42" ":1.42" "/a.mp3" "10.0.0.1" one_hosted one_hosted-IsService

abbrev song : HostFile
song = record {
  id = 0;
  clients = ":1.42" ∷ [];
  mime_type = "audio/mpeg";
  mapped = false;
  mapped_count = 0;
  path = "/rendererserviceupnp/0.mp3";
  dlna_header = "";
}

count-run_events_example :
    (run_events song (gets ∷ heads ∷ gets ∷ finishes ∷ [])).mapped_count ≡ 1 + (0 + 1)
count-run_events_example =
    count-run_events song 0 0 (gets ∷ heads ∷ gets ∷ finishes ∷ []) (record { counted = refl }) refl
      (omega arith, tt)

mapped-run_events_example : (run_events song (heads ∷ gets ∷ finishes ∷ [])).mapped ≡ ltb 0 1
mapped-run_events_example =
    mapped-run_events song (heads ∷ gets ∷ finishes ∷ []) refl refl (omega arith, tt) refl
