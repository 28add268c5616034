-- ===== src/Device/Hosting.antt =====
-- src/device.c: hosting a file for a device, and taking it back. `ip` is the address of the context
-- that rsu_device_get_context picks. Both functions always schedule rsu_async_task_complete.

use renderer_service_upnp.Prelude.{
  String, Bool, true, false, none, some, ◌≡◌, refl, ap, subst, ◌∙◌, arith, string_eq, eq_iff,
}
use renderer_service_upnp.Error.{object_not_found}
use renderer_service_upnp.Task.{Task}
use renderer_service_upnp.Task.Kinds.{Payload, Invocation, hosted_uri, string}
use renderer_service_upnp.Task.New.{host_uri_new, remove_uri_new}
use renderer_service_upnp.Host.File.{Env, Result, ok, err}
use renderer_service_upnp.Host.Service.{HostService, service_add, service_remove}
use renderer_service_upnp.Host.View.{hosts}
use renderer_service_upnp.Host.Invariant.{IsService, service_add-IsService}
use renderer_service_upnp.Host.Removal.{service_remove-IsService}
use renderer_service_upnp.Host.Triples.{is_ok, hosts-service_add, hosts-service_remove}

-- What rsu_host_service_add gives, in the task.
unfoldable pub host_result : Task → Result String → Task
host_result t (ok url) = record t { result = some (string url) }
host_result t (err e) = record t { error = some e }

unfoldable pub host_payload : Env → HostService → String → Task → Payload → HostService × Task
host_payload env hs ip t (hosted_uri uri client) =
    let (hs', r) = service_add env hs ip client uri in (hs', host_result t r)
host_payload env hs ip t _ = (hs, t)

-- rsu_device_host_uri
unfoldable pub device_host : Env → HostService → String → Task → HostService × Task
device_host env hs ip t = host_payload env hs ip t t.ut

-- What rsu_host_service_remove gives, in the task.
unfoldable pub remove_result : Task → Bool → Task
remove_result t true = t
remove_result t false = record t { error = some object_not_found }

unfoldable pub remove_payload : HostService → String → Task → Payload → HostService × Task
remove_payload hs ip t (hosted_uri uri client) =
    let (hs', found) = service_remove hs ip client uri in (hs', remove_result t found)
remove_payload hs ip t _ = (hs, t)

-- rsu_device_remove_uri
unfoldable pub device_remove : HostService → String → Task → HostService × Task
device_remove hs ip t = remove_payload hs ip t t.ut

host_result-ok : (t : Task) (r : Result String) → (host_result t r).error ≡ none → is_ok r ≡ true
unfolding host_result
host_result-ok t (ok url) h = refl
host_result-ok t (err e) h = cc

remove_result-error :
    (t : Task) (b : Bool)
    → t.error ≡ none
    → (remove_result t b).error ≡ (elim b [ true ↦ none | false ↦ some object_not_found ])
unfolding remove_result
remove_result-error t true h = h
remove_result-error t false h = refl

module _ (env : Env) (hs : HostService) (ip : String) (strstrip : String → String)
    (object uri : String) (i j : Invocation) where
  -- Of a well formed service: when HostFile ends without an error, RemoveFile of the same file by the
  -- same client, whatever the serials of the two calls, ends without an error, after it the client does
  -- not host the file, and another RemoveFile fails with ObjectNotFound.
  pub device_remove-device_host :
      IsService hs
      → j.sender ≡ i.sender
      → (device_host env hs ip (host_uri_new strstrip i object uri)).1.error ≡ none
      → let hosted = device_host env hs ip (host_uri_new strstrip i object uri) in
        let removed = device_remove hosted.0 ip (remove_uri_new strstrip j object uri) in
        let again = device_remove removed.0 ip (remove_uri_new strstrip j object uri) in
        (removed.1.error ≡ none)
        × (hosts removed.0 ip i.sender (strstrip uri) ≡ false)
        × (again.1.error ≡ some object_not_found)
  unfolding device_host device_remove host_payload remove_payload host_uri_new remove_uri_new
  device_remove-device_host v same fine =
      let f = strstrip uri in
      let c = i.sender in
      let hosted = service_add env hs ip c f in
      let good = host_result-ok _ hosted.1 fine in
      let u = remove_uri_new strstrip j object uri in
      let there : hosts hosted.0 ip j.sender f ≡ true = ground (
        arith,
        hosts-service_add env c f j.sender f ip ip hs,
        eq_iff ip ip,
        eq_iff f f,
        eq_iff c j.sender,
      ) in
      let w = service_add-IsService env hs ip c f v in
      let removed = service_remove hosted.0 ip j.sender f in
      let w' = service_remove-IsService hosted.0 ip j.sender f w in
      let found : removed.1 ≡ true =
        (hosts-service_remove j.sender f j.sender f ip ip hosted.0 w).1 ∙ there in
      let gone : hosts removed.0 ip j.sender f ≡ false = ground (
        arith,
        hosts-service_remove j.sender f j.sender f ip ip hosted.0 w,
        eq_iff ip ip,
        eq_iff f f,
        eq_iff j.sender j.sender,
      ) in
      let lost : (service_remove removed.0 ip j.sender f).1 ≡ false =
        (hosts-service_remove j.sender f j.sender f ip ip removed.0 w').1 ∙ gone in
      (
        remove_result-error u removed.1 refl
            ∙ ap (λ b. elim b [ true ↦ none | false ↦ some object_not_found ]) found,
        subst (λ x. hosts removed.0 ip x f ≡ false) same gone,
        remove_result-error u _ refl
            ∙ ap (λ b. elim b [ true ↦ none | false ↦ some object_not_found ]) lost,
      )
