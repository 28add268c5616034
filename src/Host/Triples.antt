-- ===== src/Host/Triples.antt =====
-- The operations of the host service are those of a set of triples.
use renderer_service_upnp.Prelude.{
  String, Bool, true, false, not, ◌&&◌, ◌||◌, List, [], ◌∷◌, Option, none, some, ◌≡◌, refl, arith,
  ◌==◌, string_eq, eq_iff, if◌then◌else◌, ap,
}
use renderer_service_upnp.Error.{host_failed}
use renderer_service_upnp.Dict.{
  lookup, Distinct, AllValues, lookup-insert, lookup-remove, lookup-AllValues,
}
use renderer_service_upnp.Host.File.{
  Result, ok, err, Env, HostFile, member, without, add_client, remove_client, is_empty,
}
use renderer_service_upnp.Host.Service.{
  HostServer, HostService, add_fresh, add_found, add_new_file, add_on, server_for, store,
  host_server_new, service_add, put_file, put_server, remove_on, remove_at, service_remove,
  lose_files, lost_client,
}
use renderer_service_upnp.Host.View.{
  is_host, server_hosts, hosts, member-without, member-add_client,
}
use renderer_service_upnp.Host.Invariant.{IsHosted, IsServer, IsService}
use renderer_service_upnp.Host.Removal.{lose_files-absent, lost_client-absent}

abbrev pub is_ok : Result String → Bool
is_ok (ok u) = true
is_ok (err e) = false

is_empty-member : (x : String) (xs : List String) → is_empty xs ≡ true → member x xs ≡ false
unfolding is_empty member
is_empty-member x [] e = refl
is_empty-member x (y ∷ ys) e = cc

is_empty-lookup :
    (f : String) (m : List (String × HostFile)) → is_empty m ≡ true → lookup f m ≡ none
unfolding is_empty lookup
is_empty-lookup f [] e = refl
is_empty-lookup f (x ∷ xs) e = cc

module _ (env : Env) (c f c' f' : String) where
  add_fresh-view :
      (server : HostServer) (d : String) (r : Result HostFile)
      → lookup f server.files ≡ none
      → let out = add_fresh env server c d f r in
        server_hosts f' c' (some out.0)
        ≡ (is_ok out.1 && (f == f' && c == c') || server_hosts f' c' (some server))
  unfolding add_fresh member
  add_fresh-view server d (err e) missing = refl
  add_fresh-view server d (ok hf) missing = ground (
    arith,
    lookup-insert f f' (record hf { clients = c ∷ [] }) server.files,
    eq_iff f f',
    eq_iff c c',
  )

  add_found-view :
      (server : HostServer) (d : String) (o : Option HostFile)
      → lookup f server.files ≡ o
      → let out = add_found env server c d f o in
        server_hosts f' c' (some out.0)
        ≡ (is_ok out.1 && (f == f' && c == c') || server_hosts f' c' (some server))
  unfolding add_found
  add_found-view server d none e = add_fresh-view server d _ e
  add_found-view server d (some hf) e = ground (
    arith,
    lookup-insert f f' (add_client c hf) server.files,
    eq_iff f f',
    member-add_client c' c hf,
  )

  module _ (d d' : String) (hs : HostService) where
    -- A server, with the entries that the table has for its interface.
    add_on-view :
        (server : HostServer)
        → ((b : String) → server_hosts f' b (lookup d hs) ≡ server_hosts f' b (some server))
        → let out = add_on env hs d c f (ok server) in
          hosts out.0 d' c' f'
          ≡ (is_ok out.1 && (d == d' && (f == f' && c == c')) || hosts hs d' c' f')
    unfolding add_on store add_new_file
    add_on-view server same = ground (
      arith,
      lookup-insert d d' (add_found env server c d f (lookup f server.files)).0 hs,
      eq_iff d d',
      same c',
      add_found-view server d (lookup f server.files) refl,
    )

    new_server-view :
        (b : Bool)
        → lookup d hs ≡ none
        → let made : Result HostServer =
            if b then ok (record { files = []; counter = 0 }) else err host_failed in
          let out = add_on env hs d c f made in
          hosts out.0 d' c' f'
          ≡ (is_ok out.1 && (d == d' && (f == f' && c == c')) || hosts hs d' c' f')
    unfolding lookup
    new_server-view true e =
        add_on-view (record { files = []; counter = 0 }) (λ x. ap (server_hosts f' x) e)
    new_server-view false e = unfold add_on in refl

    add_for-view :
        (o : Option HostServer)
        → lookup d hs ≡ o
        → let out = add_on env hs d c f (server_for env d o) in
          hosts out.0 d' c' f'
          ≡ (is_ok out.1 && (d == d' && (f == f' && c == c')) || hosts hs d' c' f')
    unfolding server_for host_server_new
    add_for-view none e = new_server-view (env.resolves d) e
    add_for-view (some server) e = add_on-view server (λ b. ap (server_hosts f' b) e)

    -- Hosting a file adds the triple of its interface, its client and itself where it succeeds, no
    -- triple where it fails, and changes no other triple.
    pub hosts-service_add :
        let out = service_add env hs d c f in
        hosts out.0 d' c' f'
        ≡ (is_ok out.1 && (d == d' && (f == f' && c == c')) || hosts hs d' c' f')
    unfolding service_add
    hosts-service_add = add_for-view (lookup d hs) refl

module _ (c f c' f' : String) where
  put_file-view :
      (hf : HostFile) (m : List (String × HostFile))
      → Distinct m
      → is_host c' (lookup f' (put_file f hf m))
        ≡ (if f == f' then member c' hf.clients else is_host c' (lookup f' m))
  unfolding put_file
  put_file-view hf m d =
      ground (arith, lookup-remove f f' m d, lookup-insert f f' hf m, is_empty-member c' hf.clients)

  module _ (d d' : String) (hs : HostService) (v : IsService hs) where
    put_server-view :
        (server : HostServer)
        → hosts (put_server d server hs) d' c' f'
          ≡ (if d == d' then server_hosts f' c' (some server) else hosts hs d' c' f')
    unfolding put_server
    put_server-view server = ground (
      arith,
      lookup-remove d d' hs v.distinct,
      lookup-insert d d' server hs,
      is_empty-lookup f' server.files,
    )

    remove_on-view :
        (server : HostServer) (o : Option HostFile)
        → lookup d hs ≡ some server
        → lookup f server.files ≡ o
        → IsServer server
        → let out = remove_on hs d c f server o in
          (hosts out.0 d' c' f' ≡ (not (d == d' && (f == f' && c == c')) && hosts hs d' c' f'))
          × (out.1 ≡ is_host c o)
    unfolding remove_on remove_client
    remove_on-view server none e e' w = (ground (arith, eq_iff d d', eq_iff f f'), refl)
    remove_on-view server (some hf) e e' w =
        let hf' = record hf { clients = without c hf.clients } in
        let server' = record server { files = put_file f hf' server.files } in
        let o = lookup-AllValues IsHosted f hf server.files w.hosted e' in
        (
          ground (
            arith,
            eq_iff d d',
            eq_iff f f',
            eq_iff c c',
            put_server-view server',
            put_file-view hf' server.files w.distinct,
            member-without c' c hf.clients o.once,
          ),
          ground arith,
        )

    remove_at-view :
        (o : Option HostServer)
        → lookup d hs ≡ o
        → let out = remove_at hs d c f o in
          (hosts out.0 d' c' f' ≡ (not (d == d' && (f == f' && c == c')) && hosts hs d' c' f'))
          × (out.1 ≡ server_hosts f c o)
    unfolding remove_at
    remove_at-view none e = (ground (arith, eq_iff d d'), refl)
    remove_at-view (some server) e =
        remove_on-view server (lookup f server.files) e refl
          (lookup-AllValues IsServer d server hs v.servers e)

    -- Of a well formed service: taking a file back removes its triple and no other, and says
    -- whether the triple was there.
    pub hosts-service_remove :
        let out = service_remove hs d c f in
        (hosts out.0 d' c' f' ≡ (not (d == d' && (f == f' && c == c')) && hosts hs d' c' f'))
        × (out.1 ≡ hosts hs d c f)
    unfolding service_remove
    hosts-service_remove = remove_at-view (lookup d hs) refl

module _ (c c' f' : String) where
  lose_files-view :
      (m : List (String × HostFile))
      → Distinct m
      → AllValues IsHosted m
      → is_host c' (lookup f' (lose_files c m)) ≡ (not (c == c') && is_host c' (lookup f' m))
  unfolding lookup lose_files remove_client
  lose_files-view [] d a = ground arith
  lose_files-view ((i, hf) ∷ rest) d a = ground (
    arith,
    eq_iff c c',
    eq_iff i f',
    lose_files-view rest d.1 a.1,
    lose_files-absent c f' rest,
    member-without c' c hf.clients a.0.once,
    is_empty-member c' (without c hf.clients),
  )

  -- Of a well formed service: losing a client removes its triples, and no others.
  pub hosts-lost_client :
      (d' : String) (hs : HostService)
      → IsService hs
      → hosts (lost_client hs c) d' c' f' ≡ (not (c == c') && hosts hs d' c' f')
  unfolding lookup lost_client
  hosts-lost_client d' [] v = ground arith
  hosts-lost_client d' ((i, server) ∷ rest) v = ground (
    arith,
    eq_iff i d',
    hosts-lost_client d' rest (record { distinct = v.distinct.1; servers = v.servers.1 }),
    lose_files-view server.files v.servers.0.distinct v.servers.0.hosted,
    lost_client-absent c d' rest,
    is_empty-lookup f' (lose_files c server.files),
  )
