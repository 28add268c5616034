-- ===== src/Host/Invariant.antt =====
-- What every operation of the host service keeps: a file has a client, and each client once.
use renderer_service_upnp.Prelude.{
  String, Bool, true, false, List, [], ◌∷◌, ◌++◌, Option, none, some, ◌≡◌, refl, arith, ◌==◌,
  string_eq, eq_iff, if◌then◌else◌, Bool-cases, inl, inr,
}
use renderer_service_upnp.Error.{host_failed}
use renderer_service_upnp.Dict.{
  lookup, Distinct, AllValues, lookup-AllValues, insert-AllValues, insert-Distinct,
}
use renderer_service_upnp.Host.File.{
  Result, ok, err, Env, HostFile, member, without, add_client, is_empty,
}
use renderer_service_upnp.Host.Service.{
  HostServer, HostService, add_fresh, add_found, add_new_file, add_on, server_for, store,
  host_server_new, service_add,
}
use renderer_service_upnp.Host.View.{Once, member-append, member-without}

pub record IsHosted (hf : HostFile) : Type 0 where
  pub once : Once hf.clients
  pub wanted : is_empty hf.clients ≡ false

pub record IsServer (server : HostServer) : Type 0 where
  pub distinct : Distinct server.files
  pub hosted : AllValues IsHosted server.files

pub record IsService (hs : HostService) : Type 0 where
  pub distinct : Distinct hs
  pub servers : AllValues IsServer hs

append-Once : (c : String) (xs : List String) → member c xs ≡ false → Once xs → Once (xs ++ c ∷ [])
unfolding member
append-Once c [] h o = (refl, tt)
append-Once c (x ∷ xs) h o = (
  ground (arith, member-append x c xs, eq_iff c x, eq_iff x c),
  append-Once c xs (ground arith) o.1,
)

append-nonempty : (c : String) (xs : List String) → is_empty (xs ++ c ∷ []) ≡ false
unfolding is_empty
append-nonempty c [] = refl
append-nonempty c (x ∷ xs) = refl

pub without-Once : (c : String) (xs : List String) → Once xs → Once (without c xs)
unfolding without
without-Once c [] o = tt
without-Once c (x ∷ xs) o = elim (Bool-cases (x == c)) [
  | inl e ↦ rw e o.1
  | inr e ↦ rw e (ground (arith, member-without x c xs o.1), without-Once c xs o.1)
]

add_client-IsHosted : (c : String) (hf : HostFile) → IsHosted hf → IsHosted (add_client c hf)
unfolding add_client
add_client-IsHosted c hf h = elim (Bool-cases (member c hf.clients)) [
  | inl e ↦ rw e h
  | inr e ↦
      rw e
        (record { once = append-Once c hf.clients e h.once; wanted = append-nonempty c hf.clients })
]

module _ (env : Env) where
  add_fresh-IsServer :
      (server : HostServer) (c d f : String) (r : Result HostFile)
      → IsServer server
      → IsServer (add_fresh env server c d f r).0
  unfolding add_fresh is_empty member
  add_fresh-IsServer server c d f (err e) v = record { distinct = v.distinct; hosted = v.hosted }
  add_fresh-IsServer server c d f (ok hf) v = record {
    distinct = insert-Distinct f _ _ v.distinct;
    hosted = insert-AllValues IsHosted f _ _ (record { once = (refl, tt); wanted = refl }) v.hosted;
  }

  add_found-IsServer :
      (server : HostServer) (c d f : String) (o : Option HostFile)
      → lookup f server.files ≡ o
      → IsServer server
      → IsServer (add_found env server c d f o).0
  unfolding add_found
  add_found-IsServer server c d f none e v = add_fresh-IsServer server c d f _ v
  add_found-IsServer server c d f (some hf) e v =
      let hosted = add_client-IsHosted c hf (lookup-AllValues IsHosted f hf _ v.hosted e) in
      record {
        distinct = insert-Distinct f _ _ v.distinct;
        hosted = insert-AllValues IsHosted f _ _ hosted v.hosted;
      }

  add_on-IsService :
      (hs : HostService) (d c f : String) (server : HostServer)
      → IsService hs
      → IsServer server
      → IsService (add_on env hs d c f (ok server)).0
  unfolding add_on store add_new_file
  add_on-IsService hs d c f server v w = record {
    distinct = insert-Distinct d _ _ v.distinct;
    servers = insert-AllValues IsServer d _ _ (add_found-IsServer server c d f _ refl w) v.servers;
  }

  new_server-IsService :
      (hs : HostService) (d c f : String) (b : Bool)
      → IsService hs
      → IsService
          (add_on env hs d c f
            (if b then ok (record { files = []; counter = 0 }) else err host_failed)).0
  unfolding add_on
  new_server-IsService hs d c f true v =
      add_on-IsService hs d c f _ v (record { distinct = tt; hosted = tt })
  new_server-IsService hs d c f false v = v

  add_for-IsService :
      (hs : HostService) (d c f : String) (o : Option HostServer)
      → lookup d hs ≡ o
      → IsService hs
      → IsService (add_on env hs d c f (server_for env d o)).0
  unfolding server_for host_server_new
  add_for-IsService hs d c f none e v = new_server-IsService hs d c f (env.resolves d) v
  add_for-IsService hs d c f (some server) e v =
      add_on-IsService hs d c f server v (lookup-AllValues IsServer d server hs v.servers e)

  -- Of a well formed service, in which no interface and no file of a server stands twice, and each
  -- file has a client and no client twice: hosting a file keeps it so, whether it succeeds or
  -- fails.
  pub service_add-IsService :
      (hs : HostService) (d c f : String) → IsService hs → IsService (service_add env hs d c f).0
  unfolding service_add
  service_add-IsService hs d c f v = add_for-IsService hs d c f (lookup d hs) refl v
