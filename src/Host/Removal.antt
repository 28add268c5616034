-- ===== src/Host/Removal.antt =====
-- Taking files back and losing clients keep what src/host-service.c relies on.
use renderer_service_upnp.Prelude.{
  String, false, ◌&&◌, List, [], ◌∷◌, Option, none, some, ◌≡◌, refl, arith, string_eq, Bool-cases,
  inl, inr,
}
use renderer_service_upnp.Dict.{
  lookup, Distinct, AllValues, lookup-AllValues, insert-AllValues, remove-AllValues,
  insert-Distinct, remove-Distinct,
}
use renderer_service_upnp.Host.File.{HostFile, member, remove_client, is_empty}
use renderer_service_upnp.Host.Service.{
  HostServer, HostService, remove_at, put_file, put_server, remove_on, service_remove, lose_files,
  lost_client,
}
use renderer_service_upnp.Host.View.{Once}
use renderer_service_upnp.Host.Invariant.{IsHosted, IsServer, IsService}
use renderer_service_upnp.Host.Invariant.{without-Once}

put_file-Distinct :
    (f : String) (hf : HostFile) (m : List (String × HostFile))
    → Distinct m
    → Distinct (put_file f hf m)
unfolding put_file
put_file-Distinct f hf m d = elim (Bool-cases (is_empty hf.clients)) [
  | inl e ↦ rw e (remove-Distinct f m d)
  | inr e ↦ rw e (insert-Distinct f hf m d)
]

put_file-IsHosted :
    (f : String) (hf : HostFile) (m : List (String × HostFile))
    → Once hf.clients
    → AllValues IsHosted m
    → AllValues IsHosted (put_file f hf m)
unfolding put_file
put_file-IsHosted f hf m o a = elim (Bool-cases (is_empty hf.clients)) [
  | inl e ↦ simp e (remove-AllValues IsHosted f m a)
  | inr e ↦ simp e (insert-AllValues IsHosted f hf m (record { once = o; wanted = e }) a)
]

put_server-IsService :
    (d : String) (server : HostServer) (hs : HostService)
    → IsServer server
    → IsService hs
    → IsService (put_server d server hs)
unfolding put_server
put_server-IsService d server hs w v = elim (Bool-cases (is_empty server.files)) [
  | inl e ↦ simp e (record {
    distinct = remove-Distinct d hs v.distinct;
    servers = remove-AllValues IsServer d hs v.servers;
  })
  | inr e ↦ simp e (record {
    distinct = insert-Distinct d server hs v.distinct;
    servers = insert-AllValues IsServer d server hs w v.servers;
  })
]

remove_on-IsService :
    (hs : HostService) (d c f : String) (server : HostServer) (o : Option HostFile)
    → lookup f server.files ≡ o
    → IsServer server
    → IsService hs
    → IsService (remove_on hs d c f server o).0
unfolding remove_on remove_client
remove_on-IsService hs d c f server none e w v = v
remove_on-IsService hs d c f server (some hf) e w v = elim (Bool-cases (member c hf.clients)) [
  | inl m ↦ simp m (
      put_server-IsService d _ hs
        (record {
          distinct = put_file-Distinct f _ _ w.distinct;
          hosted =
              put_file-IsHosted f _ _
                (without-Once c hf.clients (lookup-AllValues IsHosted f hf _ w.hosted e).once)
                w.hosted;
        })
        v)
  | inr m ↦ simp m v
]

remove_at-IsService :
    (hs : HostService) (d c f : String) (o : Option HostServer)
    → lookup d hs ≡ o
    → IsService hs
    → IsService (remove_at hs d c f o).0
unfolding remove_at
remove_at-IsService hs d c f none e v = v
remove_at-IsService hs d c f (some server) e v =
    remove_on-IsService hs d c f server _ refl (lookup-AllValues IsServer d server hs v.servers e) v

-- Of a well formed service: taking a file back keeps it so, and leaves no file without a client.
pub service_remove-IsService :
    (hs : HostService) (d c f : String) → IsService hs → IsService (service_remove hs d c f).0
unfolding service_remove
service_remove-IsService hs d c f v = remove_at-IsService hs d c f (lookup d hs) refl v

-- A file that is absent stays absent when a client is lost.
pub lose_files-absent :
    (c f : String) (m : List (String × HostFile))
    → lookup f m ≡ none
    → lookup f (lose_files c m) ≡ none
unfolding lookup lose_files
lose_files-absent c f [] e = refl
lose_files-absent c f ((i, hf) ∷ rest) e = ground (arith, lose_files-absent c f rest)

lose_files-Distinct :
    (c : String) (m : List (String × HostFile)) → Distinct m → Distinct (lose_files c m)
unfolding lose_files
lose_files-Distinct c [] d = tt
lose_files-Distinct c ((i, hf) ∷ rest) d =
    ground (arith, lose_files-Distinct c rest d.1, lose_files-absent c i rest d.0)

remove_client-Once :
    (c : String) (hf : HostFile) → Once hf.clients → Once (remove_client c hf).0.clients
unfolding remove_client
remove_client-Once c hf o = elim (Bool-cases (member c hf.clients)) [
  | inl e ↦ simp e (without-Once c hf.clients o)
  | inr e ↦ simp e o
]

-- A file that was not told to go has a client left.
remove_client_kept :
    (c : String) (hf : HostFile)
    → IsHosted hf
    → ((remove_client c hf).1 && is_empty (remove_client c hf).0.clients) ≡ false
    → IsHosted (remove_client c hf).0
remove_client_kept c hf h e = record {
  once = remove_client-Once c hf h.once;
  wanted = unfold remove_client in ground (arith, h.wanted);
}

lose_files-IsHosted :
    (c : String) (m : List (String × HostFile))
    → AllValues IsHosted m
    → AllValues IsHosted (lose_files c m)
unfolding lose_files
lose_files-IsHosted c [] a = tt
lose_files-IsHosted c ((i, hf) ∷ rest) a =
    elim (Bool-cases ((remove_client c hf).1 && is_empty (remove_client c hf).0.clients)) [
      | inl e ↦ simp e (lose_files-IsHosted c rest a.1)
      | inr e ↦ simp e (remove_client_kept c hf a.0 e, lose_files-IsHosted c rest a.1)
    ]

pub lost_client-absent :
    (c d : String) (hs : HostService) → lookup d hs ≡ none → lookup d (lost_client hs c) ≡ none
unfolding lookup lost_client
lost_client-absent c d [] e = refl
lost_client-absent c d ((i, server) ∷ rest) e = ground (arith, lost_client-absent c d rest)

lost_client-Distinct : (c : String) (hs : HostService) → Distinct hs → Distinct (lost_client hs c)
unfolding lost_client
lost_client-Distinct c [] d = tt
lost_client-Distinct c ((i, server) ∷ rest) d =
    ground (arith, lost_client-Distinct c rest d.1, lost_client-absent c i rest d.0)

lost_client-servers :
    (c : String) (hs : HostService) → AllValues IsServer hs → AllValues IsServer (lost_client hs c)
unfolding lost_client
lost_client-servers c [] a = tt
lost_client-servers c ((i, server) ∷ rest) a =
    elim (Bool-cases (is_empty (lose_files c server.files))) [
      | inl e ↦ simp e (lost_client-servers c rest a.1)
      | inr e ↦ simp e (
        record {
          distinct = lose_files-Distinct c server.files a.0.distinct;
          hosted = lose_files-IsHosted c server.files a.0.hosted;
        },
        lost_client-servers c rest a.1,
      )
    ]

-- Of a well formed service: losing a client keeps it so, and leaves no file without a client.
pub lost_client-IsService :
    (c : String) (hs : HostService) → IsService hs → IsService (lost_client hs c)
lost_client-IsService c hs v = record {
  distinct = lost_client-Distinct c hs v.distinct;
  servers = lost_client-servers c hs v.servers;
}
