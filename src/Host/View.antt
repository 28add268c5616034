-- ===== src/Host/View.antt =====
-- The service as a client sees it: a set of triples, an interface, a client and a file.
use renderer_service_upnp.Prelude.{
  String, Bool, false, not, ◌&&◌, ◌||◌, List, [], ◌∷◌, ◌++◌, Option, none, some, ◌≡◌, arith, ◌==◌,
  string_eq, eq_iff,
}
use renderer_service_upnp.Dict.{lookup}
use renderer_service_upnp.Host.File.{HostFile, member, without, add_client}
use renderer_service_upnp.Host.Service.{HostServer, HostService}

abbrev pub is_host : String → Option HostFile → Bool
is_host c none = false
is_host c (some hf) = member c hf.clients

abbrev pub server_hosts : String → String → Option HostServer → Bool
server_hosts f c none = false
server_hosts f c (some server) = is_host c (lookup f server.files)

-- Whether client `c` has file `f` hosted on interface `d`.
abbrev pub hosts : HostService → String → String → String → Bool
hosts hs d c f = server_hosts f c (lookup d hs)

-- A file's clients stand once.
abbrev pub Once : List String → Type 0
Once [] = Unit
Once (x ∷ xs) = (member x xs ≡ false) × Once xs

pub member-append :
    (c x : String) (xs : List String) → member c (xs ++ x ∷ []) ≡ (member c xs || x == c)
unfolding member
member-append c x [] = ground arith
member-append c x (y ∷ ys) = ground (arith, member-append c x ys)

pub member-without :
    (c x : String) (xs : List String)
    → Once xs
    → member c (without x xs) ≡ (not (x == c) && member c xs)
unfolding member without
member-without c x [] o = ground arith
member-without c x (y ∷ ys) o =
    ground (arith, eq_iff x c, eq_iff y c, eq_iff y x, member-without c x ys o.1)

pub member-add_client :
    (c x : String) (hf : HostFile)
    → member c (add_client x hf).clients ≡ (x == c || member c hf.clients)
unfolding add_client
member-add_client c x hf = ground (arith, member-append c x hf.clients, eq_iff x c)
