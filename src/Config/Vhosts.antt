-- ===== src/Config/Vhosts.antt =====
-- src/http_server.cc: the virtual hosts that `engine_init` makes ready. What the system and the handlers
-- answer is an argument.
use latypus.Common.{
  ℕ, ◌+◌, Bool, false, ◌&&◌, ◌||◌, not, none, some, List, [], ◌∷◌, ◌++◌, ◌==◌, ltb, if◌then◌else◌,
  length, map,
}
use latypus.Common.Maps.{insert}
use latypus.HttpMessage.{same_string}
use latypus.Config.{Outcome, done, fatal, ◌>>=◌, Listen, Location, Vhost, Config}
use latypus.Config.Directives.{contains, http_server_text}
use latypus.Config.Blocks.{new_vhost, new_location}

abbrev pub default_text : List ℕ
default_text = b'd' ∷ b'e' ∷ b'f' ∷ b'a' ∷ b'u' ∷ b'l' ∷ b't' ∷ []

abbrev pub file_text : List ℕ
file_text = b'f' ∷ b'i' ∷ b'l' ∷ b'e' ∷ []

abbrev stats_text : List ℕ
stats_text = b's' ∷ b't' ∷ b'a' ∷ b't' ∷ b's' ∷ []

abbrev handler_prefix : List ℕ
handler_prefix =
    b'h' ∷ b't' ∷ b't' ∷ b'p' ∷ b'_' ∷ b's' ∷ b'e' ∷ b'r' ∷ b'v' ∷ b'e' ∷ b'r' ∷ b'_' ∷ b'h' ∷ b'a'
    ∷ b'n' ∷ b'd' ∷ b'l' ∷ b'e' ∷ b'r' ∷ b'_' ∷ []

abbrev off_text : List ℕ
off_text = b'o' ∷ b'f' ∷ b'f' ∷ []

abbrev index_html : List ℕ
index_html = b'i' ∷ b'n' ∷ b'd' ∷ b'e' ∷ b'x' ∷ b'.' ∷ b'h' ∷ b't' ∷ b'm' ∷ b'l' ∷ []

abbrev index_htm : List ℕ
index_htm = b'i' ∷ b'n' ∷ b'd' ∷ b'e' ∷ b'x' ∷ b'.' ∷ b'h' ∷ b't' ∷ b'm' ∷ []

abbrev stats_uri : List ℕ
stats_uri = b'/' ∷ b's' ∷ b't' ∷ b'a' ∷ b't' ∷ b's' ∷ b'/' ∷ []

-- What `handler_factory_map` has, and the log files that can be opened.
pub record System : Type 0 where
  pub has_factory : List ℕ → Bool
  pub can_open : List ℕ → Bool

-- The virtual host that `make_default_vhost` appends.
unfoldable pub default_vhost : Config → Vhost
default_vhost c = record new_vhost {
  server_names = default_text ∷ [];
  location_list =
      record (new_location (b'/' ∷ [])) {
        root = c.root;
        handler = file_text;
        index_files = index_html ∷ index_htm ∷ [];
      }
      ∷ record (new_location stats_uri) { handler = stats_text }
      ∷ [];
}

unfoldable pub make_default_vhost : Config → Config
unfolding default_vhost
make_default_vhost c = record c { vhost_list = c.vhost_list ++ (default_vhost c ∷ []) }

-- `bind_function`, on a location with its own factory.
unfoldable pub bind_function : Config → List ℕ → List ℕ → Outcome Config
bind_function c path handler_name = elim c.vhost_list [
  | [] ↦ fatal
  | v ∷ vhosts ↦ done (record c {
    vhost_list =
        record v {
          location_list =
              v.location_list
              ++ (record (new_location path) {
                root = c.root;
                handler = handler_name;
                handler_factory = some handler_name;
              }
                  ∷ []);
        }
        ∷ vhosts;
  })
]

abbrev pub found_default : List Vhost → Bool
found_default [] = false
found_default (v ∷ vhosts) = contains v.server_names default_text || found_default vhosts

-- At least one virtual host, one of which is called `default`.
unfoldable pub ensure_default : Config → Outcome Config
unfolding make_default_vhost
ensure_default c = elim c.vhost_list [
  | [] ↦ if ltb 0 (length c.root) then done (make_default_vhost c) else fatal
  | v ∷ vhosts ↦
      if found_default (v ∷ vhosts)
      then done c
      else done (record c {
        vhost_list = record v { server_names = v.server_names ++ (default_text ∷ []) } ∷ vhosts;
      })
]

-- A factory that is not found is reported, and stays null.
unfoldable pub init_location : System → Location → Location
init_location s l = elim l.handler_factory [
  | some factory ↦ l
  | none ↦
      let handler = if length l.handler == 0 then file_text else l.handler in
      let name = handler_prefix ++ handler in
      record l {
        handler = handler;
        handler_factory = if s.has_factory name then some name else none;
      }
]

abbrev or_default : List ℕ → List ℕ → List ℕ
or_default text default = if length text == 0 then default else text

-- The defaults of the top level.
unfoldable pub init_vhost : System → Config → Vhost → Vhost
unfolding init_location
init_vhost s c v = record v {
  location_list = map (init_location s) v.location_list;
  tls_key_file = or_default v.tls_key_file c.tls_key_file;
  tls_cert_file = or_default v.tls_cert_file c.tls_cert_file;
  tls_cipher_list = or_default v.tls_cipher_list c.tls_cipher_list;
  access_log = or_default v.access_log c.access_log;
  error_log = or_default v.error_log c.error_log;
}

abbrev same_listener : List ℕ × Listen → List ℕ × Listen → Bool
same_listener a b =
    same_string a.0 b.0 && (a.1.addr == b.1.addr) && (if a.1.tls then b.1.tls else not b.1.tls)

abbrev listens_on : List (List ℕ × Listen) → List ℕ × Listen → Bool
listens_on [] l = false
listens_on (x ∷ xs) l = same_listener x l || listens_on xs l

-- The listeners that are not there yet.
unfoldable pub add_listeners : List (List ℕ × Listen) → List Listen → List (List ℕ × Listen)
add_listeners proto_listeners [] = proto_listeners
add_listeners proto_listeners (l ∷ ls) =
    let proto_listen : List ℕ × Listen = (http_server_text, l) in
    add_listeners
      (if listens_on proto_listeners proto_listen
        then proto_listeners
        else proto_listeners ++ (proto_listen ∷ []))
      ls

abbrev pub logs_to : System → List ℕ → Bool
logs_to s log = (length log == 0) || same_string log off_text || s.can_open log

-- `vhost_map`: the first virtual host that is given a name keeps it.
abbrev pub VhostMap : Type 0
VhostMap = List (List ℕ × ℕ)

unfoldable pub map_names : VhostMap → List (List ℕ) → ℕ → VhostMap
unfolding insert
map_names m [] i = m
map_names m (name ∷ names) i = map_names (insert same_string m name i) names i

-- The loop over the virtual hosts, from number `i` on.
unfoldable pub init_vhosts :
    System → Config → List Vhost → ℕ → VhostMap → Outcome (List Vhost × VhostMap)
unfolding init_vhost map_names
init_vhosts s c [] i m = done ([], m)
init_vhosts s c (v ∷ vhosts) i m =
    let v1 = init_vhost s c v in
    let rest = init_vhosts s c vhosts (i + 1) (map_names m v.server_names i) in
    if logs_to s v1.access_log && logs_to s v1.error_log
    then (rest >>= λ r. done (v1 ∷ r.0, r.1))
    else fatal

unfoldable pub all_listeners : List (List ℕ × Listen) → List Vhost → List (List ℕ × Listen)
unfolding add_listeners
all_listeners proto_listeners [] = proto_listeners
all_listeners proto_listeners (v ∷ vhosts) =
    all_listeners (add_listeners proto_listeners v.listens) vhosts

-- `engine_init`, up to the connection table.
unfoldable pub engine_init : System → Config → Outcome (Config × VhostMap)
unfolding ensure_default init_vhosts all_listeners
engine_init s c = ensure_default c >>= λ c1. init_vhosts s c1 c1.vhost_list 0 [] >>= λ r. done (
  record c1 { vhost_list = r.0; proto_listeners = all_listeners c1.proto_listeners c1.vhost_list },
  r.1,
)
