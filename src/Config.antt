-- ===== src/Config.antt =====
-- src/config.cc, src/config.h and the configuration of src/http_server.cc and src/http_server.h: what the
-- callbacks of the parser (src/config_parser.rl) do with symbols, blocks and statements. `socket_addr`
-- and the names of the protocols are arguments.
pub mod Numbers
pub mod Directives
pub mod ServerDirectives
pub mod Blocks
pub mod Nesting
pub mod Misread
pub mod Safe
pub mod Fits
pub mod Overflow
pub mod Starts
pub mod Ends
pub mod Calls
pub mod Vhosts
pub mod Paths
pub mod Hosts
pub mod Named
pub mod Translate
pub mod Mime
mod Tests
use latypus.Common.{
  ℕ, zero, suc, Bool, true, false, Option, none, some, List, [], ◌∷◌, ◌++◌, length,
}

-- `fatal` is `log_fatal_exit`, `fault` what C++ leaves undefined.
pub data Outcome {ℓ} (A : Type ℓ) : Type ℓ where
  done : A → Outcome A
  fatal fault : Outcome A

infixl 20 ◌>>=◌
abbrev pub ◌>>=◌ {ℓ κ} : {A : Type ℓ} {B : Type κ} → Outcome A → (A → Outcome B) → Outcome B
done a >>= f = f a
fatal >>= f = fatal
fault >>= f = fault

-- A listener's address, and whether its mode is TLS.
pub record Listen : Type 0 where
  pub addr : ℕ
  pub tls : Bool

-- A location's handler factory is named, or null.
pub record Location : Type 0 where
  pub uri : List ℕ
  pub root : List ℕ
  pub handler : List ℕ
  pub index_files : List (List ℕ)
  pub handler_factory : Option (List ℕ)

pub record Vhost : Type 0 where
  pub listens : List Listen
  pub server_names : List (List ℕ)
  pub access_log : List ℕ
  pub error_log : List ℕ
  pub tls_key_file : List ℕ
  pub tls_cert_file : List ℕ
  pub tls_cipher_list : List ℕ
  pub location_list : List Location

-- `config`, with the `http_server_config` of its map. The block that was entered last stands first.
-- `current_vhost` points to a virtual host of the list, and `current_location` to a location of one:
-- they are indices. A protocol is named. An `int` is its 32 bits (Config.Numbers).
pub record Config : Type 0 where
  pub block : List (List (List ℕ))
  pub line : List (List ℕ)
  pub client_connections : ℕ
  pub server_connections : ℕ
  pub listen_backlog : ℕ
  pub max_headers : ℕ
  pub header_buffer_size : ℕ
  pub io_buffer_size : ℕ
  pub ipc_buffer_size : ℕ
  pub log_buffers : ℕ
  pub keepalive_timeout : ℕ
  pub connection_timeout : ℕ
  pub tls_ca_file : List ℕ
  pub tls_key_file : List ℕ
  pub tls_cert_file : List ℕ
  pub tls_cipher_list : List ℕ
  pub tls_session_timeout : ℕ
  pub tls_session_count : ℕ
  pub os_user : List ℕ
  pub os_group : List ℕ
  pub error_log : List ℕ
  pub access_log : List ℕ
  pub pid_file : List ℕ
  pub root : List ℕ
  pub client_threads : List (List ℕ × ℕ)
  pub server_threads : List (List ℕ × ℕ)
  pub proto_threads : List (List ℕ × ℕ)
  pub proto_listeners : List (List ℕ × Listen)
  pub mime_types : List (List ℕ × List ℕ)
  pub index_files : List (List ℕ)
  pub current_vhost : Option ℕ
  pub current_location : Option (ℕ × ℕ)
  pub vhost_list : List Vhost

-- The constructor.
unfoldable pub config : Config
config = record {
  block = [];
  line = [];
  client_connections = 128;
  server_connections = 1024;
  listen_backlog = 128;
  max_headers = 128;
  header_buffer_size = 8192;
  io_buffer_size = 8192;
  ipc_buffer_size = 1048576;
  log_buffers = 1024;
  keepalive_timeout = 5;
  connection_timeout = 60;
  tls_ca_file = [];
  tls_key_file = [];
  tls_cert_file = [];
  tls_cipher_list = [];
  tls_session_timeout = 7200;
  tls_session_count = 32768;
  os_user = [];
  os_group = [];
  error_log = [];
  access_log = [];
  pid_file = [];
  root = [];
  client_threads = [];
  server_threads = [];
  proto_threads = [];
  proto_listeners = [];
  mime_types = [];
  index_files = [];
  current_vhost = none;
  current_location = none;
  vhost_list = [];
}

-- `config_record`. A `maxargs` of -1 is 0 here: the code asks whether it is above 0.
pub record ConfigRecord : Type 0 where
  pub minargs : ℕ
  pub maxargs : ℕ
  pub fn : Config → List (List ℕ) → Outcome Config

-- `block_record`; a null `parent_block` is `none`.
pub record BlockRecord : Type 0 where
  pub minargs : ℕ
  pub maxargs : ℕ
  pub parent_block : Option (List ℕ)
  pub fn : Config → List (List ℕ) → Outcome Config

-- What other code answers: the protocols by name, and addresses, where a negative result is `none`.
pub record Names : Type 0 where
  pub is_protocol : List ℕ → Bool
  pub string_to_addr : List ℕ → Option ℕ

abbrev pub modify {ℓ} : {A : Type ℓ} → (A → A) → List A → ℕ → List A
modify f [] i = []
modify f (x ∷ xs) zero = f x ∷ xs
modify f (x ∷ xs) (suc i) = x ∷ modify f xs i

-- A write through `current_vhost`.
unfoldable pub with_vhost : (Vhost → Vhost) → Config → Outcome Config
with_vhost f c = elim c.current_vhost [
  | none ↦ fault
  | some i ↦ done (record c { vhost_list = modify f c.vhost_list i })
]

-- A write through `current_location`.
unfoldable pub with_location : (Location → Location) → Config → Outcome Config
with_location f c = elim c.current_location [
  | none ↦ fault
  | some (i, j) ↦ done (record c {
    vhost_list =
        modify (λ v. record v { location_list = modify f v.location_list j }) c.vhost_list i;
  })
]
