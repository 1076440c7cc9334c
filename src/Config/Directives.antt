-- ===== src/Config/Directives.antt =====
-- The directives: src/config.cc and src/http_server.cc, one record for each name. A directive's function
-- is called with as many symbols as its record asks for, so none is missing.
use latypus.Common.{
  ℕ, ◌-◌, Bool, true, false, ◌||◌, not, none, some, List, [], ◌∷◌, ◌++◌, ◌==◌, if◌then◌else◌,
  length, get_or, drop,
}
use latypus.HttpMessage.{same_string}
use latypus.Config.Numbers.{number, size_of_int}
use latypus.Config.{Outcome, done, fatal, ◌>>=◌, Config, ConfigRecord, Names}

abbrev pub argument : List (List ℕ) → ℕ → List ℕ
argument line i = get_or line i []

abbrev pub http_server_text : List ℕ
http_server_text = b'h' ∷ b't' ∷ b't' ∷ b'p' ∷ b'_' ∷ b's' ∷ b'e' ∷ b'r' ∷ b'v' ∷ b'e' ∷ b'r' ∷ []

abbrev pub location_text : List ℕ
location_text = b'l' ∷ b'o' ∷ b'c' ∷ b'a' ∷ b't' ∷ b'i' ∷ b'o' ∷ b'n' ∷ []

abbrev pub tls_text : List ℕ
tls_text = b't' ∷ b'l' ∷ b's' ∷ []

-- The name of a block.
abbrev pub block_name : List (List ℕ) → List ℕ
block_name line = argument line 0

-- `cfg->block.size() > 0 && cfg->block.back()[0] == name`
unfoldable pub in_block : Config → List ℕ → Bool
in_block c name = elim c.block [ [] ↦ false | inner ∷ outer ↦ same_string (block_name inner) name ]

abbrev pub at_top : Config → Bool
at_top c = elim c.block [ [] ↦ true | _ ∷ _ ↦ false ]

abbrev pub contains : List (List ℕ) → List ℕ → Bool
contains [] name = false
contains (x ∷ xs) name = same_string x name || contains xs name

-- The loops that add the names that are not there yet.
unfoldable pub add_names : List (List ℕ) → List (List ℕ) → List (List ℕ)
add_names names [] = names
add_names names (x ∷ xs) = add_names (if contains names x then names else names ++ (x ∷ [])) xs

-- The loop of `mime_type`; a later entry replaces an earlier one.
unfoldable pub set_type : List (List ℕ × List ℕ) → List ℕ → List ℕ → List (List ℕ × List ℕ)
set_type [] extension type = (extension, type) ∷ []
set_type ((e, t) ∷ types) extension type =
    let rest = set_type types extension type in
    if same_string e extension then (e, type) ∷ types else (e, t) ∷ rest

unfoldable pub set_types : List (List ℕ × List ℕ) → List (List ℕ) → List ℕ → List (List ℕ × List ℕ)
unfolding set_type
set_types types [] type = types
set_types types (extension ∷ extensions) type =
    set_types (set_type types extension type) extensions type

abbrev pub one_argument : (Config → List ℕ → Config) → ConfigRecord
one_argument f = record { minargs = 2; maxargs = 2; fn = λ c line. done (f c (argument line 1)) }

abbrev pub number_argument : (Config → ℕ → Config) → ConfigRecord
number_argument f = record {
  minargs = 2;
  maxargs = 2;
  fn = λ c line. number (argument line 1) >>= λ n. done (f c n);
}

abbrev pub two_arguments : (Config → List ℕ × ℕ → Config) → ConfigRecord
two_arguments f = record {
  minargs = 3;
  maxargs = 3;
  fn = λ c line. number (argument line 2) >>= λ n. done (f c (argument line 1, size_of_int n));
}

-- The mode that a fourth, or third, symbol gives.
abbrev pub listen_mode : List (List ℕ) → ℕ → Outcome Bool
listen_mode line n =
    if length line == n
    then (if same_string (argument line (n - 1)) tls_text then done true else fatal)
    else done false

unfoldable pub proto_listener : Names → Config → List (List ℕ) → Outcome Config
proto_listener names c line =
    if not (names.is_protocol (argument line 1))
    then fatal
    else elim (names.string_to_addr (argument line 2)) [
      | none ↦ fatal
      | some addr ↦ listen_mode line 4 >>= λ tls. done (record c {
        proto_listeners =
            c.proto_listeners ++ ((argument line 1, record { addr = addr; tls = tls }) ∷ []);
      })
    ]

-- `config_fn_map` of `config`
unfoldable pub config_fn_map : Names → List (List ℕ × ConfigRecord)
unfolding set_types
config_fn_map names =
    (
      b'o' ∷ b's' ∷ b'_' ∷ b'u' ∷ b's' ∷ b'e' ∷ b'r' ∷ [],
      one_argument λ c value. record c { os_user = value },
    )
    ∷ (
      b'o' ∷ b's' ∷ b'_' ∷ b'g' ∷ b'r' ∷ b'o' ∷ b'u' ∷ b'p' ∷ [],
      one_argument λ c value. record c { os_group = value },
    )
    ∷ (
      b'p' ∷ b'i' ∷ b'd' ∷ b'_' ∷ b'f' ∷ b'i' ∷ b'l' ∷ b'e' ∷ [],
      one_argument λ c value. record c { pid_file = value },
    )
    ∷ (
      b't' ∷ b'l' ∷ b's' ∷ b'_' ∷ b'c' ∷ b'a' ∷ b'_' ∷ b'f' ∷ b'i' ∷ b'l' ∷ b'e' ∷ [],
      one_argument λ c value. record c { tls_ca_file = value },
    )
    ∷ (
      b't' ∷ b'l' ∷ b's' ∷ b'_' ∷ b'k' ∷ b'e' ∷ b'y' ∷ b'_' ∷ b'f' ∷ b'i' ∷ b'l' ∷ b'e' ∷ [],
      one_argument λ c value. record c { tls_key_file = value },
    )
    ∷ (
      b't' ∷ b'l' ∷ b's' ∷ b'_' ∷ b'c' ∷ b'e' ∷ b'r' ∷ b't' ∷ b'_' ∷ b'f' ∷ b'i' ∷ b'l' ∷ b'e' ∷ [],
      one_argument λ c value. record c { tls_cert_file = value },
    )
    ∷ (
      b't' ∷ b'l' ∷ b's' ∷ b'_' ∷ b'c' ∷ b'i' ∷ b'p' ∷ b'h' ∷ b'e' ∷ b'r' ∷ b'_' ∷ b'l' ∷ b'i'
          ∷ b's' ∷ b't' ∷ [],
      one_argument λ c value. record c { tls_cipher_list = value },
    )
    ∷ (
      b't' ∷ b'l' ∷ b's' ∷ b'_' ∷ b's' ∷ b'e' ∷ b's' ∷ b's' ∷ b'i' ∷ b'o' ∷ b'n' ∷ b'_' ∷ b't'
          ∷ b'i' ∷ b'm' ∷ b'e' ∷ b'o' ∷ b'u' ∷ b't' ∷ [],
      number_argument λ c value. record c { tls_session_timeout = value },
    )
    ∷ (
      b't' ∷ b'l' ∷ b's' ∷ b'_' ∷ b's' ∷ b'e' ∷ b's' ∷ b's' ∷ b'i' ∷ b'o' ∷ b'n' ∷ b'_' ∷ b'c'
          ∷ b'o' ∷ b'u' ∷ b'n' ∷ b't' ∷ [],
      number_argument λ c value. record c { tls_session_count = value },
    )
    ∷ (
      b'c' ∷ b'l' ∷ b'i' ∷ b'e' ∷ b'n' ∷ b't' ∷ b'_' ∷ b'c' ∷ b'o' ∷ b'n' ∷ b'n' ∷ b'e' ∷ b'c'
          ∷ b't' ∷ b'i' ∷ b'o' ∷ b'n' ∷ b's' ∷ [],
      number_argument λ c value. record c { client_connections = value },
    )
    ∷ (
      b's' ∷ b'e' ∷ b'r' ∷ b'v' ∷ b'e' ∷ b'r' ∷ b'_' ∷ b'c' ∷ b'o' ∷ b'n' ∷ b'n' ∷ b'e' ∷ b'c'
          ∷ b't' ∷ b'i' ∷ b'o' ∷ b'n' ∷ b's' ∷ [],
      number_argument λ c value. record c { server_connections = value },
    )
    ∷ (
      b'l' ∷ b'i' ∷ b's' ∷ b't' ∷ b'e' ∷ b'n' ∷ b'_' ∷ b'b' ∷ b'a' ∷ b'c' ∷ b'k' ∷ b'l' ∷ b'o'
          ∷ b'g' ∷ [],
      number_argument λ c value. record c { listen_backlog = value },
    )
    ∷ (
      b'm' ∷ b'a' ∷ b'x' ∷ b'_' ∷ b'h' ∷ b'e' ∷ b'a' ∷ b'd' ∷ b'e' ∷ b'r' ∷ b's' ∷ [],
      number_argument λ c value. record c { max_headers = value },
    )
    ∷ (
      b'h' ∷ b'e' ∷ b'a' ∷ b'd' ∷ b'e' ∷ b'r' ∷ b'_' ∷ b'b' ∷ b'u' ∷ b'f' ∷ b'f' ∷ b'e' ∷ b'r'
          ∷ b'_' ∷ b's' ∷ b'i' ∷ b'z' ∷ b'e' ∷ [],
      number_argument λ c value. record c { header_buffer_size = value },
    )
    ∷ (
      b'i' ∷ b'o' ∷ b'_' ∷ b'b' ∷ b'u' ∷ b'f' ∷ b'f' ∷ b'e' ∷ b'r' ∷ b'_' ∷ b's' ∷ b'i' ∷ b'z'
          ∷ b'e' ∷ [],
      number_argument λ c value. record c { io_buffer_size = value },
    )
    ∷ (
      b'i' ∷ b'p' ∷ b'c' ∷ b'_' ∷ b'b' ∷ b'u' ∷ b'f' ∷ b'f' ∷ b'e' ∷ b'r' ∷ b'_' ∷ b's' ∷ b'i'
          ∷ b'z' ∷ b'e' ∷ [],
      number_argument λ c value. record c { ipc_buffer_size = value },
    )
    ∷ (
      b'l' ∷ b'o' ∷ b'g' ∷ b'_' ∷ b'b' ∷ b'u' ∷ b'f' ∷ b'f' ∷ b'e' ∷ b'r' ∷ b's' ∷ [],
      number_argument λ c value. record c { log_buffers = value },
    )
    ∷ (
      b'k' ∷ b'e' ∷ b'e' ∷ b'p' ∷ b'a' ∷ b'l' ∷ b'i' ∷ b'v' ∷ b'e' ∷ b'_' ∷ b't' ∷ b'i' ∷ b'm'
          ∷ b'e' ∷ b'o' ∷ b'u' ∷ b't' ∷ [],
      number_argument λ c value. record c { keepalive_timeout = value },
    )
    ∷ (
      b'c' ∷ b'o' ∷ b'n' ∷ b'n' ∷ b'e' ∷ b'c' ∷ b't' ∷ b'i' ∷ b'o' ∷ b'n' ∷ b'_' ∷ b't' ∷ b'i'
          ∷ b'm' ∷ b'e' ∷ b'o' ∷ b'u' ∷ b't' ∷ [],
      number_argument λ c value. record c { connection_timeout = value },
    )
    ∷ (
      b'c' ∷ b'l' ∷ b'i' ∷ b'e' ∷ b'n' ∷ b't' ∷ b'_' ∷ b't' ∷ b'h' ∷ b'r' ∷ b'e' ∷ b'a' ∷ b'd'
          ∷ b's' ∷ [],
      two_arguments λ c entry. record c { client_threads = c.client_threads ++ (entry ∷ []) },
    )
    ∷ (
      b's' ∷ b'e' ∷ b'r' ∷ b'v' ∷ b'e' ∷ b'r' ∷ b'_' ∷ b't' ∷ b'h' ∷ b'r' ∷ b'e' ∷ b'a' ∷ b'd'
          ∷ b's' ∷ [],
      two_arguments λ c entry. record c { server_threads = c.server_threads ++ (entry ∷ []) },
    )
    ∷ (
      b'p' ∷ b'r' ∷ b'o' ∷ b't' ∷ b'o' ∷ b'_' ∷ b't' ∷ b'h' ∷ b'r' ∷ b'e' ∷ b'a' ∷ b'd' ∷ b's' ∷ [],
      two_arguments λ c entry. record c { proto_threads = c.proto_threads ++ (entry ∷ []) },
    )
    ∷ (
      b'p' ∷ b'r' ∷ b'o' ∷ b't' ∷ b'o' ∷ b'_' ∷ b'l' ∷ b'i' ∷ b's' ∷ b't' ∷ b'e' ∷ b'n' ∷ b'e'
          ∷ b'r' ∷ [],
      record { minargs = 3; maxargs = 4; fn = proto_listener names },
    )
    ∷ (
      b'm' ∷ b'i' ∷ b'm' ∷ b'e' ∷ b'_' ∷ b't' ∷ b'y' ∷ b'p' ∷ b'e' ∷ [],
      record {
        minargs = 3;
        maxargs = 0;
        fn = λ c line.
            done (record c { mime_types = set_types c.mime_types (drop 2 line) (argument line 1) });
      },
    )
    ∷ []
