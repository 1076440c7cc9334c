-- ===== src/Config/Tests.antt =====
-- A server with one location, and the server that is made where there is none.
use latypus.Common.{length, ◌<◌, ℕ, ◌≡◌, refl, true, false, none, some, List, [], ◌∷◌, arith, All}
use latypus.Common.Maps.{find, insert}
use latypus.HttpMessage.{same_string}
use latypus.Config.{done, fault, Location, Vhost, Config, Names, config, with_location}
use latypus.Url.{atoi}
use latypus.Config.Numbers.{number}
use latypus.Config.Directives.{http_server_text, location_text, in_block, config_fn_map}
use latypus.Config.ServerDirectives.{set_root, server_fn_map}
use latypus.Config.Blocks.{
  Call, symbols, starts_block, ends_statement, step, parse, symbol, start_block, end_statement,
  start_server, start_location, check_parent, enter_block, wrong_arguments, block_start_fn_map,
  lookup_config_fn, locations_at,
}
use latypus.Config.Nesting.{IsNested}
use latypus.Config.Calls.{parse-IsNested}
use latypus.Config.Vhosts.{
  System, VhostMap, default_text, engine_init, ensure_default, make_default_vhost, default_vhost,
  init_vhosts, init_vhost, init_location, map_names, all_listeners,
}
use latypus.Config.Paths.{lookup_vhost, server_name_of, translate_path}
use latypus.Config.Hosts.{engine_init-lookup}
use latypus.Config.Translate.{HasFactory, Served, translate_path-Served}

abbrev no_names : Names
no_names = record { is_protocol = λ _. false; string_to_addr = λ _. none }

abbrev root_text : List ℕ
root_text = b'r' ∷ b'o' ∷ b'o' ∷ b't' ∷ []

-- `http_server { location / { root html;`
abbrev in_location : List Call
in_location =
    symbols http_server_text
    ∷ starts_block
    ∷ symbols location_text
    ∷ symbols (b'/' ∷ [])
    ∷ starts_block
    ∷ symbols root_text
    ∷ symbols (b'h' ∷ [])
    ∷ ends_statement
    ∷ []

abbrev half_parsed : (c : Config) × (parse no_names config in_location ≡ done c)
unfolding parse config step symbol start_block end_statement check_parent enter_block
    wrong_arguments block_start_fn_map start_server start_location lookup_config_fn server_fn_map
    set_root with_location in_block find same_string
half_parsed = (_, refl)

parse-IsNested_example : IsNested half_parsed.0
parse-IsNested_example = parse-IsNested no_names in_location half_parsed.0 half_parsed.1

-- `max_headers 2147483648`, before the statement ends.
abbrev large_number : Config
unfolding config
large_number = record config {
  line =
      (b'm' ∷ b'a' ∷ b'x' ∷ b'_' ∷ b'h' ∷ b'e' ∷ b'a' ∷ b'd' ∷ b'e' ∷ b'r' ∷ b's' ∷ [])
      ∷ (b'2' ∷ b'1' ∷ b'4' ∷ b'7' ∷ b'4' ∷ b'8' ∷ b'3' ∷ b'6' ∷ b'4' ∷ b'8' ∷ [])
      ∷ [];
}

large_number_faults : step no_names large_number ends_statement ≡ fault
unfolding step end_statement lookup_config_fn server_fn_map config_fn_map find same_string
    wrong_arguments number atoi large_number config
large_number_faults = refl

abbrev any_system : System
any_system = record { has_factory = λ _. true; can_open = λ _. true }

-- A configuration with a root and no virtual host.
abbrev with_root : Config
unfolding config
with_root = record config { root = b'h' ∷ [] }

abbrev ready : (r : Config × VhostMap) × (engine_init any_system with_root ≡ done r)
unfolding config engine_init ensure_default make_default_vhost default_vhost init_vhosts init_vhost
    init_location map_names insert find same_string all_listeners
ready = (_, refl)

abbrev other_text : List ℕ
other_text = b'x' ∷ []

engine_init-lookup_example :
    (i : ℕ) × (lookup_vhost ready.0.1 other_text ≡ done i) × (i < length ready.0.0.vhost_list)
engine_init-lookup_example =
    engine_init-lookup any_system with_root ready.0.0 ready.0.1 ready.1 other_text

abbrev vhosts : List Vhost
vhosts = ready.0.0.vhost_list

abbrev root_location : Location
root_location = record {
  uri = b'/' ∷ [];
  root = b'h' ∷ [];
  handler = b'f' ∷ b'i' ∷ b'l' ∷ b'e' ∷ [];
  index_files =
      (b'i' ∷ b'n' ∷ b'd' ∷ b'e' ∷ b'x' ∷ b'.' ∷ b'h' ∷ b't' ∷ b'm' ∷ b'l' ∷ [])
      ∷ (b'i' ∷ b'n' ∷ b'd' ∷ b'e' ∷ b'x' ∷ b'.' ∷ b'h' ∷ b't' ∷ b'm' ∷ [])
      ∷ [];
  handler_factory = some (
      b'h' ∷ b't' ∷ b't' ∷ b'p' ∷ b'_' ∷ b's' ∷ b'e' ∷ b'r' ∷ b'v' ∷ b'e' ∷ b'r' ∷ b'_' ∷ b'h'
      ∷ b'a' ∷ b'n' ∷ b'd' ∷ b'l' ∷ b'e' ∷ b'r' ∷ b'_' ∷ b'f' ∷ b'i' ∷ b'l' ∷ b'e' ∷ []);
}

no_host : lookup_vhost ready.0.1 (server_name_of none) ≡ done 0
unfolding lookup_vhost server_name_of find same_string ready
no_host = refl

ready_factories : All HasFactory (locations_at vhosts 0)
unfolding ready
ready_factories = ((_, refl), ((_, refl), tt))

-- `/x` with the root `h`.
translate_path-Served_example :
    Served
      (locations_at vhosts 0)
      (b'/' ∷ other_text)
      root_location
      (translate_path vhosts ready.0.1 none (b'/' ∷ other_text))
unfolding ready
translate_path-Served_example =
    translate_path-Served vhosts ready.0.1 none 0 0 root_location other_text no_host ready_factories
      refl (omega arith)

abbrev named_default : VhostMap
named_default = (default_text, 0) ∷ []

default_found : lookup_vhost named_default (server_name_of none) ≡ done 0
unfolding lookup_vhost server_name_of find same_string
default_found = refl

-- `-1` after a space, 2 ^ 31, and a number that ends where its digits do.
number_tests :
    (number (b' ' ∷ b'-' ∷ b'1' ∷ []) ≡ done 0xffffffff)
    × (number (b'2' ∷ b'1' ∷ b'4' ∷ b'7' ∷ b'4' ∷ b'8' ∷ b'3' ∷ b'6' ∷ b'4' ∷ b'8' ∷ []) ≡ fault)
    × (number (b'8' ∷ b'0' ∷ b'k' ∷ []) ≡ done 80)
unfolding number atoi
number_tests = (refl, refl, refl)
