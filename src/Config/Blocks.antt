-- ===== src/Config/Blocks.antt =====
-- src/config.cc: the callbacks of the parser, and the blocks of src/http_server.cc.
use latypus.Common.{
  ℕ, Bool, ◌&&◌, ◌||◌, not, Option, none, some, List, [], ◌∷◌, ◌++◌, ◌==◌, ltb, if◌then◌else◌,
  length, get_elem?,
}
use latypus.Common.Maps.{find}
use latypus.HttpMessage.{same_string}
use latypus.Config.{
  Outcome, done, fatal, fault, ◌>>=◌, Location, Vhost, Config, ConfigRecord, BlockRecord, Names,
  modify,
}
use latypus.Config.Directives.{
  argument, at_top, http_server_text, location_text, block_name, config_fn_map,
}
use latypus.Config.ServerDirectives.{server_fn_map}

abbrev pub new_vhost : Vhost
new_vhost = record {
  listens = [];
  server_names = [];
  access_log = [];
  error_log = [];
  tls_key_file = [];
  tls_cert_file = [];
  tls_cipher_list = [];
  location_list = [];
}

abbrev pub new_location : List ℕ → Location
new_location uri = record {
  uri = uri;
  root = [];
  handler = [];
  index_files = [];
  handler_factory = none;
}

unfoldable pub start_server : Config → List (List ℕ) → Outcome Config
start_server c line = done (record c {
  current_vhost = some (length c.vhost_list);
  vhost_list = c.vhost_list ++ (new_vhost ∷ []);
})

abbrev pub locations_at : List Vhost → ℕ → List Location
locations_at vhosts i = elim (get_elem? vhosts i) [ none ↦ [] | some v ↦ v.location_list ]

unfoldable pub start_location : Config → List (List ℕ) → Outcome Config
start_location c line = elim c.current_vhost [
  | none ↦ fault
  | some i ↦ done (record c {
    current_location = some (i, length (locations_at c.vhost_list i));
    vhost_list =
        modify
          (λ v. record v {
            location_list = v.location_list ++ (new_location (argument line 1) ∷ []);
          })
          c.vhost_list i;
  })
]

unfoldable pub end_server : Config → List (List ℕ) → Outcome Config
end_server c line = elim c.current_vhost [
  | none ↦ fault
  | some i ↦
      if length (locations_at c.vhost_list i) == 0
      then fatal
      else done (record c { current_vhost = none })
]

-- A location has neither a root nor a handler.
abbrev pub is_bare : Location → Bool
is_bare l = (length l.root == 0) && (length l.handler == 0)

unfoldable pub end_location : Config → List (List ℕ) → Outcome Config
end_location c line = elim c.current_location [
  | none ↦ fault
  | some (i, j) ↦ elim (get_elem? (locations_at c.vhost_list i) j) [
    | none ↦ fault
    | some l ↦ if is_bare l then fatal else done (record c { current_location = none })
  ]
]

abbrev pub server_start : BlockRecord
server_start = record { minargs = 1; maxargs = 1; parent_block = none; fn = start_server }

abbrev pub location_start : BlockRecord
location_start = record {
  minargs = 2;
  maxargs = 2;
  parent_block = some http_server_text;
  fn = start_location;
}

abbrev pub server_end : BlockRecord
server_end = record { minargs = 0; maxargs = 0; parent_block = none; fn = end_server }

abbrev pub location_end : BlockRecord
location_end = record { minargs = 0; maxargs = 0; parent_block = none; fn = end_location }

unfoldable pub block_start_fn_map : List (List ℕ × BlockRecord)
block_start_fn_map = (http_server_text, server_start) ∷ (location_text, location_start) ∷ []

unfoldable pub block_end_fn_map : List (List ℕ × BlockRecord)
block_end_fn_map = (http_server_text, server_end) ∷ (location_text, location_end) ∷ []

-- The record of the server's protocol comes first. The client's protocol has none.
unfoldable pub lookup_config_fn : Names → List ℕ → Option ConfigRecord
unfolding find
lookup_config_fn names key = elim (find same_string (server_fn_map names) key) [
  | some rec ↦ some rec
  | none ↦ find same_string (config_fn_map names) key
]

-- The number of symbols is not what the record asks for.
unfoldable pub wrong_arguments : ℕ → ℕ → ℕ → Bool
wrong_arguments minargs maxargs size =
    ((minargs == maxargs) && not (size == minargs))
    || (ltb 0 minargs && ltb size minargs)
    || (ltb 0 maxargs && ltb maxargs size)

-- Whether the last block is the one that the record asks for. The message that says that it is not
-- reads the last block, also if there is none.
abbrev pub inside : Config → List ℕ → List (List (List ℕ)) → Outcome Config
inside c parent [] = fault
inside c parent (inner ∷ outer) = if same_string (block_name inner) parent then done c else fatal

unfoldable pub check_parent : Config → Option (List ℕ) → Outcome Config
check_parent c none = if at_top c then done c else fatal
check_parent c (some parent) = inside c parent c.block

-- The other checks, and the record's function.
unfoldable pub enter_block : Config → BlockRecord → Outcome Config
unfolding wrong_arguments
enter_block c rec =
    if wrong_arguments rec.minargs rec.maxargs (length c.line)
    then fatal
    else rec.fn (record c { block = c.line ∷ c.block; line = [] }) c.line

unfoldable pub symbol : Config → List ℕ → Config
symbol c value = record c { line = c.line ++ (value ∷ []) }

abbrev pub start_record : Config → Option BlockRecord → Outcome Config
start_record c none = fatal
start_record c (some rec) = check_parent c rec.parent_block >>= λ c0. enter_block c rec

abbrev pub start_line : Config → List (List ℕ) → Outcome Config
start_line c [] = fault
start_line c (name ∷ arguments) = start_record c (find same_string block_start_fn_map name)

unfoldable pub start_block : Config → Outcome Config
start_block c = start_line c c.line

abbrev pub tail {ℓ} : {A : Type ℓ} → List A → List A
tail [] = []
tail (x ∷ xs) = xs

abbrev pub pop_block : Config → Config
pop_block c = record c { block = tail c.block }

unfoldable pub end_block : Config → Outcome Config
unfolding find
end_block c = elim c.block [
  | [] ↦ fault
  | inner ∷ outer ↦ elim (find same_string block_end_fn_map (block_name inner)) [
    | none ↦ done (pop_block c)
    | some rec ↦ rec.fn c inner >>= λ c1. done (pop_block c1)
  ]
]

unfoldable pub end_statement : Names → Config → Outcome Config
end_statement names c = elim c.line [
  | [] ↦ done c
  | name ∷ arguments ↦ elim (lookup_config_fn names name) [
    | none ↦ fatal
    | some rec ↦
        if wrong_arguments rec.minargs rec.maxargs (length c.line)
        then fatal
        else rec.fn c c.line >>= λ c1. done (record c1 { line = [] })
  ]
]

-- The callbacks, as the parser calls them.
pub data Call : Type 0 where
  symbols : List ℕ → Call
  starts_block ends_block ends_statement : Call

unfoldable pub step : Names → Config → Call → Outcome Config
unfolding symbol start_block end_block end_statement
step names c (symbols value) = done (symbol c value)
step names c starts_block = start_block c
step names c ends_block = end_block c
step names c ends_statement = end_statement names c

unfoldable pub parse : Names → Config → List Call → Outcome Config
unfolding step
parse names c [] = done c
parse names c (call ∷ calls) = step names c call >>= λ c1. parse names c1 calls
