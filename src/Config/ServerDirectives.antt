-- ===== src/Config/ServerDirectives.antt =====
-- The directives of `http_server_config`: src/http_server.cc.
use latypus.Common.{ℕ, none, some, List, [], ◌∷◌, ◌++◌, if◌then◌else◌, drop}
use latypus.Config.{
  Outcome, done, fatal, ◌>>=◌, Vhost, Config, ConfigRecord, Names, with_vhost, with_location,
}
use latypus.Config.Directives.{
  argument, in_block, at_top, add_names, listen_mode, http_server_text, location_text,
}

-- A directive of the top level, or of an `http_server` block.
abbrev pub top_or_vhost : (Config → List ℕ → Config) → (Vhost → List ℕ → Vhost) → ConfigRecord
top_or_vhost f g = record {
  minargs = 2;
  maxargs = 2;
  fn = λ c line.
      if at_top c
      then done (f c (argument line 1))
      else if in_block c http_server_text
      then with_vhost (λ v. g v (argument line 1)) c
      else fatal;
}

unfoldable pub listen : Names → Config → List (List ℕ) → Outcome Config
listen names c line =
    if in_block c http_server_text
    then elim (names.string_to_addr (argument line 1)) [
      | none ↦ fatal
      | some addr ↦ listen_mode line 3 >>= λ tls.
          with_vhost
            (λ v. record v { listens = v.listens ++ (record { addr = addr; tls = tls } ∷ []) }) c
    ]
    else fatal

unfoldable pub server_name : Config → List (List ℕ) → Outcome Config
unfolding add_names
server_name c line =
    if in_block c http_server_text
    then with_vhost (λ v. record v { server_names = add_names v.server_names (drop 1 line) }) c
    else fatal

unfoldable pub set_root : Config → List (List ℕ) → Outcome Config
set_root c line =
    if at_top c
    then done (record c { root = argument line 1 })
    else if in_block c location_text
    then with_location (λ l. record l { root = argument line 1 }) c
    else fatal

unfoldable pub index : Config → List (List ℕ) → Outcome Config
unfolding add_names
index c line =
    if at_top c
    then done (record c { index_files = add_names c.index_files (drop 1 line) })
    else if in_block c location_text
    then with_location (λ l. record l { index_files = add_names l.index_files (drop 1 line) }) c
    else fatal

unfoldable pub handler : Config → List (List ℕ) → Outcome Config
handler c line =
    if in_block c location_text
    then with_location (λ l. record l { handler = argument line 1 }) c
    else fatal

-- `config_fn_map` of `http_server_config`
unfoldable pub server_fn_map : Names → List (List ℕ × ConfigRecord)
server_fn_map names =
    (
      b'e' ∷ b'r' ∷ b'r' ∷ b'o' ∷ b'r' ∷ b'_' ∷ b'l' ∷ b'o' ∷ b'g' ∷ [],
      top_or_vhost (λ c value. record c { error_log = value })
          λ v value. record v { error_log = value },
    )
    ∷ (
      b'a' ∷ b'c' ∷ b'c' ∷ b'e' ∷ b's' ∷ b's' ∷ b'_' ∷ b'l' ∷ b'o' ∷ b'g' ∷ [],
      top_or_vhost (λ c value. record c { access_log = value })
          λ v value. record v { access_log = value },
    )
    ∷ (
      b't' ∷ b'l' ∷ b's' ∷ b'_' ∷ b'k' ∷ b'e' ∷ b'y' ∷ b'_' ∷ b'f' ∷ b'i' ∷ b'l' ∷ b'e' ∷ [],
      top_or_vhost (λ c value. record c { tls_key_file = value })
          λ v value. record v { tls_key_file = value },
    )
    ∷ (
      b't' ∷ b'l' ∷ b's' ∷ b'_' ∷ b'c' ∷ b'e' ∷ b'r' ∷ b't' ∷ b'_' ∷ b'f' ∷ b'i' ∷ b'l' ∷ b'e' ∷ [],
      top_or_vhost (λ c value. record c { tls_cert_file = value })
          λ v value. record v { tls_cert_file = value },
    )
    ∷ (
      b't' ∷ b'l' ∷ b's' ∷ b'_' ∷ b'c' ∷ b'i' ∷ b'p' ∷ b'h' ∷ b'e' ∷ b'r' ∷ b'_' ∷ b'l' ∷ b'i'
          ∷ b's' ∷ b't' ∷ [],
      top_or_vhost (λ c value. record c { tls_cipher_list = value })
          λ v value. record v { tls_cipher_list = value },
    )
    ∷ (
      b'l' ∷ b'i' ∷ b's' ∷ b't' ∷ b'e' ∷ b'n' ∷ [],
      record { minargs = 2; maxargs = 3; fn = listen names },
    )
    ∷ (
      b's' ∷ b'e' ∷ b'r' ∷ b'v' ∷ b'e' ∷ b'r' ∷ b'_' ∷ b'n' ∷ b'a' ∷ b'm' ∷ b'e' ∷ [],
      record { minargs = 2; maxargs = 0; fn = server_name },
    )
    ∷ (b'r' ∷ b'o' ∷ b'o' ∷ b't' ∷ [], record { minargs = 2; maxargs = 2; fn = set_root })
    ∷ (b'i' ∷ b'n' ∷ b'd' ∷ b'e' ∷ b'x' ∷ [], record { minargs = 2; maxargs = 0; fn = index })
    ∷ (
      b'h' ∷ b'a' ∷ b'n' ∷ b'd' ∷ b'l' ∷ b'e' ∷ b'r' ∷ [],
      record { minargs = 2; maxargs = 2; fn = handler },
    )
    ∷ []
