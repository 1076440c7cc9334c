-- ===== src/Config/Safe.antt =====
-- A directive does what is undefined, wherever it stands, only where it reads a number that an `int`
-- does not hold, and each leaves the blocks nested.
use latypus.Common.{
  ℕ, ◌-◌, ◌≡◌, refl, ◌∙◌, Bool, true, false, not, Option, none, some, List, [], ◌∷◌, ◌++◌, ◌==◌,
  if◌then◌else◌, if_elim, option_elim, length, All, inl, inr, subst, Bool-cases,
}
use latypus.Common.Maps.{find, find-All}
use latypus.HttpMessage.{same_string}
use latypus.HttpMessage.Names.{same_string-eq}
use latypus.Config.{
  Outcome, done, fatal, fault, ◌>>=◌, Location, Vhost, Config, ConfigRecord, Names, with_location,
}
use latypus.Config.Directives.{
  argument, http_server_text, location_text, tls_text, in_block, at_top, listen_mode,
  proto_listener, config_fn_map, contains, number_argument, two_arguments,
}
use latypus.Config.Numbers.{number, size_of_int}
use latypus.Config.Misread.{number_names, thread_names, Read, Reads}
use latypus.Config.ServerDirectives.{
  server_fn_map, top_or_vhost, listen, server_name, set_root, index, handler,
}
use latypus.Config.Blocks.{lookup_config_fn}
use latypus.Config.Nesting.{IsNested, Sound, with_vhost-Sound, with_location-Sound}

abbrev pub IsSafe : ConfigRecord → Type 0
IsSafe rec = (c : Config) (line : List (List ℕ)) → IsNested c → Sound (rec.fn c line)

infixr 20 ◌◃◌
pub ◌◃◌ {ℓ κ} : {A : Type ℓ} {B : Type κ} → A → B → A × B
a ◃ b = (a, b)

-- After the mode of a listener.
mode-Sound :
    (line : List (List ℕ)) (n : ℕ) (f : Bool → Outcome Config)
    → ((tls : Bool) → Sound (f tls))
    → Sound (listen_mode line n >>= f)
mode-Sound line n f h =
    if_elim (λ o. Sound (o >>= f)) (length line == n)
      (λ _.
        if_elim (λ o. Sound (o >>= f)) (same_string (argument line (n - 1)) tls_text) (λ _. h true)
          λ _. tt)
      λ _. h false

top_or_vhost-IsSafe :
    (f : Config → List ℕ → Config) (g : Vhost → List ℕ → Vhost)
    → ((c : Config) (value : List ℕ) → IsNested c → IsNested (f c value))
    → IsSafe (top_or_vhost f g)
top_or_vhost-IsSafe f g h c line n =
    if_elim Sound (at_top c) (λ _. h c (argument line 1) n)
      λ _.
        if_elim Sound (in_block c http_server_text)
          (λ e. with_vhost-Sound c (λ v. g v (argument line 1)) n e) λ _. tt

module _ (c : Config) (line : List (List ℕ)) (n : IsNested c) where
  proto_listener-Sound : (names : Names) → Sound (proto_listener names c line)
  unfolding proto_listener
  proto_listener-Sound names =
      if_elim Sound (not (names.is_protocol (argument line 1))) (λ _. tt)
        λ _.
          option_elim Sound (names.string_to_addr (argument line 2)) _ _ tt
            λ addr. mode-Sound line 4 _ λ tls. n

  listen-Sound : (names : Names) → Sound (listen names c line)
  unfolding listen
  listen-Sound names =
      if_elim Sound (in_block c http_server_text)
        (λ e.
          option_elim Sound (names.string_to_addr (argument line 1)) _ _ tt
            λ addr. mode-Sound line 3 _ λ tls. with_vhost-Sound c _ n e)
        λ _. tt

  server_name-Sound : Sound (server_name c line)
  unfolding server_name
  server_name-Sound =
      if_elim Sound (in_block c http_server_text) (λ e. with_vhost-Sound c _ n e) λ _. tt

  -- What the top level and a location's block take.
  top_or_location :
      (top : Config) (f : Location → Location)
      → IsNested top
      → Sound (
          if at_top c
          then done top
          else if in_block c location_text
          then with_location f c
          else fatal)
  top_or_location top f h =
      if_elim Sound (at_top c) (λ _. h)
        λ _. if_elim Sound (in_block c location_text) (λ e. with_location-Sound c f n e) λ _. tt

  set_root-Sound : Sound (set_root c line)
  unfolding set_root
  set_root-Sound = top_or_location _ _ n

  index-Sound : Sound (index c line)
  unfolding index
  index-Sound = top_or_location _ _ n

  handler-Sound : Sound (handler c line)
  unfolding handler
  handler-Sound =
      if_elim Sound (in_block c location_text) (λ e. with_location-Sound c _ n e) λ _. tt

-- The directives that read a number.
module _ (name : List ℕ) where
  number_argument-Reads :
      (f : Config → ℕ → Config)
      → contains number_names name ≡ true
      → ((c : Config) (value : ℕ) → IsNested c → IsNested (f c value))
      → Reads name (number_argument f)
  unfolding Reads
  number_argument-Reads f e h c line n = by_number (number (argument line 1)) refl
    where
      by_number :
          (o : Outcome ℕ)
          → number (argument line 1) ≡ o
          → Read name (number_argument f) line (o >>= λ value. done (f c value))
      by_number (done value) p = h c value n
      by_number fatal p = tt
      by_number fault p = inl (e, refl, refl, p)

  two_arguments-Reads :
      (f : Config → List ℕ × ℕ → Config)
      → contains thread_names name ≡ true
      → ((c : Config) (entry : List ℕ × ℕ) → IsNested c → IsNested (f c entry))
      → Reads name (two_arguments f)
  unfolding Reads
  two_arguments-Reads f e h c line n = by_number (number (argument line 2)) refl
    where
      by_number :
          (o : Outcome ℕ)
          → number (argument line 2) ≡ o
          → Read name
              (two_arguments f)
              line
              (o >>= λ value. done (f c (argument line 1, size_of_int value)))
      by_number (done value) p = h c (argument line 1, size_of_int value) n
      by_number fatal p = tt
      by_number fault p = inr (e, refl, refl, p)

  IsSafe-Reads : (rec : ConfigRecord) → IsSafe rec → Reads name rec
  unfolding Reads
  IsSafe-Reads rec h c line n = of_Sound (rec.fn c line) (h c line n)
    where
      of_Sound : (o : Outcome Config) → Sound o → Read name rec line o
      of_Sound (done c1) m = m
      of_Sound fatal m = tt
      of_Sound fault m = absurd m

config_fn_map-Reads :
    (names : Names) → All (λ (e : List ℕ × ConfigRecord). Reads e.0 e.1) (config_fn_map names)
unfolding config_fn_map number_names thread_names same_string
config_fn_map-Reads names =
    IsSafe-Reads _ _ (λ c line n. n)
    ◃ IsSafe-Reads _ _ (λ c line n. n)
    ◃ IsSafe-Reads _ _ (λ c line n. n)
    ◃ IsSafe-Reads _ _ (λ c line n. n)
    ◃ IsSafe-Reads _ _ (λ c line n. n)
    ◃ IsSafe-Reads _ _ (λ c line n. n)
    ◃ IsSafe-Reads _ _ (λ c line n. n)
    ◃ number_argument-Reads _ _ refl (λ c value n. n)
    ◃ number_argument-Reads _ _ refl (λ c value n. n)
    ◃ number_argument-Reads _ _ refl (λ c value n. n)
    ◃ number_argument-Reads _ _ refl (λ c value n. n)
    ◃ number_argument-Reads _ _ refl (λ c value n. n)
    ◃ number_argument-Reads _ _ refl (λ c value n. n)
    ◃ number_argument-Reads _ _ refl (λ c value n. n)
    ◃ number_argument-Reads _ _ refl (λ c value n. n)
    ◃ number_argument-Reads _ _ refl (λ c value n. n)
    ◃ number_argument-Reads _ _ refl (λ c value n. n)
    ◃ number_argument-Reads _ _ refl (λ c value n. n)
    ◃ number_argument-Reads _ _ refl (λ c value n. n)
    ◃ two_arguments-Reads _
        (λ c entry. record c { client_threads = c.client_threads ++ (entry ∷ []) }) refl
        (λ c entry n. n)
    ◃ two_arguments-Reads _
        (λ c entry. record c { server_threads = c.server_threads ++ (entry ∷ []) }) refl
        (λ c entry n. n)
    ◃ two_arguments-Reads _
        (λ c entry. record c { proto_threads = c.proto_threads ++ (entry ∷ []) }) refl
        (λ c entry n. n)
    ◃ IsSafe-Reads _ _ (λ c line n. proto_listener-Sound c line n names)
    ◃ IsSafe-Reads _ _ (λ c line n. n)
    ◃ tt

server_fn_map-IsSafe :
    (names : Names) → All (λ (e : List ℕ × ConfigRecord). IsSafe e.1) (server_fn_map names)
unfolding server_fn_map
server_fn_map-IsSafe names =
    (top_or_vhost-IsSafe (λ c value. record c { error_log = value })
      (λ v value. record v { error_log = value }) λ c value n. n)
    ◃ (top_or_vhost-IsSafe (λ c value. record c { access_log = value })
        (λ v value. record v { access_log = value }) λ c value n. n)
    ◃ (top_or_vhost-IsSafe (λ c value. record c { tls_key_file = value })
        (λ v value. record v { tls_key_file = value }) λ c value n. n)
    ◃ (top_or_vhost-IsSafe (λ c value. record c { tls_cert_file = value })
        (λ v value. record v { tls_cert_file = value }) λ c value n. n)
    ◃ (top_or_vhost-IsSafe (λ c value. record c { tls_cipher_list = value })
        (λ v value. record v { tls_cipher_list = value }) λ c value n. n)
    ◃ (λ c line n. listen-Sound c line n names)
    ◃ (λ c line n. server_name-Sound c line n)
    ◃ (λ c line n. set_root-Sound c line n)
    ◃ (λ c line n. index-Sound c line n)
    ◃ (λ c line n. handler-Sound c line n)
    ◃ tt

-- What holds of every entry holds of the one that is found for a name.
found_at :
    (P : List ℕ → ConfigRecord → Type 0) (table : List (List ℕ × ConfigRecord)) (key : List ℕ)
    (rec : ConfigRecord)
    → All (λ (e : List ℕ × ConfigRecord). P e.0 e.1) table
    → find same_string table key ≡ some rec
    → P key rec
unfolding find
found_at P [] key rec h e = cc
found_at P ((k, r) ∷ table) key rec (p, h) e = elim (Bool-cases (same_string k key)) [
  | inl f ↦
      let first : some r ≡ some rec = rw f at e in
      let same_record : r ≡ rec = cc in
      subst (P key) same_record (subst (λ name. P name r) (same_string-eq k key f) p)
  | inr f ↦ found_at P table key rec h (rw f at e)
]

-- And so of a record that is looked up.
pub lookup_config_fn-Reads :
    (names : Names) (key : List ℕ) (rec : ConfigRecord)
    → lookup_config_fn names key ≡ some rec
    → Reads key rec
unfolding lookup_config_fn
lookup_config_fn-Reads names key rec h =
    by_server (find same_string (server_fn_map names) key) refl h
  where
    by_server :
        (o : Option ConfigRecord)
        → find same_string (server_fn_map names) key ≡ o
        → (elim o [ some rec' ↦ some rec' | none ↦ find same_string (config_fn_map names) key ])
          ≡ some rec
        → Reads key rec
    by_server none e f = found_at Reads (config_fn_map names) key rec (config_fn_map-Reads names) f
    by_server (some rec') e f = IsSafe-Reads key rec (
        find-All IsSafe same_string (server_fn_map names) key rec (server_fn_map-IsSafe names)
          (e ∙ f))
