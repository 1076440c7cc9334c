-- ===== src/Config/Paths.antt =====
-- src/http_server.cc: how a request is given to a location of a virtual host that is ready.
use latypus.Common.{
  ℕ, ◌+◌, ◌&&◌, not, Option, none, some, List, [], ◌∷◌, ◌++◌, ◌==◌, ltb, if◌then◌else◌, length,
  get_elem?, get_or, drop,
}
use latypus.Common.Maps.{find}
use latypus.HttpMessage.{same_string}
use latypus.Trie
use latypus.Trie.{Entry, empty}
use latypus.Config.{Outcome, done, fatal, fault, ◌>>=◌, Location, Vhost}
use latypus.Config.Blocks.{locations_at}
use latypus.Config.Vhosts.{VhostMap, default_text}

-- `location_trie`: the locations in their order, from number `j` on.
unfoldable pub location_trie : Trie.Trie ℕ → List Location → ℕ → Trie.Trie ℕ
location_trie t [] j = t
location_trie t (l ∷ locations) j = location_trie (Trie.insert t l.uri (some j)) locations (j + 1)

unfoldable pub lookup_vhost : VhostMap → List ℕ → Outcome ℕ
lookup_vhost m server_name = elim (find same_string m server_name) [
  | some i ↦ done i
  | none ↦ elim (find same_string m default_text) [ some i ↦ done i | none ↦ fatal ]
]

-- The host of a `Host` field, without its port.
abbrev before_colon : List ℕ → List ℕ
before_colon [] = []
before_colon (c ∷ cs) = if c == b':' then [] else c ∷ before_colon cs

unfoldable pub server_name_of : Option (List ℕ) → List ℕ
server_name_of none = default_text
server_name_of (some host_header) = before_colon host_header

pub record Translated : Type 0 where
  pub vhost : ℕ
  pub location : ℕ
  pub factory : List ℕ
  pub path_translated : List ℕ

abbrev last_or : List ℕ → ℕ → ℕ
last_or [] d = d
last_or (c ∷ cs) d = last_or cs c

-- Between the root and what is left of the path.
unfoldable pub separator : List ℕ → List ℕ → List ℕ
separator root partial_path =
    if ltb 0 (length root) && not (last_or root 0 == b'/') && not (get_or partial_path 0 0 == b'/')
    then b'/' ∷ []
    else []

-- For the nearest entry: without a location, or without a factory, a null pointer is followed.
unfoldable pub translate_in : ℕ → List Location → Entry ℕ → List ℕ → Outcome Translated
unfolding separator
translate_in i locations nearest request_path = elim nearest.second [
  | none ↦ fault
  | some j ↦ elim (get_elem? locations j) [
    | none ↦ fault
    | some l ↦ elim l.handler_factory [
      | none ↦ fault
      | some factory ↦
          let partial_path = drop (length nearest.first) request_path in
          done (record {
            vhost = i;
            location = j;
            factory = factory;
            path_translated = l.root ++ (separator l.root partial_path ++ partial_path);
          })
    ]
  ]
]

unfoldable pub translate_path :
    List Vhost → VhostMap → Option (List ℕ) → List ℕ → Outcome Translated
unfolding server_name_of lookup_vhost location_trie translate_in
translate_path vhosts m host_header request_path =
    lookup_vhost m (server_name_of host_header) >>= λ i.
    translate_in i (locations_at vhosts i)
      (Trie.find_nearest (location_trie empty (locations_at vhosts i) 0) request_path) request_path
