-- ===== src/Config/Translate.antt =====
-- The path that a request is translated to.
use latypus.Common.{
  ℕ, zero, suc, ◌≤◌, ◌<◌, ◌≡◌, ◌≢◌, refl, sym, ap, subst, ◌∙◌, true, false, Option, none, some,
  List, [], ◌∷◌, ◌++◌, arith, length, length-append, get_elem?, take, drop, length-take,
  take-append-drop, take-append_length, All,
}
use latypus.Trie
use latypus.Trie.{Entry, empty, null_entry, is_set, insert, find_nearest}
use latypus.Trie.Nearest.{entry_at, longest, find_nearest-longest}
use latypus.Trie.Entries.{entry_at-empty, longest_at_least}
use latypus.Config.{Outcome, done, fatal, fault, ◌>>=◌, Location, Vhost}
use latypus.Config.Blocks.{locations_at}
use latypus.Config.Vhosts.{VhostMap}
use latypus.Config.Paths.{
  location_trie, lookup_vhost, server_name_of, Translated, separator, translate_in, translate_path,
}
use latypus.Config.Named.{NamedBy, Named, take-append-drop-length, trie-Named, trie-has}

abbrev pub HasFactory : Location → Type 0
HasFactory l = (factory : List ℕ) × (l.handler_factory ≡ some factory)

-- What a request is given to: a location with a longer uri than another, or the same, and the root of
-- that location with the rest of the path.
abbrev pub Served : List Location → List ℕ → Location → Outcome Translated → Type 0
Served locations path other fatal = ⊥
Served locations path other fault = ⊥
Served locations path other (done t) =
    (l : Location) × (rest : List ℕ) × (get_elem? locations t.location ≡ some l)
    × (path ≡ l.uri ++ rest)
    × (t.path_translated ≡ l.root ++ (separator l.root rest ++ rest))
    × (length other.uri ≤ length l.uri)

get_elem?-All :
    (P : Location → Type 0) (xs : List Location) (i : ℕ) (x : Location)
    → All P xs
    → get_elem? xs i ≡ some x
    → P x
get_elem?-All P [] i x h e = cc
get_elem?-All P (y ∷ xs) zero x (p, h) e =
    let found : some y ≡ some x = e in let same : y ≡ x = cc in subst P same p
get_elem?-All P (y ∷ xs) (suc i) x (p, h) e = get_elem?-All P xs i x h e

module _ (i : ℕ) (locations : List Location) (path : List ℕ) (other : Location)
    (factories : All HasFactory locations) where
  entry-Served :
      (e : Entry ℕ) (m : ℕ)
      → Named locations (take m path) e
      → is_set e.second ≡ true
      → length other.uri ≤ m
      → length other.uri ≤ length path
      → Served locations path other (translate_in i locations e path)
  unfolding translate_in
  entry-Served e m named set long inside = by_second e.second refl named set
    where
      by_location :
          (j : ℕ) (l : Location) (factory : List ℕ)
          → get_elem? locations j ≡ some l
          → e.first ≡ take m path
          → l.uri ≡ take m path
          → l.handler_factory ≡ some factory
          → e.second ≡ some j
          → Served locations path other (translate_in i locations e path)
      by_location j l factory at first uri made q =
          let left : length e.first ≡ length (take m path) = ap length first in
          let size : length l.uri ≡ length (take m path) = ap length uri in
          rw (q, translate_in)
            (rw at (
              rw made (
                l,
                drop (length e.first) path,
                at,
                rw (uri, left) (sym (take-append-drop-length m path)),
                refl,
                omega (arith, size, length-take m path),
              )))

      by_second :
          (o : Option ℕ)
          → e.second ≡ o
          → NamedBy locations (take m path) e.first o
          → is_set o ≡ true
          → Served locations path other (translate_in i locations e path)
      by_second none q n s = cc
      by_second (some j) q (l, at, first, uri) s =
          let (factory, made) = get_elem?-All HasFactory locations j l factories at in
          by_location j l factory at first uri made q

-- A request whose path starts with a location's uri, which is not empty, is given to a location,
-- if each of the virtual host's locations has a factory. Its uri is a start of the path, and no other
-- such is longer, and the path becomes its root and the rest, with a slash between them where
-- `separator` has one.
pub translate_path-Served :
    (vhosts : List Vhost) (m : VhostMap) (host_header : Option (List ℕ)) (i j : ℕ)
    (other : Location) (rest : List ℕ)
    → lookup_vhost m (server_name_of host_header) ≡ done i
    → All HasFactory (locations_at vhosts i)
    → get_elem? (locations_at vhosts i) j ≡ some other
    → 0 < length other.uri
    → Served
        (locations_at vhosts i)
        (other.uri ++ rest)
        other
        (translate_path vhosts m host_header (other.uri ++ rest))
unfolding translate_path
translate_path-Served vhosts m host_header i j other rest at factories listed pos =
    let locations = locations_at vhosts i in
    let path = other.uri ++ rest in
    let trie = location_trie empty locations 0 in
    let size = length-append other.uri rest in
    let there : is_set (entry_at trie (take (length other.uri) path)).second ≡ true =
      rw (take-append_length other.uri rest)
        (trie-has locations empty locations 0 j other listed) in
    let (k, le, is_longest, set) =
      longest_at_least trie path (length path) (length other.uri) pos (omega arith) there in
    let nearest = find_nearest-longest trie path ∙ is_longest in
    let named =
      trie-Named locations empty locations 0 (λ n. ap (get_elem? locations) (omega arith))
        (λ q. rw (entry_at-empty {A = ℕ} q) tt) (take k path) in
    subst
      (λ o. Served locations path other (
        o >>= λ i'.
        translate_in i' (locations_at vhosts i')
          (find_nearest (location_trie empty (locations_at vhosts i') 0) path) path))
      (sym at)
      (subst (λ e. Served locations path other (translate_in i locations e path)) (sym nearest)
        (entry-Served i locations path other factories (entry_at trie (take k path)) k named set le
          (omega arith)))

-- The path does not start with the location's uri.
abbrev pub IsUnmatched : List ℕ → Location → Type 0
IsUnmatched path l = (rest : List ℕ) → path ≢ l.uri ++ rest

unmatched-null :
    (locations : List Location) (path : List ℕ) (k : ℕ) (e : Entry ℕ)
    → All (IsUnmatched path) locations
    → Named locations (take k path) e
    → is_set e.second ≡ false
unmatched-null locations path k e none_match named = by_second e.second named
  where
    by_second : (o : Option ℕ) → NamedBy locations (take k path) e.first o → is_set o ≡ false
    by_second none n = refl
    by_second (some j) (l, at, first, uri) =
        let differs = get_elem?-All (IsUnmatched path) locations j l none_match at in
        let whole : path ≡ l.uri ++ drop k path = rw uri (sym (take-append-drop k path)) in
        absurd (differs (drop k path) whole)

longest_null :
    (t : Trie.Trie ℕ) (key : List ℕ) (n : ℕ)
    → ((k : ℕ) → is_set (entry_at t (take k key)).second ≡ false)
    → longest t null_entry key n ≡ null_entry
longest_null t key zero h = refl
longest_null t key (suc n) h = rw (h (suc n)) (longest_null t key n h)

-- A request whose path starts with the uri of none of the virtual host's locations makes the server
-- follow a null pointer.
pub translate_path_unmatched :
    (vhosts : List Vhost) (m : VhostMap) (host_header : Option (List ℕ)) (i : ℕ) (path : List ℕ)
    → lookup_vhost m (server_name_of host_header) ≡ done i
    → All (IsUnmatched path) (locations_at vhosts i)
    → translate_path vhosts m host_header path ≡ fault
unfolding translate_path translate_in
translate_path_unmatched vhosts m host_header i path at none_match =
    let locations = locations_at vhosts i in
    let trie = location_trie empty locations 0 in
    let named =
      trie-Named locations empty locations 0 (λ n. ap (get_elem? locations) (omega arith))
        λ q. rw (entry_at-empty {A = ℕ} q) tt in
    let nearest =
      find_nearest-longest trie path
      ∙ longest_null trie path (length path) λ k.
        unmatched-null locations path k (entry_at trie (take k path)) none_match
          (named (take k path)) in
    ap
      (λ o. o >>= λ i'.
        translate_in i' (locations_at vhosts i')
          (find_nearest (location_trie empty (locations_at vhosts i') 0) path) path)
      at
    ∙ ap (λ e. translate_in i locations e path) nearest
