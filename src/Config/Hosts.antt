-- ===== src/Config/Hosts.antt =====
-- Which virtual host and which location a request is given to.
use latypus.Common.{
  ℕ, suc, ◌+◌, ◌≤◌, ◌<◌, ◌≡◌, ◌⊎◌, arith, ap, ◌∙◌, All, inl, inr, refl, sym, subst, Bool, true,
  false, ◌&&◌, Option, none, some, List, [], ◌∷◌, ◌++◌, ltb, if◌then◌else◌, length, Bool-cases,
}
use latypus.Common.Maps.{find, insert, find-All}
use latypus.HttpMessage.{same_string}
use latypus.HttpMessage.Names.{same_string-eq, same_string_refl}
use latypus.Config.{Outcome, done, fatal, fault, ◌>>=◌, Vhost, Config}
use latypus.Config.Directives.{contains}
use latypus.Config.Vhosts.{
  System, default_text, default_vhost, make_default_vhost, found_default, ensure_default,
  init_vhost, VhostMap, map_names, init_vhosts, engine_init, logs_to,
}
use latypus.Config.Paths.{lookup_vhost}

-- The map has the name, for a virtual host below `n`.
abbrev Has : VhostMap → List ℕ → Type 0
Has m name = (i : ℕ) × (find same_string m name ≡ some i)

find-append :
    (m : VhostMap) (k name : List ℕ) (i j : ℕ)
    → find same_string m name ≡ some j
    → find same_string (m ++ ((k, i) ∷ [])) name ≡ some j
unfolding find
find-append [] k name i j h = cc
find-append ((x, y) ∷ m) k name i j h = elim (Bool-cases (same_string x name)) [
  | inl e ↦ rw e (rw e at h)
  | inr e ↦ rw e (find-append m k name i j (rw e at h))
]

find-append_new : (m : VhostMap) (name : List ℕ) (i : ℕ) → Has (m ++ ((name, i) ∷ [])) name
unfolding find
find-append_new [] name i = (i, rw (same_string_refl name) refl)
find-append_new ((x, y) ∷ m) name i = elim (Bool-cases (same_string x name)) [
  | inl e ↦ (y, rw e refl)
  | inr e ↦ rw e (find-append_new m name i)
]

insert-Has :
    (m : VhostMap) (k name : List ℕ) (i : ℕ) → Has m name → Has (insert same_string m k i) name
unfolding insert
insert-Has m k name i (j, h) = by_key (find same_string m k)
  where
    by_key : (o : Option ℕ) → Has (elim o [ none ↦ m ++ ((k, i) ∷ []) | some v ↦ m ]) name
    by_key none = (j, find-append m k name i j h)
    by_key (some v) = (j, h)

insert-Has_new : (m : VhostMap) (k : List ℕ) (i : ℕ) → Has (insert same_string m k i) k
unfolding insert
insert-Has_new m k i = by_key (find same_string m k) refl
  where
    by_key :
        (o : Option ℕ)
        → find same_string m k ≡ o
        → Has (elim o [ none ↦ m ++ ((k, i) ∷ []) | some v ↦ m ]) k
    by_key none e = find-append_new m k i
    by_key (some v) e = (v, e)

map_names-Has :
    (names : List (List ℕ)) (m : VhostMap) (i : ℕ) (name : List ℕ)
    → Has m name
    → Has (map_names m names i) name
unfolding map_names
map_names-Has [] m i name h = h
map_names-Has (k ∷ names) m i name h =
    map_names-Has names (insert same_string m k i) i name (insert-Has m k name i h)

map_names-contains :
    (names : List (List ℕ)) (m : VhostMap) (i : ℕ) (name : List ℕ)
    → contains names name ≡ true
    → Has (map_names m names i) name
unfolding map_names
map_names-contains [] m i name h = let clash : false ≡ true = h in cc
map_names-contains (k ∷ names) m i name h = elim (Bool-cases (same_string k name)) [
  | inl e ↦
      map_names-Has names (insert same_string m k i) i name
        (subst (Has (insert same_string m k i)) (same_string-eq k name e) (insert-Has_new m k i))
  | inr e ↦ map_names-contains names (insert same_string m k i) i name (rw e at h)
]

bind_done {ℓ κ} :
    {A : Type ℓ} {B : Type κ} (o : Outcome A) (f : A → Outcome B) (b : B)
    → (o >>= f) ≡ done b
    → (a : A) × (o ≡ done a) × (f a ≡ done b)
bind_done (done a) f b h = (a, refl, h)
bind_done fatal f b h = cc
bind_done fault f b h = cc

if_done {ℓ} :
    {A : Type ℓ} (b : Bool) (o : Outcome A) (a : A) → (if b then o else fatal) ≡ done a → o ≡ done a
if_done true o a h = h
if_done false o a h = cc

names-Has :
    (v : Vhost) (vhosts : List Vhost) (i : ℕ) (m : VhostMap)
    → Has m default_text ⊎ (found_default (v ∷ vhosts) ≡ true)
    → Has (map_names m v.server_names i) default_text ⊎ (found_default vhosts ≡ true)
names-Has v vhosts i m (inl h) = inl (map_names-Has v.server_names m i default_text h)
names-Has v vhosts i m (inr h) = elim (Bool-cases (contains v.server_names default_text)) [
  | inl e ↦ inl (map_names-contains v.server_names m i default_text e)
  | inr e ↦ inr (rw e at h)
]

contains_last :
    (names : List (List ℕ)) (name : List ℕ) → contains (names ++ (name ∷ [])) name ≡ true
contains_last [] name = rw (same_string_refl name) refl
contains_last (x ∷ names) name = elim (Bool-cases (same_string x name)) [
  | inl e ↦ rw e refl
  | inr e ↦ rw e (contains_last names name)
]

init_vhosts-Has :
    (s : System) (c : Config) (vhosts : List Vhost) (i : ℕ) (m : VhostMap)
    (r : List Vhost × VhostMap)
    → Has m default_text ⊎ (found_default vhosts ≡ true)
    → init_vhosts s c vhosts i m ≡ done r
    → Has r.1 default_text
unfolding init_vhosts
init_vhosts-Has s c [] i m r (inl h) e =
    let q : ◌≡◌ {A = Outcome (List Vhost × VhostMap)} (done ([], m)) (done r) = e in
    let same : ◌≡◌ {A = List Vhost × VhostMap} ([], m) r = cc in
    subst (λ x. Has x.1 default_text) same h
init_vhosts-Has s c [] i m r (inr h) e = let clash : false ≡ true = h in cc
init_vhosts-Has s c (v ∷ vhosts) i m r h e =
    let m1 = map_names m v.server_names i in
    let v1 = init_vhost s c v in
    let rest = init_vhosts s c vhosts (i + 1) m1 in
    let go = if_done (logs_to s v1.access_log && logs_to s v1.error_log) _ r e in
    let (r1, p, q) = bind_done rest _ r go in
    let tail_Has = init_vhosts-Has s c vhosts (i + 1) m1 r1 (names-Has v vhosts i m h) p in
    let same : ◌≡◌ {A = List Vhost × VhostMap} (v1 ∷ r1.0, r1.1) r = cc in
    subst (λ x. Has x.1 default_text) same tail_Has

-- What holds of a result, if there is one.
abbrev Result {ℓ κ} : {A : Type ℓ} → (A → Type κ) → Outcome A → Type κ
Result P (done a) = P a
Result P fatal = Unit
Result P fault = Unit

default-found : (c : Config) → found_default ([] ++ (default_vhost c ∷ [])) ≡ true
unfolding default_vhost same_string
default-found c = refl

ensure_default-found :
    (c c1 : Config) → ensure_default c ≡ done c1 → found_default c1.vhost_list ≡ true
unfolding ensure_default make_default_vhost
ensure_default-found c c1 e = by_list c.vhost_list refl e
  where
    by_list :
        (vhosts : List Vhost)
        → c.vhost_list ≡ vhosts
        → (elim vhosts [
          | [] ↦ if ltb 0 (length c.root) then done (make_default_vhost c) else fatal
          | v ∷ vhosts' ↦
              if found_default (v ∷ vhosts')
              then done c
              else done (record c {
                vhost_list =
                    record v { server_names = v.server_names ++ (default_text ∷ []) } ∷ vhosts';
              })
        ])
          ≡ done c1
        → found_default c1.vhost_list ≡ true
    by_list [] q h =
        let made = if_done (ltb 0 (length c.root)) _ c1 h in
        subst (Result λ c'. found_default c'.vhost_list ≡ true) made (
          subst (λ vs. found_default (vs ++ (default_vhost c ∷ [])) ≡ true) (sym q)
            (default-found c))
    by_list (v ∷ vhosts') q h = elim (Bool-cases (found_default (v ∷ vhosts'))) [
      | inl f ↦
          let same : done c ≡ done c1 = rw f at h in
          subst (Result λ c'. found_default c'.vhost_list ≡ true) same
            (subst (λ vs. found_default vs ≡ true) (sym q) f)
      | inr f ↦
          subst (Result λ c'. found_default c'.vhost_list ≡ true) (rw f at h)
            (rw (contains_last v.server_names default_text) refl)
    ]

-- Every index in the map is below `n`.
abbrev Below : ℕ → VhostMap → Type 0
Below n m = All (λ (e : List ℕ × ℕ). e.1 < n) m

append-Below :
    (n : ℕ) (m : VhostMap) (k : List ℕ) (i : ℕ) → i < n → Below n m → Below n (m ++ ((k, i) ∷ []))
append-Below n [] k i lt h = (lt, tt)
append-Below n (e ∷ m) k i lt (p, h) = (p, append-Below n m k i lt h)

map_names-Below :
    (n : ℕ) (names : List (List ℕ)) (m : VhostMap) (i : ℕ)
    → i < n
    → Below n m
    → Below n (map_names m names i)
unfolding map_names insert
map_names-Below n [] m i lt h = h
map_names-Below n (k ∷ names) m i lt h =
    map_names-Below n names (insert same_string m k i) i lt (by_key (find same_string m k))
  where
    by_key : (o : Option ℕ) → Below n (elim o [ none ↦ m ++ ((k, i) ∷ []) | some v ↦ m ])
    by_key none = append-Below n m k i lt h
    by_key (some v) = h

-- There are as many virtual hosts as before, and the map has indices of these.
abbrev Indexed : ℕ → ℕ → List Vhost × VhostMap → Type 0
Indexed n k r = Below n r.1 × (length r.0 ≡ k)

init_vhosts-Indexed :
    (s : System) (c : Config) (vhosts : List Vhost) (i n : ℕ) (m : VhostMap)
    (r : List Vhost × VhostMap)
    → i + length vhosts ≤ n
    → Below n m
    → init_vhosts s c vhosts i m ≡ done r
    → Indexed n (length vhosts) r
unfolding init_vhosts
init_vhosts-Indexed s c [] i n m r lt h e =
    let q : ◌≡◌ {A = Outcome (List Vhost × VhostMap)} (done ([], m)) (done r) = e in
    let same : ◌≡◌ {A = List Vhost × VhostMap} ([], m) r = cc in subst (Indexed n 0) same (h, refl)
init_vhosts-Indexed s c (v ∷ vhosts) i n m r lt h e =
    let m1 = map_names m v.server_names i in
    let v1 = init_vhost s c v in
    let rest = init_vhosts s c vhosts (i + 1) m1 in
    let go = if_done (logs_to s v1.access_log && logs_to s v1.error_log) _ r e in
    let (r1, p, q) = bind_done rest _ r go in
    let (below, count) =
      init_vhosts-Indexed s c vhosts (i + 1) n m1 r1 (omega arith)
        (map_names-Below n v.server_names m i (omega arith) h) p in
    let same : ◌≡◌ {A = List Vhost × VhostMap} (v1 ∷ r1.0, r1.1) r = cc in
    subst (Indexed n (suc (length vhosts))) same (below, ap suc count)

-- Once the engine is ready `lookup_vhost` answers for whatever name a request has, instead of ending
-- the process, and the answer is the index of one of the virtual hosts.
pub engine_init-lookup :
    (s : System) (c c1 : Config) (m : VhostMap)
    → engine_init s c ≡ done (c1, m)
    → (server_name : List ℕ)
    → (i : ℕ) × (lookup_vhost m server_name ≡ done i) × (i < length c1.vhost_list)
unfolding engine_init lookup_vhost
engine_init-lookup s c c1 m e server_name =
    let (c0, p, q) = bind_done (ensure_default c) _ (c1, m) e in
    let n = length c0.vhost_list in
    let (r, p1, q1) = bind_done (init_vhosts s c0 c0.vhost_list 0 []) _ (c1, m) q in
    let has = init_vhosts-Has s c0 c0.vhost_list 0 [] r (inr (ensure_default-found c c0 p)) p1 in
    let indexed = init_vhosts-Indexed s c0 c0.vhost_list 0 n [] r (omega arith) tt p1 in
    let same : r.1 ≡ m = subst (Result λ p'. r.1 ≡ p'.1) q1 refl in
    let hosts : r.0 ≡ c1.vhost_list = subst (Result λ p'. r.0 ≡ p'.0.vhost_list) q1 refl in
    let count : n ≡ length c1.vhost_list = sym indexed.1 ∙ ap length hosts in
    by_name n count (subst (Below n) same indexed.0) (find same_string m server_name) refl
      (subst (λ x. Has x default_text) same has)
  where
    by_name :
        (n : ℕ)
        → n ≡ length c1.vhost_list
        → Below n m
        → (o : Option ℕ) → find same_string m server_name ≡ o
        → Has m default_text
        → (i : ℕ) × ((elim o [
          | some j ↦ done j
          | none ↦ elim (find same_string m default_text) [ some j ↦ done j | none ↦ fatal ]
        ])
            ≡ done i)
          × (i < length c1.vhost_list)
    by_name n count below (some j) f h = (
      j,
      refl,
      subst (λ k. j < k) count (find-All (λ k. k < n) same_string m server_name j below f),
    )
    by_name n count below none f (i, h) = (
      i,
      rw h refl,
      subst (λ k. i < k) count (find-All (λ k. k < n) same_string m default_text i below h),
    )
