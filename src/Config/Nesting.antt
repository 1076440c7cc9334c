-- ===== src/Config/Nesting.antt =====
-- How the blocks of a configuration nest, and what their pointers point to.
use latypus.Common.{
  ℕ, zero, suc, ◌<◌, ◌≡◌, refl, sym, ap, subst, true, false, Option, some, List, [], ◌∷◌, arith,
  length,
}
use latypus.HttpMessage.{same_string}
use latypus.Config.{
  Outcome, done, fatal, fault, Location, Vhost, Config, modify, with_vhost, with_location,
}
use latypus.Config.Directives.{block_name, http_server_text, location_text, in_block}
use latypus.Config.Blocks.{locations_at}

pub length-modify {ℓ} :
    {A : Type ℓ} (f : A → A) (xs : List A) (i : ℕ) → length (modify f xs i) ≡ length xs
length-modify f [] i = refl
length-modify f (x ∷ xs) zero = refl
length-modify f (x ∷ xs) (suc i) = ap suc (length-modify f xs i)

-- The locations of the virtual host that is written to.
pub locations-modify :
    (f : Vhost → Vhost) (g : List Location → List Location) (vhosts : List Vhost) (i : ℕ)
    → ((v : Vhost) → (f v).location_list ≡ g v.location_list)
    → i < length vhosts
    → locations_at (modify f vhosts i) i ≡ g (locations_at vhosts i)
locations-modify f g [] i h lt = absurd (omega arith)
locations-modify f g (v ∷ vhosts) zero h lt = h v
locations-modify f g (v ∷ vhosts) (suc i) h lt = locations-modify f g vhosts i h (omega arith)

-- The pointer to the virtual host is set, and so is the one to the location.
abbrev pub HasVhost : Option ℕ → List Vhost → Type 0
HasVhost current vhosts = (i : ℕ) × (current ≡ some i) × (i < length vhosts)

abbrev pub HasLocation : Option (ℕ × ℕ) → List Vhost → Type 0
HasLocation current vhosts =
    (i : ℕ) × (j : ℕ) × (current ≡ some (i, j))
    × (i < length vhosts)
    × (j < length (locations_at vhosts i))

abbrev pub Nesting : List (List (List ℕ)) → Option ℕ → Option (ℕ × ℕ) → List Vhost → Type 0
Nesting [] vhost location vhosts = Unit
Nesting (b ∷ []) vhost location vhosts = (block_name b ≡ http_server_text) × HasVhost vhost vhosts
Nesting (b ∷ d ∷ []) vhost location vhosts =
    (block_name b ≡ location_text)
    × (block_name d ≡ http_server_text)
    × HasVhost vhost vhosts
    × HasLocation location vhosts
Nesting (b ∷ d ∷ _ ∷ _) vhost location vhosts = ⊥

-- No block is open, or a block of a server, or in it one of a location. A block's pointer is set.
abbrev pub IsNested : Config → Type 0
IsNested c = Nesting c.block c.current_vhost c.current_location c.vhost_list

-- The outcome is defined, and what is left is nested.
abbrev pub Sound : Outcome Config → Type 0
Sound (done c) = IsNested c
Sound fatal = Unit
Sound fault = ⊥

pub location_ne : same_string location_text http_server_text ≡ false
unfolding same_string
location_ne = refl

pub server_ne : same_string http_server_text location_text ≡ false
unfolding same_string
server_ne = refl

module _ (c : Config) where
  in_server :
      (block : List (List (List ℕ)))
      → c.block ≡ block
      → Nesting block c.current_vhost c.current_location c.vhost_list
      → in_block c http_server_text ≡ true
      → (b : List (List ℕ)) × (c.block ≡ b ∷ [])
        × (block_name b ≡ http_server_text)
        × HasVhost c.current_vhost c.vhost_list
  unfolding in_block
  in_server [] e n h = let clash : false ≡ true = rw e at h in cc
  in_server (b ∷ []) e (n, v) h = (b, e, n, v)
  in_server (b ∷ d ∷ []) e (n, m, v, l) h =
      let same : same_string (block_name b) http_server_text ≡ true = rw e at h in
      let clash : same_string location_text http_server_text ≡ true = rw n at same in
      let no = location_ne in cc
  in_server (b ∷ d ∷ _ ∷ _) e n h = absurd n

  -- A write to the virtual host, in its block.
  pub with_vhost-Sound :
      (f : Vhost → Vhost) → IsNested c → in_block c http_server_text ≡ true → Sound (with_vhost f c)
  unfolding with_vhost
  with_vhost-Sound f n h =
      let (b, e, name, (i, q, lt)) = in_server c.block refl n h in
      rw (q, with_vhost)
        (subst (λ x. Nesting x c.current_vhost c.current_location (modify f c.vhost_list i)) (sym e)
          (name, (i, q, omega (arith, length-modify f c.vhost_list i))))

  in_location :
      (block : List (List (List ℕ)))
      → c.block ≡ block
      → Nesting block c.current_vhost c.current_location c.vhost_list
      → in_block c location_text ≡ true
      → (b : List (List ℕ)) × (d : List (List ℕ)) × (c.block ≡ b ∷ d ∷ [])
        × Nesting (b ∷ d ∷ []) c.current_vhost c.current_location c.vhost_list
  unfolding in_block
  in_location [] e n h = let clash : false ≡ true = rw e at h in cc
  in_location (b ∷ []) e (n, v) h =
      let same : same_string (block_name b) location_text ≡ true = rw e at h in
      let clash : same_string http_server_text location_text ≡ true = rw n at same in
      let no = server_ne in cc
  in_location (b ∷ d ∷ []) e n h = (b, d, e, n)
  in_location (b ∷ d ∷ _ ∷ _) e n h = absurd n

  -- A write to the location, in its block.
  pub with_location-Sound :
      (f : Location → Location)
      → IsNested c
      → in_block c location_text ≡ true
      → Sound (with_location f c)
  unfolding with_location
  with_location-Sound f n h =
      let (b, d, e, (name, outer, (k, p, below), (i, j, q, lt, in_list))) =
        in_location c.block refl n h in
      let write : Vhost → Vhost = λ v. record v { location_list = modify f v.location_list j } in
      let same =
        locations-modify write (λ (ls : List Location). modify f ls j) c.vhost_list i (λ v. refl)
          lt in
      let size = length-modify write c.vhost_list i in
      let kept = length-modify f (locations_at c.vhost_list i) j in
      let still : j < length (locations_at (modify write c.vhost_list i) i) =
        rw same (omega arith) in
      rw (q, with_location)
        (subst (λ x. Nesting x c.current_vhost c.current_location (modify write c.vhost_list i))
          (sym e) (name, outer, (k, p, omega arith), (i, j, q, omega arith, still)))
