-- ===== src/Config/Ends.antt =====
-- The end of a block.
use latypus.Common.{
  ℕ, zero, suc, ◌≡◌, refl, sym, subst, ◌<◌, none, some, List, [], ◌∷◌, arith, ◌==◌, if_elim, length,
  get_elem?,
}
use latypus.Common.Maps.{find}
use latypus.HttpMessage.{same_string}
use latypus.Config.{done, fault, ◌>>=◌, Config}
use latypus.Config.Directives.{block_name, http_server_text, location_text}
use latypus.Config.Blocks.{
  end_server, end_location, locations_at, is_bare, tail, pop_block, server_end, location_end,
  block_end_fn_map, end_block, ends_block,
}
use latypus.Config.Nesting.{HasVhost, HasLocation, Nesting, IsNested, Sound}
use latypus.Config.Fits.{Fits, Sound-Fits}

pub server_end_found :
    (b : List (List ℕ))
    → block_name b ≡ http_server_text
    → find same_string block_end_fn_map (block_name b) ≡ some server_end
unfolding find block_end_fn_map same_string
server_end_found b e = rw e refl

pub location_end_found :
    (b : List (List ℕ))
    → block_name b ≡ location_text
    → find same_string block_end_fn_map (block_name b) ≡ some location_end
unfolding find block_end_fn_map same_string
location_end_found b e = rw e refl

pub end_server-Sound :
    (c : Config) (b line : List (List ℕ))
    → c.block ≡ b ∷ []
    → HasVhost c.current_vhost c.vhost_list
    → Sound (end_server c line >>= λ c1. done (pop_block c1))
unfolding end_server
end_server-Sound c b line e (i, q, lt) =
    rw (q, end_server)
      (if_elim (λ o. Sound (o >>= λ c1. done (pop_block c1)))
        (length (locations_at c.vhost_list i) == 0) (λ _. tt)
        λ _. subst (λ x. Nesting (tail x) none c.current_location c.vhost_list) (sym e) tt)

pub get_elem?_below {ℓ} :
    {A : Type ℓ} (xs : List A) (i : ℕ) → i < length xs → (x : A) × (get_elem? xs i ≡ some x)
get_elem?_below [] i h = absurd (omega arith)
get_elem?_below (x ∷ xs) zero h = (x, refl)
get_elem?_below (x ∷ xs) (suc i) h = get_elem?_below xs i (omega arith)

pub end_location-Sound :
    (c : Config) (b d line : List (List ℕ))
    → c.block ≡ b ∷ d ∷ []
    → block_name d ≡ http_server_text
    → HasVhost c.current_vhost c.vhost_list
    → HasLocation c.current_location c.vhost_list
    → Sound (end_location c line >>= λ c1. done (pop_block c1))
unfolding end_location
end_location-Sound c b d line e outer v (i, j, q, lt, below) =
    let (l, found) = get_elem?_below (locations_at c.vhost_list i) j below in
    rw (q, end_location)
      (rw found (
        if_elim (λ o. Sound (o >>= λ c1. done (pop_block c1))) (is_bare l) (λ _. tt)
          λ _. subst (λ x. Nesting (tail x) c.current_vhost none c.vhost_list) (sym e) (outer, v)))

pub end_block-Fits : (c : Config) → IsNested c → Fits c ends_block (end_block c)
unfolding end_block
end_block-Fits c n = by_block c.block refl n
  where
    by_block :
        (block : List (List (List ℕ)))
        → c.block ≡ block
        → Nesting block c.current_vhost c.current_location c.vhost_list
        → Fits c ends_block (elim block [
          | [] ↦ fault
          | inner ∷ outer ↦ elim (find same_string block_end_fn_map (block_name inner)) [
            | none ↦ done (pop_block c)
            | some rec ↦ rec.fn c inner >>= λ c1. done (pop_block c1)
          ]
        ])
    by_block [] e h = e
    by_block (b ∷ []) e (name, v) =
        rw (server_end_found b name) (Sound-Fits c ends_block _ (end_server-Sound c b b e v))
    by_block (b ∷ d ∷ []) e (name, outer, v, l) =
        rw (location_end_found b name)
          (Sound-Fits c ends_block _ (end_location-Sound c b d b e outer v l))
    by_block (b ∷ d ∷ _ ∷ _) e h = absurd h
