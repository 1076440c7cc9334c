-- ===== src/Config/Starts.antt =====
-- The start of a block.
use latypus.Common.{
  ℕ, ◌≡◌, ◌⊎◌, inl, inr, refl, sym, ap, subst, ◌∙◌, ◌<◌, true, false, Option, none, some, List, [],
  ◌∷◌, ◌++◌, arith, if_elim, length, length-append,
}
use latypus.Common.Maps.{find}
use latypus.HttpMessage.{same_string}
use latypus.HttpMessage.Names.{same_string-eq}
use latypus.Config.{Outcome, ◌>>=◌, Location, Vhost, Config, BlockRecord, modify}
use latypus.Config.Directives.{argument, at_top, block_name, http_server_text, location_text}
use latypus.Config.Blocks.{
  start_server, start_location, locations_at, new_vhost, new_location, server_start, location_start,
  block_start_fn_map, wrong_arguments, inside, check_parent, start_record, start_line, enter_block,
  start_block, starts_block,
}
use latypus.Config.Nesting.{
  HasVhost, Nesting, IsNested, Sound, length-modify, locations-modify, location_ne,
}
use latypus.Config.Fits.{Fits, Sound-Fits}

-- What is looked up as the start of a block.
abbrev pub Started : List ℕ → Option BlockRecord → Type 0
Started name none = Unit
Started name (some rec) =
    ((name ≡ http_server_text) × (rec ≡ server_start))
    ⊎ ((name ≡ location_text) × (rec ≡ location_start))

pub block_start-Started : (name : List ℕ) → Started name (find same_string block_start_fn_map name)
unfolding find block_start_fn_map
block_start-Started name =
    if_elim (Started name) (same_string http_server_text name)
      (λ h. inl (sym (same_string-eq http_server_text name h), refl))
      λ _.
        if_elim (Started name) (same_string location_text name)
          (λ h. inr (sym (same_string-eq location_text name h), refl)) λ _. tt

pub none_open :
    (block : List (List (List ℕ))) → (elim block [ [] ↦ true | _ ∷ _ ↦ false ]) ≡ true → block ≡ []
none_open [] h = refl
none_open (b ∷ block) h = let clash : false ≡ true = h in cc

pub start_server-Fits :
    (c : Config)
    → IsNested c
    → block_name c.line ≡ http_server_text
    → Fits c starts_block (check_parent c none >>= λ c0. enter_block c server_start)
unfolding check_parent enter_block start_server
start_server-Fits c n name =
    if_elim (λ (o : Outcome Config). Fits c starts_block (o >>= λ c0. enter_block c server_start))
      (at_top c)
      (λ h.
        if_elim (Fits c starts_block) (wrong_arguments 1 1 (length c.line)) (λ _. tt)
          λ _.
            subst
              (λ x.
                Nesting (c.line ∷ x) (some (length c.vhost_list)) c.current_location
                  (c.vhost_list ++ (new_vhost ∷ [])))
              (sym (none_open c.block h))
              (
                name,
                (
                  length c.vhost_list,
                  refl,
                  omega (arith, length-append c.vhost_list (new_vhost ∷ [])),
                ),
              ))
      λ _. tt

pub start_location-Fits :
    (c : Config)
    → IsNested c
    → block_name c.line ≡ location_text
    → Fits c starts_block
        (check_parent c (some http_server_text) >>= λ c0. enter_block c location_start)
unfolding check_parent enter_block start_location
start_location-Fits c n name = by_block c.block refl n
  where
    made : List Location → List Location
    made ls = ls ++ (new_location (argument c.line 1) ∷ [])

    add : Vhost → Vhost
    add v = record v { location_list = v.location_list ++ (new_location (argument c.line 1) ∷ []) }

    enter : Outcome Config
    enter = start_location (record c { block = c.line ∷ c.block; line = [] }) c.line

    entered :
        (b : List (List ℕ))
        → c.block ≡ b ∷ []
        → block_name b ≡ http_server_text
        → HasVhost c.current_vhost c.vhost_list
        → Sound enter
    entered b e outer (i, q, lt) =
        let there = locations_at c.vhost_list i in
        let size = length-modify add c.vhost_list i in
        let more = length-append there (new_location (argument c.line 1) ∷ []) in
        let still : length there < length (locations_at (modify add c.vhost_list i) i) =
          rw (locations-modify add made c.vhost_list i (λ v. refl) lt) (omega arith) in
        rw (q, start_location)
          (subst
            (λ x.
              Nesting (c.line ∷ x) c.current_vhost (some (i, length there))
                (modify add c.vhost_list i))
            (sym e) (name, outer, (i, q, omega arith), (i, length there, refl, omega arith, still)))

    by_block :
        (block : List (List (List ℕ)))
        → c.block ≡ block
        → Nesting block c.current_vhost c.current_location c.vhost_list
        → Fits c starts_block
            (inside c http_server_text block >>= λ c0. enter_block c location_start)
    by_block [] e h = inr (e, name)
    by_block (b ∷ []) e (outer, v) =
        if_elim
          (λ (o : Outcome Config). Fits c starts_block (o >>= λ c0. enter_block c location_start))
          (same_string (block_name b) http_server_text)
          (λ _.
            if_elim (Fits c starts_block) (wrong_arguments 2 2 (length c.line)) (λ _. tt)
              λ _. Sound-Fits c starts_block enter (entered b e outer v))
          λ _. tt
    by_block (b ∷ d ∷ []) e (inner, outer, v, l) = rw (inner, location_ne) tt
    by_block (b ∷ d ∷ _ ∷ _) e h = absurd h

pub start_block-Fits : (c : Config) → IsNested c → Fits c starts_block (start_block c)
unfolding start_block
start_block-Fits c n = by_line c.line refl
  where
    by_record :
        (name : List ℕ) (o : Option BlockRecord)
        → block_name c.line ≡ name
        → Started name o
        → Fits c starts_block (start_record c o)
    by_record name none e s = tt
    by_record name (some rec) e (inl (is_server, q)) = rw q (start_server-Fits c n (e ∙ is_server))
    by_record name (some rec) e (inr (is_location, q)) =
        rw q (start_location-Fits c n (e ∙ is_location))

    by_line : (line : List (List ℕ)) → c.line ≡ line → Fits c starts_block (start_line c line)
    by_line [] e = inl e
    by_line (name ∷ arguments) e =
        by_record name (find same_string block_start_fn_map name) (ap block_name e)
          (block_start-Started name)
