-- ===== src/Config/Fits.antt =====
-- What a callback may do, and that the end of a statement keeps to it.
use latypus.Common.{
  ℕ, ◌≡◌, ◌⊎◌, inl, inr, refl, sym, ap, subst, ◌∙◌, false, Option, none, some, List, [], ◌∷◌,
  if◌then◌else◌, if_elim, length, arith,
}
use latypus.Config.{Outcome, done, fatal, fault, ◌>>=◌, Config, ConfigRecord, Names}
use latypus.Config.Numbers.{number}
use latypus.Config.Directives.{argument, block_name, location_text}
use latypus.Config.Blocks.{
  wrong_arguments, end_statement, lookup_config_fn, Call, symbols, starts_block, ends_block,
  ends_statement,
}
use latypus.Config.Misread.{BadNumber, Misreads, Read, Reads}
use latypus.Config.Nesting.{IsNested, Sound}
use latypus.Config.Safe.{lookup_config_fn-Reads}

-- The calls that do what is undefined: a block that ends where none is open, and a location that
-- starts there; a block without a name, which the parser does not give; and a number that an `int` does
-- not hold.
abbrev pub Undefined : Config → Call → Type 0
Undefined c (symbols value) = ⊥
Undefined c starts_block = (c.line ≡ []) ⊎ ((c.block ≡ []) × (block_name c.line ≡ location_text))
Undefined c ends_block = c.block ≡ []
Undefined c ends_statement = BadNumber c.line

-- The outcome is defined and nested, or undefined where it says so.
abbrev pub Fits : Config → Call → Outcome Config → Type 0
Fits c call (done c1) = IsNested c1
Fits c call fatal = Unit
Fits c call fault = Undefined c call

pub Sound-Fits : (c : Config) (call : Call) (o : Outcome Config) → Sound o → Fits c call o
Sound-Fits c call (done c1) h = h
Sound-Fits c call fatal h = tt
Sound-Fits c call fault h = absurd h

exact_arguments :
    (k minargs maxargs size : ℕ)
    → minargs ≡ k
    → maxargs ≡ k
    → wrong_arguments minargs maxargs size ≡ false
    → size ≡ k
unfolding wrong_arguments
exact_arguments k minargs maxargs size p q e = ground arith

-- A record's function that does what is undefined has read such a number.
Misreads-BadNumber :
    (name : List ℕ) (rec : ConfigRecord) (line arguments : List (List ℕ))
    → line ≡ name ∷ arguments
    → wrong_arguments rec.minargs rec.maxargs (length line) ≡ false
    → Misreads name rec line
    → BadNumber line
Misreads-BadNumber name rec line arguments l w (inl (e, p, q, f)) = subst BadNumber (sym l) (
    inl (
      e,
      ap length (sym l) ∙ exact_arguments 2 rec.minargs rec.maxargs (length line) p q w,
      subst (λ s. number (argument s 1) ≡ fault) l f,
    ))
Misreads-BadNumber name rec line arguments l w (inr (e, p, q, f)) = subst BadNumber (sym l) (
    inr (
      e,
      ap length (sym l) ∙ exact_arguments 3 rec.minargs rec.maxargs (length line) p q w,
      subst (λ s. number (argument s 2) ≡ fault) l f,
    ))

pub end_statement-Fits :
    (names : Names) (c : Config) → IsNested c → Fits c ends_statement (end_statement names c)
unfolding end_statement Reads
end_statement-Fits names c n = by_line c.line refl
  where
    after :
        (name : List ℕ) (rec : ConfigRecord) (arguments : List (List ℕ)) (o : Outcome Config)
        → c.line ≡ name ∷ arguments
        → wrong_arguments rec.minargs rec.maxargs (length c.line) ≡ false
        → Read name rec c.line o
        → Fits c ends_statement (o >>= λ c1. done (record c1 { line = [] }))
    after name rec arguments (done c1) l w h = h
    after name rec arguments fatal l w h = tt
    after name rec arguments fault l w h = Misreads-BadNumber name rec c.line arguments l w h

    by_record :
        (name : List ℕ) (arguments : List (List ℕ)) (o : Option ConfigRecord)
        → c.line ≡ name ∷ arguments
        → lookup_config_fn names name ≡ o
        → Fits c ends_statement (elim o [
          | none ↦ fatal
          | some rec ↦
              if wrong_arguments rec.minargs rec.maxargs (length c.line)
              then fatal
              else rec.fn c c.line >>= λ c1. done (record c1 { line = [] })
        ])
    by_record name arguments none l e = tt
    by_record name arguments (some rec) l e =
        if_elim (Fits c ends_statement) (wrong_arguments rec.minargs rec.maxargs (length c.line))
          (λ _. tt)
          λ w.
            after name rec arguments (rec.fn c c.line) l w
              (lookup_config_fn-Reads names name rec e c c.line n)

    by_line :
        (line : List (List ℕ))
        → c.line ≡ line
        → Fits c ends_statement (elim line [
          | [] ↦ done c
          | name ∷ arguments ↦ elim (lookup_config_fn names name) [
            | none ↦ fatal
            | some rec ↦
                if wrong_arguments rec.minargs rec.maxargs (length c.line)
                then fatal
                else rec.fn c c.line >>= λ c1. done (record c1 { line = [] })
          ]
        ])
    by_line [] e = n
    by_line (name ∷ arguments) e = by_record name arguments (lookup_config_fn names name) e refl
