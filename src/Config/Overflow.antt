-- ===== src/Config/Overflow.antt =====
-- A statement whose number an `int` does not hold reaches `atoi`.
use latypus.Common.{
  ℕ, ◌+◌, ◌≡◌, inl, inr, refl, sym, ap, subst, ◌∙◌, true, false, Option, none, some, List, [], ◌∷◌,
  if◌then◌else◌, length, All, Bool-cases, arith,
}
use latypus.Common.Maps.{find}
use latypus.HttpMessage.{same_string}
use latypus.HttpMessage.Names.{same_string-eq}
use latypus.Config.{Outcome, done, fatal, fault, ◌>>=◌, Config, ConfigRecord, Names}
use latypus.Config.Numbers.{number}
use latypus.Config.Directives.{argument, contains, config_fn_map}
use latypus.Config.ServerDirectives.{server_fn_map}
use latypus.Config.Blocks.{lookup_config_fn, wrong_arguments, end_statement}
use latypus.Config.Safe.{◌◃◌}
use latypus.Config.Misread.{number_names, thread_names, BadNumber}

-- The directive with this name reads its last symbol, at the place `i`, as a number.
abbrev ReadsLast : ℕ → List ℕ → Type 0
ReadsLast i name =
    (names : Names)
    → (rec : ConfigRecord) × (lookup_config_fn names name ≡ some rec)
      × (rec.minargs ≡ i + 1)
      × (rec.maxargs ≡ i + 1)
      × ((c : Config) (line : List (List ℕ))
          → number (argument line i) ≡ fault
          → rec.fn c line ≡ fault)

contains-All :
    (P : List ℕ → Type 0) (names : List (List ℕ)) (name : List ℕ)
    → All P names
    → contains names name ≡ true
    → P name
contains-All P [] name h e = cc
contains-All P (x ∷ names) name (p, h) e = elim (Bool-cases (same_string x name)) [
  | inl f ↦ subst P (same_string-eq x name f) p
  | inr f ↦ contains-All P names name h (rw f at e)
]

number_names-ReadsLast : All (ReadsLast 1) number_names
unfolding lookup_config_fn find server_fn_map config_fn_map same_string number_names
number_names-ReadsLast =
    (λ names. (_, refl, refl, refl, λ c line e. rw e refl))
    ◃ (λ names. (_, refl, refl, refl, λ c line e. rw e refl))
    ◃ (λ names. (_, refl, refl, refl, λ c line e. rw e refl))
    ◃ (λ names. (_, refl, refl, refl, λ c line e. rw e refl))
    ◃ (λ names. (_, refl, refl, refl, λ c line e. rw e refl))
    ◃ (λ names. (_, refl, refl, refl, λ c line e. rw e refl))
    ◃ (λ names. (_, refl, refl, refl, λ c line e. rw e refl))
    ◃ (λ names. (_, refl, refl, refl, λ c line e. rw e refl))
    ◃ (λ names. (_, refl, refl, refl, λ c line e. rw e refl))
    ◃ (λ names. (_, refl, refl, refl, λ c line e. rw e refl))
    ◃ (λ names. (_, refl, refl, refl, λ c line e. rw e refl))
    ◃ (λ names. (_, refl, refl, refl, λ c line e. rw e refl))
    ◃ tt

thread_names-ReadsLast : All (ReadsLast 2) thread_names
unfolding lookup_config_fn find server_fn_map config_fn_map same_string thread_names
thread_names-ReadsLast =
    (λ names. (_, refl, refl, refl, λ c line e. rw e refl))
    ◃ (λ names. (_, refl, refl, refl, λ c line e. rw e refl))
    ◃ (λ names. (_, refl, refl, refl, λ c line e. rw e refl))
    ◃ tt

right_arguments :
    (k minargs maxargs size : ℕ)
    → minargs ≡ k
    → maxargs ≡ k
    → size ≡ k
    → wrong_arguments minargs maxargs size ≡ false
unfolding wrong_arguments
right_arguments k minargs maxargs size p q e = ground arith

-- The parts of `end_statement`.
module _ (names : Names) (c : Config) where
  abbrev run_record : ConfigRecord → Outcome Config
  run_record rec =
      if wrong_arguments rec.minargs rec.maxargs (length c.line)
      then fatal
      else rec.fn c c.line >>= λ c1. done (record c1 { line = [] })

  abbrev run_name : Option ConfigRecord → Outcome Config
  run_name none = fatal
  run_name (some rec) = run_record rec

  abbrev run_line : List (List ℕ) → Outcome Config
  run_line [] = done c
  run_line (name ∷ values) = run_name (lookup_config_fn names name)

  run_record_overflow :
      (rec : ConfigRecord)
      → wrong_arguments rec.minargs rec.maxargs (length c.line) ≡ false
      → rec.fn c c.line ≡ fault
      → run_record rec ≡ fault
  run_record_overflow rec e f = rw (e, f) refl

  end_statement_overflow :
      (i : ℕ) (name : List ℕ) (values : List (List ℕ))
      → ReadsLast i name
      → c.line ≡ name ∷ values
      → length (name ∷ values) ≡ i + 1
      → number (argument (name ∷ values) i) ≡ fault
      → end_statement names c ≡ fault
  unfolding end_statement
  end_statement_overflow i name values reads l size f =
      let (rec, found, least, most, misreads) = reads names in
      ap run_line l
      ∙ ap run_name found
      ∙ run_record_overflow rec
          (right_arguments (i + 1) rec.minargs rec.maxargs (length c.line) least most
            (ap length l ∙ size))
          (misreads c c.line (subst (λ line. number (argument line i) ≡ fault) (sym l) f))

pub BadNumber-fault :
    (names : Names) (c : Config) → BadNumber c.line → end_statement names c ≡ fault
BadNumber-fault names c h = by_line c.line refl h
  where
    by_line :
        (line : List (List ℕ)) → c.line ≡ line → BadNumber line → end_statement names c ≡ fault
    by_line [] l h = absurd h
    by_line (name ∷ values) l (inl (e, size, f)) =
        end_statement_overflow names c 1 name values
          (contains-All (ReadsLast 1) number_names name number_names-ReadsLast e) l size f
    by_line (name ∷ values) l (inr (e, size, f)) =
        end_statement_overflow names c 2 name values
          (contains-All (ReadsLast 2) thread_names name thread_names-ReadsLast e) l size f
