-- ===== src/Config/Calls.antt =====
-- The callbacks of the parser, for a configuration whose blocks are nested.
use latypus.Common.{◌≡◌, subst, List, [], ◌∷◌}
use latypus.Config.{Outcome, done, fatal, fault, ◌>>=◌, Config, Names, config}
use latypus.Config.Blocks.{
  symbol, Call, symbols, starts_block, ends_block, ends_statement, step, parse,
}
use latypus.Config.Nesting.{IsNested, Sound}
use latypus.Config.Fits.{Fits, end_statement-Fits}
use latypus.Config.Ends.{end_block-Fits}
use latypus.Config.Starts.{start_block-Fits}

step-Fits :
    (names : Names) (c : Config) (call : Call) → IsNested c → Fits c call (step names c call)
unfolding step symbol
step-Fits names c (symbols value) n = n
step-Fits names c starts_block n = start_block-Fits c n
step-Fits names c ends_block n = end_block-Fits c n
step-Fits names c ends_statement n = end_statement-Fits names c n

after_step :
    (c0 c : Config) (call : Call) (f : Config → Outcome Config) (o : Outcome Config)
    → Fits c0 call o
    → ((c1 : Config) → IsNested c1 → f c1 ≡ done c → IsNested c)
    → (o >>= f) ≡ done c
    → IsNested c
after_step c0 c call f (done c1) h k e = k c1 h e
after_step c0 c call f fatal h k e = cc
after_step c0 c call f fault h k e = cc

parse-IsNested_from :
    (names : Names) (c0 c : Config) (calls : List Call)
    → IsNested c0
    → parse names c0 calls ≡ done c
    → IsNested c
unfolding parse
parse-IsNested_from names c0 c [] n e = subst Sound e n
parse-IsNested_from names c0 c (call ∷ calls) n e =
    after_step c0 c call (λ c1. parse names c1 calls) (step names c0 call)
      (step-Fits names c0 call n) (λ c1 m r. parse-IsNested_from names c1 c calls m r) e

-- Whatever the parser calls, if what is left is a configuration then its blocks are nested: none is
-- open, or one of a server, or in it one of a location, and the pointer to the virtual host, and to
-- the location, that the directives in it write through is set.
pub parse-IsNested :
    (names : Names) (calls : List Call) (c : Config)
    → parse names config calls ≡ done c
    → IsNested c
unfolding config
parse-IsNested names calls c e = parse-IsNested_from names config c calls tt e
