-- ===== src/Cli/Session.antt =====
-- Whole sessions of the command line: when Run returns, and what it leaves.
use earthion_blockchain_dev.Base.{
  ℕ, zero, suc, ◌+◌, ◌^◌, ◌<◌, List, [], ◌∷◌, ◌++◌, length, length-append, ◌≡◌, ◌≢◌, refl, ◌∙◌, ap,
  subst, arith, All,
}
use earthion_blockchain_dev.Base.Outcome.{Outcome, returns, panics}
use earthion_blockchain_dev.Core.Platform.{Platform}
use earthion_blockchain_dev.Server.Node.{Node, Env}
use earthion_blockchain_dev.Server.Answers.{Minable, IsSound}
use earthion_blockchain_dev.Server.Grown.{IsGrown, IsGrown-same, IsGrown-trans}
use earthion_blockchain_dev.Cli.{
  Command, nothing, balance, send, send_usage, mine, validate_chain, list, help, exit, unknown,
  command_of, Output, execute, Progress, exited, Line, after_command, run,
}
use earthion_blockchain_dev.Cli.Commands.{execute-IsExecuted}

after_command-eq :
    (p : Platform) (cmd : Command) (env : Env) (n n' : Node) (out : Output)
    (rest : Node → Outcome Progress)
    → cmd ≢ exit
    → execute p env cmd n ≡ returns (n', out)
    → after_command p cmd env n rest ≡ rest n'
after_command-eq p exit env n n' out rest ne e = absurd (ne refl)
after_command-eq p nothing env n n' out rest ne e = rw (e, after_command) refl
after_command-eq p balance env n n' out rest ne e = rw (e, after_command) refl
after_command-eq p (send to amount) env n n' out rest ne e = rw (e, after_command) refl
after_command-eq p send_usage env n n' out rest ne e = rw (e, after_command) refl
after_command-eq p mine env n n' out rest ne e = rw (e, after_command) refl
after_command-eq p validate_chain env n n' out rest ne e = rw (e, after_command) refl
after_command-eq p list env n n' out rest ne e = rw (e, after_command) refl
after_command-eq p help env n n' out rest ne e = rw (e, after_command) refl
after_command-eq p unknown env n n' out rest ne e = rw (e, after_command) refl

-- No line of the input is "exit".
abbrev pub NoExit : List Line → Type 0
NoExit = All (λ line. command_of line.fields ≢ exit)

run-cons :
    (p : Platform) (rounds : ℕ) (line : Line) (lines : List Line) (n n' : Node) (out : Output)
    → command_of line.fields ≢ exit
    → execute p line.env (command_of line.fields) n ≡ returns (n', out)
    → run p (suc rounds) (line ∷ lines) n ≡ run p rounds lines n'
unfolding run
run-cons p rounds line lines n n' out ne e =
    after_command-eq p (command_of line.fields) line.env n n' out (λ m. run p rounds lines m) ne e

run-exit :
    (p : Platform) (rounds : ℕ) (line : Line) (lines : List Line) (n : Node)
    → command_of line.fields ≡ exit
    → run p (suc rounds) (line ∷ lines) n ≡ returns (exited n)
unfolding run
run-exit p rounds line lines n e = rw (e, run) refl

module _ (p : Platform) (minable : Minable p) where
  -- Run on an input with a line "exit", on a node whose chain is minted, whose indices are right
  -- and whose chain stays shorter than 2^62 blocks, if blocks can be mined: it returns in the round
  -- of that line, no command before it panics, at most one block for each line before it is put on
  -- top of the chain, and the chain is minted and its indices are right after it.
  pub run-returns :
      (before after : List Line) (line : Line) (k : ℕ) (n : Node)
      → NoExit before
      → command_of line.fields ≡ exit
      → length n.chain.blocks + length before < 2 ^ 62
      → IsSound p n
      → (n' : Node) × (run p (suc (length before) + k) (before ++ line ∷ after) n
          ≡ returns (exited n'))
        × IsGrown p (length before) n n'
  run-returns [] after line k n no_exit ends short sound = (
    n,
    ap (λ r. run p r (line ∷ after) n) (omega arith) ∙ run-exit p k line after n ends,
    IsGrown-same p 0 n sound,
  )
  run-returns (l ∷ before) after line k n no_exit ends short sound =
      let (m, out, e, first) =
        execute-IsExecuted p minable l.env (command_of l.fields) n (omega arith) sound in
      let (n', rest, grown) =
        run-returns before after line k m no_exit.1 ends
          (omega
            (arith, ap length first.grown, length-append n.chain.blocks first.added, first.at_most))
          first.sound in
      (
        n',
        ap (λ r. run p r (l ∷ before ++ line ∷ after) n) (omega arith)
            ∙ run-cons p (suc (length before) + k) l (before ++ line ∷ after) n m out no_exit.0 e
            ∙ rest,
        subst (λ c. IsGrown p c n n') (omega arith) (IsGrown-trans p first grown),
      )

goes_on :
    (n' : Node) (rest : Node → Outcome Progress)
    → ((m : Node) → rest m ≢ returns (exited n'))
    → (o : Outcome (Node × Output))
    → (elim o [ panics ↦ panics | returns (m, _) ↦ rest m ]) ≢ returns (exited n')
goes_on n' rest h panics = λ e. cc e
goes_on n' rest h (returns (m, out)) = h m

-- Rounds that never end the loop leave a round that does not end it.
after_command_never :
    (p : Platform) (cmd : Command) (env : Env) (n n' : Node) (rest : Node → Outcome Progress)
    → cmd ≢ exit
    → ((m : Node) → rest m ≢ returns (exited n'))
    → after_command p cmd env n rest ≢ returns (exited n')
after_command_never p exit env n n' rest ne h = absurd (ne refl)
after_command_never p nothing env n n' rest ne h = goes_on n' rest h (execute p env nothing n)
after_command_never p balance env n n' rest ne h = goes_on n' rest h (execute p env balance n)
after_command_never p (send to amount) env n n' rest ne h =
    goes_on n' rest h (execute p env (send to amount) n)
after_command_never p send_usage env n n' rest ne h = goes_on n' rest h (execute p env send_usage n)
after_command_never p mine env n n' rest ne h = goes_on n' rest h (execute p env mine n)
after_command_never p validate_chain env n n' rest ne h =
    goes_on n' rest h (execute p env validate_chain n)
after_command_never p list env n n' rest ne h = goes_on n' rest h (execute p env list n)
after_command_never p help env n n' rest ne h = goes_on n' rest h (execute p env help n)
after_command_never p unknown env n n' rest ne h = goes_on n' rest h (execute p env unknown n)

-- Without a line "exit" Run never returns: when the input has ended it goes on with empty lines, in
-- however many rounds.
pub run_never_returns :
    (p : Platform) (rounds : ℕ) (lines : List Line) (n n' : Node)
    → NoExit lines
    → run p rounds lines n ≢ returns (exited n')
unfolding run
run_never_returns p zero lines n n' h = λ e. cc e
run_never_returns p (suc rounds) [] n n' h = run_never_returns p rounds [] n n' h
run_never_returns p (suc rounds) (line ∷ lines) n n' h =
    after_command_never p (command_of line.fields) line.env n n' (λ m. run p rounds lines m) h.0
      (λ m. run_never_returns p rounds lines m n' h.1)
