-- ===== src/Machine/CommandLine.antt =====
-- The command lines of a8/q3/sm.c and what `parseArgs` makes of them.
use cs213_assignments.Common.{
  sym, ap, Bool, true, false, ◌||◌, ℕ, ◌≡◌, ◌⊎◌, inl, inr, ◌∙◌, refl, some, List, [], ◌∷◌, ◌++◌,
  arith,
}
use mathlib.Core.List.{append-nil, append_assoc}
use cs213_assignments.Machine.State.{initial}
use cs213_assignments.Machine.Loader.{Text, at_colon}
use cs213_assignments.Machine.Loading.{NoColon, at_colon-append}
use cs213_assignments.Machine.Program.{
  Settings, defaults, parsed, plain, kind, with_pc, with_mem, with_reg, parse_loop, parse_args,
}

-- The options, as `[-p startPC] [-m addr:count]* [-r]` says.
pub data Choice : Type 0 where
  start_pc : Text → Choice
  show_memory : (addr count : Text) → Choice
  show_registers : Choice

abbrev pub words : List Choice → List Text → List Text
words [] rest = rest
words (start_pc pc ∷ choices) rest = (b'-' ∷ b'p' ∷ []) ∷ pc ∷ words choices rest
words (show_memory addr count ∷ choices) rest =
    (b'-' ∷ b'm' ∷ []) ∷ (addr ++ b':' ∷ count) ∷ words choices rest
words (show_registers ∷ choices) rest = (b'-' ∷ b'r' ∷ []) ∷ words choices rest

-- Every address is free of colons.
abbrev pub AllReadable : List Choice → Type 0
AllReadable [] = Unit {0}
AllReadable (start_pc pc ∷ choices) = AllReadable choices
AllReadable (show_memory addr count ∷ choices) = NoColon addr × AllReadable choices
AllReadable (show_registers ∷ choices) = AllReadable choices

abbrev pub shows_registers : List Choice → Bool
shows_registers [] = false
shows_registers (start_pc pc ∷ choices) = shows_registers choices
shows_registers (show_memory addr count ∷ choices) = shows_registers choices
shows_registers (show_registers ∷ choices) = true

module _ (strtol : Text → ℕ) where
  -- The last start that is given, or `default`.
  abbrev pub start_of : List Choice → (default : ℕ) → ℕ
  start_of [] default = default
  start_of (start_pc pc ∷ choices) default = start_of choices (strtol pc)
  start_of (show_memory addr count ∷ choices) default = start_of choices default
  start_of (show_registers ∷ choices) default = start_of choices default

  -- The ranges in the order in which they are given.
  abbrev pub ranges : List Choice → List (ℕ × ℕ)
  ranges [] = []
  ranges (start_pc pc ∷ choices) = ranges choices
  ranges (show_memory addr count ∷ choices) = (strtol addr, strtol count) ∷ ranges choices
  ranges (show_registers ∷ choices) = ranges choices

  -- What the options say, on top of what has been said before.
  abbrev said : List Choice → Settings → Settings
  said choices s = record {
    machine = record s.machine { pc = start_of choices s.machine.pc };
    show_mem_list = s.show_mem_list ++ ranges choices;
    show_reg = s.show_reg || shows_registers choices;
  }

  or_false : (b : Bool) → (b || false) ≡ b
  or_false b = ground arith

  or_true : (b c : Bool) → (b || true) ≡ (true || c)
  or_true b c = ground arith

  said-nothing : (s : Settings) → said [] s ≡ s
  said-nothing s = rw (append-nil s.show_mem_list, or_false s.show_reg) refl

  said-memory :
      (addr count : Text) (choices : List Choice) (s : Settings)
      → said choices (with_mem strtol addr count s) ≡ said (show_memory addr count ∷ choices) s
  unfolding with_mem
  said-memory addr count choices s =
      ap (λ list. record (said (show_memory addr count ∷ choices) s) { show_mem_list = list })
        (append_assoc s.show_mem_list ((strtol addr, strtol count) ∷ []) (ranges choices))

  said-registers :
      (choices : List Choice) (s : Settings)
      → said choices (with_reg strtol s) ≡ said (show_registers ∷ choices) s
  said-registers choices s =
      ap (λ b. record (said choices s) { show_reg = b })
        (sym (or_true s.show_reg (shows_registers choices)))

  -- What follows the options: the name of a file, or nothing.
  abbrev pub IsRest : List Text → Type 0
  IsRest rest = (rest ≡ []) ⊎ ((file : Text) × (rest ≡ file ∷ []) × (kind file ≡ plain))

  parse_loop-registers :
      (args : List Text) (s : Settings)
      → parse_loop strtol ((b'-' ∷ b'r' ∷ []) ∷ args) s ≡ parse_loop strtol args (with_reg strtol s)
  unfolding parse_loop
  parse_loop-registers [] s = refl
  parse_loop-registers (arg ∷ args) s = refl

  parse_loop-memory :
      (value addr count : Text) (args : List Text) (s : Settings)
      → at_colon value ≡ some (addr, count)
      → parse_loop strtol ((b'-' ∷ b'm' ∷ []) ∷ value ∷ args) s
        ≡ parse_loop strtol args (with_mem strtol addr count s)
  unfolding parse_loop
  parse_loop-memory value addr count args s e = ground arith

  parse_loop-file :
      (file : Text) (s : Settings) → kind file ≡ plain → parse_loop strtol (file ∷ []) s ≡ parsed s
  unfolding parse_loop
  parse_loop-file file s e = ground arith

  parse_loop-words :
      (choices : List Choice) (rest : List Text) (s : Settings)
      → IsRest rest
      → AllReadable choices
      → parse_loop strtol (words choices rest) s ≡ parsed (said choices s)
  unfolding parse_loop with_pc
  parse_loop-words [] rest s (inl e) ok = rw e (ap parsed (sym (said-nothing s)))
  parse_loop-words [] rest s (inr (file, e, is_plain)) ok =
      rw e (parse_loop-file file s is_plain ∙ ap parsed (sym (said-nothing s)))
  parse_loop-words (start_pc pc ∷ choices) rest s r ok =
      parse_loop-words choices rest (with_pc strtol pc s) r ok
  parse_loop-words (show_memory addr count ∷ choices) rest s r ok =
      parse_loop-memory (addr ++ b':' ∷ count) addr count (words choices rest) s
        (at_colon-append addr count (ok.0))
      ∙ parse_loop-words choices rest (with_mem strtol addr count s) r (ok.1)
      ∙ ap parsed (said-memory addr count choices s)
  parse_loop-words (show_registers ∷ choices) rest s r ok =
      parse_loop-registers (words choices rest) s
      ∙ parse_loop-words choices rest (with_reg strtol s) r ok
      ∙ ap parsed (said-registers choices s)

  -- The options in any order, with the name of a file behind them or without one: the program starts
  -- where the last start says, the ranges are shown in the order in which they are given, and the
  -- registers are shown if that is asked for.
  pub parse_args-words :
      (choice : Choice) (choices : List Choice) (rest : List Text)
      → IsRest rest
      → AllReadable (choice ∷ choices)
      → parse_args strtol (words (choice ∷ choices) rest)
        ≡ parsed (record {
          machine = record initial { pc = start_of (choice ∷ choices) initial.pc };
          show_mem_list = ranges (choice ∷ choices);
          show_reg = shows_registers (choice ∷ choices);
        })
  unfolding parse_args
  parse_args-words (start_pc pc) choices rest r ok =
      parse_loop-words (start_pc pc ∷ choices) rest defaults r ok
  parse_args-words (show_memory addr count) choices rest r ok =
      parse_loop-words (show_memory addr count ∷ choices) rest defaults r ok
  parse_args-words show_registers choices rest r ok =
      parse_loop-words (show_registers ∷ choices) rest defaults r ok
