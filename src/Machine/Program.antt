-- ===== src/Machine/Program.antt =====
-- `parseArgs` and `main` of a8/q3/sm.c: the command line, the file, the run and what is shown. The
-- argument that would follow the last one is NULL, and to read it is undefined.
use cs213_assignments.Common.{
  ℕ, Bool, true, false, Option, none, some, ◌>>=◌, List, [], ◌∷◌, ◌++◌, ◌==◌, leb, ◌^◌,
  if◌then◌else◌,
}
use cs213_assignments.Machine.State.{Machine, initial}
use cs213_assignments.Machine.Compute.{halted, undefined, out_of_fuel, compute}
use cs213_assignments.Machine.Loader.{Text, at_colon, load_lines, Row, show_mem}

-- `pc`, `showMemList` and `showReg`.
pub record Settings : Type 0 where
  pub machine : Machine
  pub show_mem_list : List (ℕ × ℕ)
  pub show_reg : Bool

abbrev pub defaults : Settings
defaults = record { machine = initial; show_mem_list = []; show_reg = false }

pub data Parsed : Type 0 where
  parsed : Settings → Parsed
  usage : Parsed
  bad_access : Parsed

pub data Kind : Type 0 where
  pc_option : Kind
  mem_option : Kind
  reg_option : Kind
  unknown : Kind
  plain : Kind

abbrev pub letter_kind : ℕ → Kind
letter_kind c =
    if c == b'p'
    then pc_option
    else if c == b'm'
    then mem_option
    else if c == b'r'
    then reg_option
    else unknown

-- `argv[i][0] == '-'`, and what follows.
unfoldable pub kind : Text → Kind
kind [] = plain
kind (d ∷ []) = if d == b'-' then unknown else plain
kind (d ∷ c ∷ []) = if d == b'-' then letter_kind c else plain
kind (d ∷ c ∷ e ∷ cs) = if d == b'-' then unknown else plain

-- The exit of `main`: what has been printed, with the registers if they are shown.
pub data Exit : Type 0 where
  finished : List (List Row) → Option (ℕ → ℕ) → Exit
  usage_error : Exit
  file_error : Exit
  no_result : Exit
  runs_on : Exit

-- A negative `count` shows nothing.
abbrev pub shown_rows : ℕ → ℕ
shown_rows count = if leb (2 ^ 31) count then 0 else count

module _ (strtol : Text → ℕ) where
  unfoldable pub with_pc : Text → Settings → Settings
  with_pc arg s = record s { machine = record s.machine { pc = strtol arg } }

  unfoldable pub with_mem : Text → Text → Settings → Settings
  with_mem addr count s = record s {
    show_mem_list = s.show_mem_list ++ (strtol addr, strtol count) ∷ [];
  }

  abbrev pub with_reg : Settings → Settings
  with_reg s = record s { show_reg = true }

  -- The loop over the arguments. An argument that is no option has to be the last one.
  unfoldable pub parse_loop : List Text → Settings → Parsed
  unfolding kind
  parse_loop [] s = parsed s
  parse_loop (arg ∷ []) s = elim (kind arg) [
    | pc_option ↦ bad_access
    | mem_option ↦ bad_access
    | reg_option ↦ parsed (with_reg s)
    | unknown ↦ usage
    | plain ↦ parsed s
  ]
  parse_loop (arg ∷ value ∷ args) s = elim (kind arg) [
    | pc_option ↦ parse_loop args (with_pc value s)
    | mem_option ↦ elim (at_colon value) [
      | none ↦ bad_access
      | some (addr, count) ↦ parse_loop args (with_mem addr count s)
    ]
    | reg_option ↦ parse_loop (value ∷ args) (with_reg s)
    | unknown ↦ usage
    | plain ↦ usage
  ]

  -- The arguments without the name of the program.
  unfoldable pub parse_args : List Text → Parsed
  unfolding parse_loop
  parse_args [] = usage
  parse_args (arg ∷ args) = parse_loop (arg ∷ args) defaults

  abbrev pub last_of : Text → List Text → Text
  last_of arg [] = arg
  last_of arg (next ∷ args) = last_of next args

  unfoldable pub show_each : List (ℕ × ℕ) → Machine → Option (List (List Row))
  show_each [] m = some []
  show_each ((addr, count) ∷ more) m = do
    rows ← show_mem addr (shown_rows count) m
    shown ← show_each more m
    some (rows ∷ shown)

  unfoldable pub show_result : Settings → Machine → Exit
  unfolding show_each
  show_result s m = elim (show_each s.show_mem_list m) [
    | none ↦ no_result
    | some rows ↦ finished rows (if s.show_reg then some m.reg else none)
  ]

  unfoldable pub run_file :
      (fuel : ℕ) → (Machine → Option (Machine × Bool)) → List Text → Settings → Exit
  unfolding show_result
  run_file fuel exec lines s = elim (load_lines strtol lines s.machine) [
    | none ↦ no_result
    | some m ↦ elim (compute exec fuel m) [
      | halted m' ↦ show_result s m'
      | undefined ↦ no_result
      | out_of_fuel ↦ runs_on
    ]
  ]

  -- `files` gives the lines of a file that can be opened. `main` opens the last argument.
  unfoldable pub main :
      (fuel : ℕ)
      → (Machine → Option (Machine × Bool))
      → (Text → Option (List Text))
      → List Text
      → Exit
  unfolding parse_args run_file
  main fuel exec files [] = usage_error
  main fuel exec files (arg ∷ args) = elim (parse_args (arg ∷ args)) [
    | usage ↦ usage_error
    | bad_access ↦ no_result
    | parsed s ↦ elim (files (last_of arg args)) [
      | none ↦ file_error
      | some lines ↦ run_file fuel exec lines s
    ]
  ]
