-- ===== src/Machine/JumpTable.antt =====
-- `exec` of a8/q3/sm-jt.c, which jumps through two tables of labels, and its agreement with the
-- `switch` of a8/q3/sm.c.
use cs213_assignments.Common.{
  ℕ, ◌≡◌, Bool, true, ◌||◌, Option, none, some, List, [], ◌∷◌, ◌>>=◌, arith, ltb, ◌==◌,
  if◌then◌else◌, bit_and, get_elem?, refl,
}
use cs213_assignments.Common.Cases.{split_below}
use cs213_assignments.Machine.Words.{add32, sub32, not32}
use cs213_assignments.Machine.State.{Machine, illegal_instruction, illegal_alu, report}
use cs213_assignments.Machine.Exec.{
  Os, go_on, ld_imm, ld_base, ld_indexed, st_base, st_indexed, alu_two, alu_one, alu_mov, alu_gpc,
  alu, shift, branch, branch_eq, branch_gt, jump, jump_base, halt_or_sys, dispatch, exec,
}

pub data Label : Type 0 where
  l0 l1 l2 l3 l4 l6 l7 l8 l9 la lb lc lf : Label

pub data AluLabel : Type 0 where
  a0 a1 a2 a3 a4 a5 a6 a7 af : AluLabel

-- An entry 0 is no label: a jump there is undefined.
abbrev pub jt1 : List (Option Label)
jt1 =
    some l0
    ∷ some l1
    ∷ some l2
    ∷ some l3
    ∷ some l4
    ∷ none
    ∷ some l6
    ∷ some l7
    ∷ some l8
    ∷ some l9
    ∷ some la
    ∷ some lb
    ∷ some lc
    ∷ none
    ∷ none
    ∷ some lf
    ∷ []

abbrev pub jt2 : List (Option AluLabel)
jt2 =
    some a0
    ∷ some a1
    ∷ some a2
    ∷ some a3
    ∷ some a4
    ∷ some a5
    ∷ some a6
    ∷ some a7
    ∷ none
    ∷ none
    ∷ none
    ∷ none
    ∷ none
    ∷ none
    ∷ none
    ∷ some af
    ∷ []

-- The entry of a table; an index beyond its end is undefined too.
abbrev pub entry {ℓ} : {A : Type ℓ} → List (Option A) → ℕ → Option A
entry table i = do e ← get_elem? table i; e

pub run_alu_label : AluLabel → Machine → Option Machine
run_alu_label a0 m = alu_mov m
run_alu_label a1 m = alu_two add32 m
run_alu_label a2 m = alu_two bit_and m
run_alu_label a3 m = alu_one (λ d. add32 d 1) m
run_alu_label a4 m = alu_one (λ d. add32 d 4) m
run_alu_label a5 m = alu_one (λ d. sub32 d 1) m
run_alu_label a6 m = alu_one (λ d. sub32 d 4) m
run_alu_label a7 m = alu_one not32 m
run_alu_label af m = alu_gpc m

-- L6: the table is used for the functions that it has.
pub alu_jt : ℕ → Machine → Option Machine
unfolding run_alu_label
alu_jt fun m =
    if fun == 0xf || ltb fun 8
    then (do label ← entry jt2 fun; run_alu_label label m)
    else some (report (illegal_alu m.pc fun) m)

module _ (os : Os) where
  pub run_label : Label → Machine → Option (Machine × Bool)
  unfolding alu_jt
  run_label l0 m = go_on (ld_imm m)
  run_label l1 m = go_on (ld_base m)
  run_label l2 m = go_on (ld_indexed m)
  run_label l3 m = go_on (st_base m)
  run_label l4 m = go_on (st_indexed m)
  run_label l6 m = go_on (alu_jt m.ins_op0 m)
  run_label l7 m = go_on (shift m)
  run_label l8 m = some (branch m, true)
  run_label l9 m = go_on (branch_eq m)
  run_label la m = go_on (branch_gt m)
  run_label lb m = some (jump m, true)
  run_label lc m = go_on (jump_base m)
  run_label lf m = halt_or_sys os m

  pub dispatch_jt : ℕ → Machine → Option (Machine × Bool)
  unfolding run_label
  dispatch_jt op m =
      if ltb 0xf op || op == 0x5 || op == 0xd || op == 0xe
      then some (report (illegal_instruction m.pc op) m, true)
      else (do label ← entry jt1 op; run_label label m)

  pub exec_jt : Machine → Option (Machine × Bool)
  unfolding dispatch_jt
  exec_jt m = dispatch_jt m.ins_op_code m

alu_jt-eq-alu : (fun : ℕ) (m : Machine) → alu_jt fun m ≡ alu fun m
unfolding alu_jt alu run_alu_label
alu_jt-eq-alu fun m = ground arith

dispatch_jt-eq-dispatch : (os : Os) (op : ℕ) (m : Machine) → dispatch_jt os op m ≡ dispatch os op m
unfolding dispatch_jt dispatch run_label
dispatch_jt-eq-dispatch os op m =
    split_below 16 (λ op. dispatch_jt os op m ≡ dispatch os op m)
      (
        refl,
        (
          refl,
          (
            refl,
            (
              refl,
              (
                refl,
                (
                  refl,
                  (
                    rw (alu_jt-eq-alu m.ins_op0 m),
                    (refl, (refl, (refl, (refl, (refl, (refl, (refl, (refl, (refl, tt))))))))),
                  ),
                ),
              ),
            ),
          ),
        ),
      )
      (λ op above. ground arith) op

-- The jump tables of `exec` in sm-jt.c and the `switch` of `exec` in sm.c do the same in every state,
-- undefined behaviour included.
pub exec_jt-eq-exec : (os : Os) (m : Machine) → exec_jt os m ≡ exec os m
unfolding exec_jt exec
exec_jt-eq-exec os m = dispatch_jt-eq-dispatch os m.ins_op_code m
