-- ===== src/Dispatch.antt =====
-- Classes as structs of function pointers, a7/SA-dynamic-call.c: A, B that extends A, and C that
-- extends B. A function is known by its name.
pub mod Inherited
pub mod Tests
use cs213_assignments.Common.{ℕ, zero, suc, Option, none, some, List, [], ◌∷◌, ◌++◌, ◌>>=◌}

pub data Method : Type 0 where
  a_ping : Method
  a_pong : Method
  b_ping : Method
  b_wiff : Method
  c_ping : Method

-- `struct A_class`, `struct B_class` and `struct C_class`, of which the first has no `wiff`.
pub data Class : Type 0 where
  no_class : Class
  class_of : (super : Class) → (ping pong : Method) → (wiff : Option Method) → Class

pub a_class : Class
a_class = class_of no_class a_ping a_pong none

pub b_class : Class
unfolding a_class
b_class = class_of a_class b_ping a_pong (some b_wiff)

pub c_class : Class
unfolding b_class
c_class = class_of b_class c_ping a_pong (some b_wiff)

-- An object; only those of class C have an `id`.
pub record Object : Type 0 where
  pub class : Class
  pub i : ℕ
  pub id : ℕ

pub new_a : ℕ → Object
unfolding a_class
new_a i = record { class = a_class; i = i; id = 0 }

pub new_b : ℕ → Object
unfolding b_class
new_b i = record { class = b_class; i = i; id = 0 }

pub new_c : ℕ → ℕ → Object
unfolding c_class
new_c i id = record { class = c_class; i = i; id = id }

-- What is printed. `A_pong` prints the name of `A_ping`.
pub data Shown : Type 0 where
  shown_a_ping : (i : ℕ) → Shown
  shown_b_ping : (i : ℕ) → Shown
  shown_b_wiff : (i : ℕ) → Shown
  shown_c_ping_calls : (i id : ℕ) → Shown

-- `class->super`, `class->ping` and `class->pong`: undefined behaviour where there is no class.
abbrev pub super_of : Class → Option Class
super_of no_class = none
super_of (class_of super _ _ _) = some super

abbrev pub ping_of : Class → Option Method
ping_of no_class = none
ping_of (class_of _ first _ _) = some first

abbrev pub pong_of : Class → Option Method
pong_of no_class = none
pong_of (class_of _ _ second _) = some second

-- A call on an object. `C_ping` goes on to the `ping` of the superclass of the object's class, whatever
-- that is, so that calls take fuel: one for each call.
pub call : ℕ → Method → Object → Option (List Shown)
call zero f this = none
call (suc fuel) a_ping this = some (shown_a_ping this.i ∷ [])
call (suc fuel) a_pong this = some (shown_a_ping this.i ∷ [])
call (suc fuel) b_ping this = some (shown_b_ping this.i ∷ [])
call (suc fuel) b_wiff this = some (shown_b_wiff this.i ∷ [])
call (suc fuel) c_ping this = do
  super ← super_of this.class
  ping ← ping_of super
  rest ← call fuel ping this
  some (shown_c_ping_calls this.i this.id ∷ rest)

pub foo : ℕ → Object → Option (List Shown)
unfolding call
foo fuel a = do
  ping ← ping_of a.class
  pong ← pong_of a.class
  pinged ← call fuel ping a
  ponged ← call fuel pong a
  some (pinged ++ ponged)

pub bar : ℕ → Option (List Shown)
unfolding foo new_a new_b new_c
bar fuel = do
  a ← foo fuel (new_a 10)
  b ← foo fuel (new_b 20)
  c ← foo fuel (new_c 30 100)
  some (a ++ b ++ c)
