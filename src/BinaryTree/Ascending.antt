-- ===== src/BinaryTree/Ascending.antt =====
-- The program a4/BinaryTree.c prints its arguments in ascending order.
use mathlib.Core.Bool.{Bool-set}
use mathlib.Core.List.{
  append-nil, Perm, Pairwise, Mem, Pairwise-append, perm_middle, forall_mem-cons, not-mem-nil,
  mem-cons_self, mem-cons_of_mem,
}
use mathlib.Core.List.Pairwise.{of_cons}
use mathlib.Core.List.Perm
use cs213_assignments.Common.{
  ◌≡◌, sym, subst, ◌↔◌, true, false, Bool-cases, inl, inr, List, [], ◌∷◌, ◌++◌, map, arith,
}
use cs213_assignments.Common.Int.{ℤ}
use cs213_assignments.BinaryTree.{
  Node, node, Child, null, to, is_at_most, create, insert, insert_below, print_in_order,
  print_below, insert_all, main,
}

abbrev pub AtMost : ℤ → ℤ → Type 0
AtMost a b = is_at_most a b ≡ true

AtMost-trans : (a b c : ℤ) → AtMost a b → AtMost b c → AtMost a c
AtMost-trans a b c p q = ground (arith, p, q)

AtMost-total : (a b : ℤ) → is_at_most a b ≡ false → AtMost b a
AtMost-total a b p = ground (arith, p)

-- The insertion to the left and to the right of a node.
insert-left :
    (value : ℤ) (left right : Child) (x : ℤ)
    → AtMost x value
    → insert (node value left right) (create x) ≡ node value (insert_below left (create x)) right
unfolding insert create
insert-left value left right x le = rw (insert, create, le)

insert-right :
    (value : ℤ) (left right : Child) (x : ℤ)
    → is_at_most x value ≡ false
    → insert (node value left right) (create x) ≡ node value left (insert_below right (create x))
unfolding insert create
insert-right value left right x above = rw (insert, create, above)

mutual
  unfolding insert_below create print_below print_in_order

  insert-Perm :
      (m : Node) (x : ℤ) → Perm (x ∷ print_in_order m) (print_in_order (insert m (create x)))
  insert-Perm (node value left right) x = elim (Bool-cases (is_at_most x value)) [
    | inl le ↦
        subst (λ t. Perm (x ∷ print_in_order (node value left right)) (print_in_order t))
          (sym (insert-left value left right x le))
          (Perm.append_right (value ∷ print_below right) (insert_below-Perm left x))
    | inr above ↦
        subst (λ t. Perm (x ∷ print_in_order (node value left right)) (print_in_order t))
          (sym (insert-right value left right x above))
          (Perm.trans (Perm.symm (perm_middle (print_below left) (value ∷ print_below right))) (
            Perm.append_left (print_below left) (
              Perm.trans (Perm.swap value x (print_below right))
                (Perm.cons value (insert_below-Perm right x)))))
  ]

  insert_below-Perm :
      (c : Child) (x : ℤ) → Perm (x ∷ print_below c) (print_below (insert_below c (create x)))
  insert_below-Perm null x = Perm.rfl
  insert_below-Perm (to m) x = insert-Perm m x

ascending-append :
    {xs ys : List ℤ}
    → Pairwise AtMost (xs ++ ys) ↔ (
        Pairwise AtMost xs
        × Pairwise AtMost ys
        × ((a : ℤ) → Mem a xs → (b : ℤ) → Mem b ys → AtMost a b))
ascending-append {xs} {ys} = Pairwise-append (λ a b. Bool-set _ _) {l₁ = xs} {l₂ = ys}

below_head : {v : ℤ} {vs : List ℤ} → Pairwise AtMost (v ∷ vs) → (c : ℤ) → Mem c vs → AtMost v c
below_head (Pairwise.cons first rest) = first

-- A number between two ascending halves, of which one has got a new number.
all_of :
    (P : ℤ → Type 0) (prop : (a : ℤ) → IsProp (P a)) (v : ℤ) (vs : List ℤ)
    → P v
    → ((a : ℤ) → Mem a vs → P a)
    → (a : ℤ) → Mem a (v ∷ vs)
    → P a
all_of P prop v vs first rest = (forall_mem-cons prop).1 (first, rest)

joined_left :
    (x value : ℤ) (ls ls' rs : List ℤ)
    → AtMost x value
    → Perm (x ∷ ls) ls'
    → Pairwise AtMost ls'
    → Pairwise AtMost (ls ++ value ∷ rs)
    → Pairwise AtMost (ls' ++ value ∷ rs)
joined_left x value ls ls' rs le perm p whole =
    let (_, right, across) = ascending-append.0 whole in
    let x_below =
      all_of (AtMost x) (λ b. Bool-set _ _) value rs le
        (λ c k. AtMost-trans x value c le (below_head right c k)) in
    ascending-append.1 (
      p,
      right,
      λ a m b n.
          all_of (λ c. AtMost c b) (λ c. Bool-set _ _) x ls (x_below b n) (λ c k. across c k b n) a
            ((Perm.mem_iff perm).1 m),
    )

joined_right :
    (x value : ℤ) (ls rs rs' : List ℤ)
    → AtMost value x
    → Perm (x ∷ rs) rs'
    → Pairwise AtMost rs'
    → Pairwise AtMost (ls ++ value ∷ rs)
    → Pairwise AtMost (ls ++ value ∷ rs')
joined_right x value ls rs rs' le perm p whole =
    let (left, right, across) = ascending-append.0 whole in
    let new : (P : ℤ → Type 0)
        → ((c : ℤ) → IsProp (P c))
        → P x
        → ((c : ℤ) → Mem c rs → P c)
        → (c : ℤ) → Mem c rs'
        → P c =
      λ P prop first rest c k. all_of P prop x rs first rest c ((Perm.mem_iff perm).1 k) in
    let here : (a : ℤ) → Mem a ls → AtMost a value = λ a m. across a m value mem-cons_self in
    ascending-append.1 (
      left,
      Pairwise.cons (new (AtMost value) (λ c. Bool-set _ _) le (below_head right)) p,
      λ a m.
          all_of (AtMost a) (λ c. Bool-set _ _) value rs' (here a m)
            (new (AtMost a) (λ c. Bool-set _ _) (AtMost-trans a value x (here a m) le)
              (λ c k. across a m c (mem-cons_of_mem value k))),
    )

mutual
  unfolding insert_below create print_below print_in_order

  insert-ascending :
      (m : Node) (x : ℤ)
      → Pairwise AtMost (print_in_order m)
      → Pairwise AtMost (print_in_order (insert m (create x)))
  insert-ascending (node value left right) x p =
      let (ls, rest, across) = ascending-append.0 p in
      elim (Bool-cases (is_at_most x value)) [
        | inl le ↦
            subst (λ t. Pairwise AtMost (print_in_order t))
              (sym (insert-left value left right x le))
              (joined_left x value (print_below left) (print_below (insert_below left (create x)))
                (print_below right) le (insert_below-Perm left x) (insert_below-ascending left x ls)
                p)
        | inr above ↦
            subst (λ t. Pairwise AtMost (print_in_order t))
              (sym (insert-right value left right x above))
              (joined_right x value (print_below left) (print_below right)
                (print_below (insert_below right (create x))) (AtMost-total x value above)
                (insert_below-Perm right x) (insert_below-ascending right x (of_cons rest)) p)
      ]

  insert_below-ascending :
      (c : Child) (x : ℤ)
      → Pairwise AtMost (print_below c)
      → Pairwise AtMost (print_below (insert_below c (create x)))
  insert_below-ascending null x p = Pairwise.cons (λ a m. absurd (not-mem-nil m)) Pairwise.nil
  insert_below-ascending (to m) x p = insert-ascending m x p

insert_all-ascending :
    {A : Type 0} (atoi : A → ℤ) (args : List A) (root : Node)
    → Pairwise AtMost (print_in_order root)
    → Pairwise AtMost (print_in_order (insert_all atoi args root))
      × Perm (map atoi args ++ print_in_order root) (print_in_order (insert_all atoi args root))
unfolding insert_all
insert_all-ascending atoi [] root p = (p, Perm.rfl)
insert_all-ascending atoi (arg ∷ args) root p =
    let x = atoi arg in
    let (ascending, perm) =
      insert_all-ascending atoi args (insert root (create x)) (insert-ascending root x p) in
    (
      ascending,
      Perm.trans (Perm.symm (perm_middle (map atoi args) (print_in_order root)))
          (Perm.trans (Perm.append_left (map atoi args) (insert-Perm root x)) perm),
    )

-- The program prints the numbers of its arguments in ascending order, each as often as it is given.
pub main-Pairwise :
    {A : Type 0} (atoi : A → ℤ) (arg : A) (args : List A)
    → Pairwise AtMost (main atoi arg args) × Perm (map atoi (arg ∷ args)) (main atoi arg args)
unfolding main create print_in_order print_below
main-Pairwise atoi arg args =
    let (ascending, perm) =
      insert_all-ascending atoi args (create (atoi arg))
        (Pairwise.cons (λ a m. absurd (not-mem-nil m)) Pairwise.nil) in
    (
      ascending,
      Perm.trans
          (Perm.symm (
            Perm.trans (perm_middle (map atoi args) []) (
              Perm.cons (atoi arg) (
                subst (λ vs. Perm vs (map atoi args)) (sym (append-nil (map atoi args)))
                  Perm.rfl))))
          perm,
    )
