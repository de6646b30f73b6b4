-- ===== src/RequestNodes/Line.antt =====
-- A queue of nodes as the list of their addresses and contents, and the list of free nodes.
use cs213_assignments.Common.{
  ℕ, ◌≡◌, ◌≢◌, ◌∙◌, refl, ap, length, Bool, true, false, ◌||◌, Option, none, some, List, [], ◌∷◌,
  ◌++◌, arith, ◌==◌,
}
use cs213_assignments.RequestNodes.{Node}

abbrev pub has : ℕ → List ℕ → Bool
has a [] = false
has a (b ∷ xs) = a == b || has a xs

abbrev pub Distinct : List ℕ → Type 0
Distinct [] = Unit {0}
Distinct (a ∷ xs) = (has a xs ≡ false) × Distinct xs

pub has-append : (a : ℕ) (xs ys : List ℕ) → has a (xs ++ ys) ≡ (has a xs || has a ys)
has-append a [] ys = refl
has-append a (b ∷ xs) ys = ground (arith, has-append a xs ys)

-- An address can move to another place.
pub has-move : (b a : ℕ) (xs ys : List ℕ) → has b (xs ++ a ∷ ys) ≡ (b == a || has b (xs ++ ys))
has-move b a [] ys = refl
has-move b a (x ∷ xs) ys = ground (arith, has-move b a xs ys)

pub Distinct-move : (a : ℕ) (xs ys : List ℕ) → Distinct (a ∷ (xs ++ ys)) → Distinct (xs ++ a ∷ ys)
Distinct-move a [] ys d = d
Distinct-move a (x ∷ xs) ys d =
    (ground (arith, has-move x a xs ys), Distinct-move a xs ys (ground arith))

pub Distinct-pull : (a : ℕ) (xs ys : List ℕ) → Distinct (xs ++ a ∷ ys) → Distinct (a ∷ (xs ++ ys))
Distinct-pull a [] ys d = d
Distinct-pull a (x ∷ xs) ys d = ground (arith, has-move x a xs ys, Distinct-pull a xs ys (d.1))

-- An address stands on one side only.
pub Distinct-apart :
    (b : ℕ) (xs ys : List ℕ) → Distinct (xs ++ ys) → has b xs ≡ true → has b ys ≡ false
Distinct-apart b [] ys d h = cc
Distinct-apart b (x ∷ xs) ys d h = ground (arith, has-append x xs ys, Distinct-apart b xs ys (d.1))

pub Distinct-front : (xs ys : List ℕ) → Distinct (xs ++ ys) → Distinct xs
Distinct-front [] ys d = tt
Distinct-front (x ∷ xs) ys d = (ground (arith, has-append x xs ys), Distinct-front xs ys (d.1))

module _ {C : Type 0} where
  -- The free nodes, along `next`.
  abbrev pub Spare : (ℕ → Option (Node C)) → Option ℕ → List ℕ → Type 0
  Spare node p [] = p ≡ none
  Spare node p (a ∷ xs) = (n : Node C) × (p ≡ some a) × (node a ≡ some n) × Spare node n.next xs

  abbrev pub addresses : List (ℕ × C) → List ℕ
  addresses [] = []
  addresses ((a, c) ∷ xs) = a ∷ addresses xs

  abbrev pub contents : List (ℕ × C) → List C
  contents [] = []
  contents ((a, c) ∷ xs) = c ∷ contents xs

  pub length-contents : (xs : List (ℕ × C)) → length (contents xs) ≡ length (addresses xs)
  length-contents [] = refl
  length-contents (x ∷ xs) = omega (arith, length-contents xs)

  pub length-addresses : (xs : List (ℕ × C)) → length (addresses xs) ≡ length xs
  length-addresses [] = refl
  length-addresses (x ∷ xs) = omega (arith, length-addresses xs)

  pub addresses-append :
      (xs ys : List (ℕ × C)) → addresses (xs ++ ys) ≡ addresses xs ++ addresses ys
  addresses-append [] ys = refl
  addresses-append ((a, c) ∷ xs) ys = rw (addresses-append xs ys) refl

  pub contents-append : (xs ys : List (ℕ × C)) → contents (xs ++ ys) ≡ contents xs ++ contents ys
  contents-append [] ys = refl
  contents-append ((a, c) ∷ xs) ys = rw (contents-append xs ys) refl

  pub addresses-link :
      (a : ℕ) (c : C) (xs : List (ℕ × C)) (ys : List ℕ)
      → addresses (xs ++ (a, c) ∷ []) ++ ys ≡ addresses xs ++ a ∷ ys
  addresses-link a c [] ys = refl
  addresses-link a c ((b, d) ∷ xs) ys = ap (◌∷◌ b) (addresses-link a c xs ys)

  -- The queue, from its front along `prev`.
  abbrev pub Line : (ℕ → Option (Node C)) → Option ℕ → List (ℕ × C) → Type 0
  Line node p [] = p ≡ none
  Line node p ((a, c) ∷ xs) =
      (n : Node C) × (p ≡ some a) × (node a ≡ some n) × (n.content ≡ c) × Line node n.prev xs

  abbrev pub last_from : ℕ → List (ℕ × C) → ℕ
  last_from a [] = a
  last_from a ((b, c) ∷ xs) = last_from b xs

  abbrev pub last_of : List (ℕ × C) → Option ℕ
  last_of [] = none
  last_of ((a, c) ∷ xs) = some (last_from a xs)

  pub last_from-append : (a b : ℕ) (c : C) (xs : List (ℕ × C)) → last_from a (xs ++ (b, c) ∷ []) ≡ b
  last_from-append a b c [] = refl
  last_from-append a b c ((d, e) ∷ xs) = last_from-append d b c xs

  pub last_of-append : (b : ℕ) (c : C) (xs : List (ℕ × C)) → last_of (xs ++ (b, c) ∷ []) ≡ some b
  last_of-append b c [] = refl
  last_of-append b c ((d, e) ∷ xs) = rw (last_from-append d b c xs) refl

  pub has-last_from :
      (a : ℕ) (c : C) (xs : List (ℕ × C)) → has (last_from a xs) (addresses ((a, c) ∷ xs)) ≡ true
  has-last_from a c [] = ground arith
  has-last_from a c ((b, d) ∷ xs) = ground (arith, has-last_from b d xs)

  pub Line-frame :
      {node node' : ℕ → Option (Node C)} (p : Option ℕ) (xs : List (ℕ × C))
      → Line node p xs
      → ((a : ℕ)
          → has a (addresses xs) ≡ true
          → (n : Node C) → node a ≡ some n
          → (n' : Node C) × (node' a ≡ some n') × (n'.content ≡ n.content) × (n'.prev ≡ n.prev))
      → Line node' p xs
  Line-frame p [] h same = h
  Line-frame {node'} p ((a, c) ∷ xs) (n, e, at, is, rest) same =
      let (n', at', is', prev) = same a (ground arith) n at in
      (
        n',
        e,
        at',
        is' ∙ is,
        rw prev (Line-frame {node' = node'} n.prev xs rest λ b i. same b (ground arith)),
      )

  pub Spare-frame :
      {node node' : ℕ → Option (Node C)} (p : Option ℕ) (xs : List ℕ)
      → Spare node p xs
      → ((a : ℕ)
          → has a xs ≡ true
          → (n : Node C) → node a ≡ some n
          → (n' : Node C) × (node' a ≡ some n') × (n'.next ≡ n.next))
      → Spare node' p xs
  Spare-frame p [] h same = h
  Spare-frame {node'} p (a ∷ xs) (n, e, at, rest) same =
      let (n', at', is) = same a (ground arith) n at in
      (n', e, at', rw is (Spare-frame {node' = node'} n.next xs rest λ b i. same b (ground arith)))

  -- The last node has no `prev`, and gets one when a node is linked behind it.
  pub relink_last :
      {node : ℕ → Option (Node C)} (p : Option ℕ) (a : ℕ) (c : C) (xs : List (ℕ × C))
      → Line node p ((a, c) ∷ xs)
      → Distinct (addresses ((a, c) ∷ xs))
      → (n : Node C) × (node (last_from a xs) ≡ some n)
        × ((node' : ℕ → Option (Node C)) (s : ℕ) (m : Node C)
            → node' (last_from a xs) ≡ some (record n { prev = some s })
            → ((b : ℕ)
                → has b (addresses ((a, c) ∷ xs)) ≡ true
                → b ≢ last_from a xs
                → node' b ≡ node b)
            → node' s ≡ some m
            → m.prev ≡ none
            → Line node' p (((a, c) ∷ xs) ++ (s, m.content) ∷ []))
  relink_last p a c [] (n, e, at, is, rest) d = (
    n,
    at,
    λ node' s m last same at_s end.
        (record n { prev = some s }, e, last, is, (m, refl, at_s, refl, end)),
  )
  relink_last p a c ((b, c') ∷ xs) (n, e, at, is, rest) d =
      let (m, at_last, linked) = relink_last n.prev b c' xs rest (d.1) in
      let apart : a ≢ last_from b xs = ground (arith, d.0, has-last_from b c' xs) in
      (
        m,
        at_last,
        λ node' s new last same at_s end. (
          n,
          e,
          ground (arith, same a, apart),
          is,
          linked node' s new last (λ b' i. same b' (ground arith)) at_s end,
        ),
      )
