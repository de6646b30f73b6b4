-- ===== src/ElementList/Segment.antt =====
-- The nodes of a7/q3/list.c as lists of addresses with their elements.
use cs213_assignments.Common.{
  ℕ, ◌≡◌, refl, Bool, true, false, ◌||◌, Option, some, List, [], ◌∷◌, ◌++◌, arith, ◌==◌, update,
  update_self, update-ne,
}
use cs213_assignments.ElementList.{ListNode}

abbrev pub node_of : ℕ → Option ℕ → Option ℕ → ListNode
node_of e p q = record { elem = e; prev = p; next = q }

-- From the first node to the last one, doubly linked, between the nodes `before` and `after`.
pub data Segment (node : ℕ → Option ListNode)
    : (before first last after : Option ℕ) → List (ℕ × ℕ) → Type 0 where
  nil : {p q : Option ℕ} → Segment node p q p q []
  cons :
      {p f l q : Option ℕ} {a e : ℕ} {xs : List (ℕ × ℕ)}
      → node a ≡ some (node_of e p f)
      → Segment node (some a) f l q xs
      → Segment node p (some a) l q ((a, e) ∷ xs)

abbrev pub has : ℕ → List (ℕ × ℕ) → Bool
has a [] = false
has a ((b, e) ∷ xs) = a == b || has a xs

abbrev pub Distinct : List (ℕ × ℕ) → Type 0
Distinct [] = Unit {0}
Distinct ((a, e) ∷ xs) = (has a xs ≡ false) × Distinct xs

pub has-append : (a : ℕ) (xs ys : List (ℕ × ℕ)) → has a (xs ++ ys) ≡ (has a xs || has a ys)
has-append a [] ys = refl
has-append a ((b, e) ∷ xs) ys = ground (arith, has-append a xs ys)

pub frame :
    {node node' : ℕ → Option ListNode} {p f l q : Option ℕ} {xs : List (ℕ × ℕ)}
    → Segment node p f l q xs
    → ((a : ℕ) → has a xs ≡ true → node' a ≡ node a)
    → Segment node' p f l q xs
frame nil same = nil
frame (cons {a} e rest) same =
    cons (ground (arith, same a)) (frame rest λ b i. same b (ground arith))

module _ {node : ℕ → Option ListNode} where
  pub join :
      {p f m r l q : Option ℕ} {xs ys : List (ℕ × ℕ)}
      → Segment node p f m r xs
      → Segment node m r l q ys
      → Segment node p f l q (xs ++ ys)
  join nil t = t
  join (cons e s) t = cons e (join s t)

  pub split :
      (xs : List (ℕ × ℕ)) {ys : List (ℕ × ℕ)} {p f l q : Option ℕ}
      → Segment node p f l q (xs ++ ys)
      → (m r : Option ℕ) × Segment node p f m r xs × Segment node m r l q ys
  split [] {p} {f} s = (p, f, nil, s)
  split ((a, e) ∷ xs) (cons h s) = let (m, r, t, u) = split xs s in (m, r, cons h t, u)

  -- The last node of a segment can be linked to another one behind it.
  pub relink_next :
      {p f m r : Option ℕ} {xs : List (ℕ × ℕ)} (x : ℕ × ℕ)
      → Segment node p f m r (x ∷ xs)
      → Distinct (x ∷ xs)
      → (b : ℕ) × (n : ListNode) × (m ≡ some b)
        × (node b ≡ some n)
        × (n.next ≡ r)
        × (has b (x ∷ xs) ≡ true)
        × ((r' : Option ℕ)
            → Segment (update node b (some (record n { next = r' }))) p f m r' (x ∷ xs))
  relink_next (a, e) (cons {p} h nil) d =
      (a, node_of e p _, refl, h, refl, ground arith, λ r'. cons (update_self node a _) nil)
  relink_next {xs = y ∷ xs} (a, e) (cons h s) d =
      let (b, n, last, there, next, i, to) = relink_next y s d.1 in
      (b, n, last, there, next, ground (arith, i), λ r'. cons (ground (arith, h, i, d.0)) (to r'))

  -- The first node of a segment can be linked to another one in front of it.
  pub relink_prev :
      {p f l q : Option ℕ} {xs : List (ℕ × ℕ)} (x : ℕ × ℕ)
      → Segment node p f l q (x ∷ xs)
      → Distinct (x ∷ xs)
      → (b : ℕ) × (n : ListNode) × (f ≡ some b)
        × (node b ≡ some n)
        × (n.prev ≡ p)
        × (b ≡ x.0)
        × ((p' : Option ℕ)
            → Segment (update node b (some (record n { prev = p' }))) p' f l q (x ∷ xs))
  relink_prev (a, e) (cons {p} {f} h s) d = (
    a,
    node_of e p f,
    refl,
    h,
    refl,
    refl,
    λ p'. cons (update_self node a _) (frame s λ b i. update-ne node a b _ (ground (arith, d.0))),
  )
