-- ===== src/ListAndTree/Walk.antt =====
-- The walk over the list meets its elements in order.
use cs213_assignments.Common.{
  ℕ, zero, suc, ◌<◌, ◌≡◌, refl, ◌∙◌, ap, fun_ext, Option, none, some, List, [], ◌∷◌, ◌++◌, length,
  arith, ◌>>=◌,
}
use cs213_assignments.ElementList.{ElementList, list_node_get_next, list_node_get_element}
use cs213_assignments.ElementList.Segment.{Segment, nil, cons, node_of}
use cs213_assignments.ElementList.Laws.{IsList}
use cs213_assignments.ListAndTree.{for_nodes}

-- The elements of the nodes.
abbrev pub elems : List (ℕ × ℕ) → List ℕ
elems [] = []
elems ((a, e) ∷ xs) = e ∷ elems xs

pub elems-append : (xs ys : List (ℕ × ℕ)) → elems (xs ++ ys) ≡ elems xs ++ elems ys
elems-append [] ys = refl
elems-append ((a, e) ∷ xs) ys = rw (elems-append xs ys)

module _ {S : Type 0} (body : ℕ → S → Option S) where
  -- The body at each element.
  unfoldable pub each_of : List ℕ → S → Option S
  each_of [] s = some s
  each_of (e ∷ es) s = do s ← body e s; each_of es s

  for_nodes-node :
      (fuel a e : ℕ) (p r : Option ℕ) (l : ElementList) (s : S)
      → l.node a ≡ some (node_of e p r)
      → for_nodes (suc fuel) (some a) l body s ≡ (body e s >>= for_nodes fuel r l body)
  unfolding for_nodes list_node_get_element list_node_get_next
  for_nodes-node fuel a e p r l s here = rw here

  for_nodes-Segment :
      (fuel : ℕ) (l : ElementList) {p f t : Option ℕ} {xs : List (ℕ × ℕ)} (s : S)
      → Segment l.node p f t none xs
      → length xs < fuel
      → for_nodes fuel f l body s ≡ each_of (elems xs) s
  unfolding for_nodes each_of
  for_nodes-Segment zero l s seg enough = absurd (omega arith)
  for_nodes-Segment (suc fuel) l s nil enough = refl
  for_nodes-Segment (suc fuel) l {p} s (cons {f = r} {a = a} {e = e} here rest) enough =
      for_nodes-node fuel a e p r l s here
      ∙ ap (λ k. body e s >>= k) (fun_ext λ s'. for_nodes-Segment fuel l s' rest (omega arith))

  -- With a round for each node and one more, the loop runs its body at each element, in order.
  pub for_nodes-each_of :
      (fuel : ℕ) {l : ElementList} {xs : List (ℕ × ℕ)} (s : S)
      → IsList l xs
      → length xs < fuel
      → for_nodes fuel l.head l body s ≡ each_of (elems xs) s
  for_nodes-each_of fuel {l} s i enough = for_nodes-Segment fuel l s i.segment enough
