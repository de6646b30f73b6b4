-- ===== src/RefCount/Mapped.antt =====
-- References to what is reached from other references.
use cs213_assignments.Common.{
  ℕ, ◌<◌, ◌≡◌, refl, ap, List, [], ◌∷◌, map, arith, ◌==◌, if◌then◌else◌, update,
}
use cs213_assignments.RefCount.Counts.{count}

pub count-map :
    (f : ℕ → ℕ) (a : ℕ) (refs : List ℕ) → 0 < count a refs → 0 < count (f a) (map f refs)
count-map f a [] p = absurd (omega arith)
count-map f a (x ∷ refs) p = ground (arith, count-map f a refs, ap f)

-- A change of the function at an address without references changes nothing.
pub count-map-update :
    (e s x : ℕ) (value : ℕ → ℕ) (refs : List ℕ)
    → count e refs ≡ 0
    → count x (map (update value e s) refs) ≡ count x (map value refs)
count-map-update e s x value [] out = refl
count-map-update e s x value (a ∷ refs) out = ground (arith, count-map-update e s x value refs)

-- One reference less.
remove : ℕ → List ℕ → List ℕ
remove a [] = []
remove a (x ∷ xs) = let rest = remove a xs in if a == x then xs else x ∷ rest

count-remove : (a x : ℕ) (xs : List ℕ) → 0 < count a xs → count x (a ∷ remove a xs) ≡ count x xs
unfolding remove
count-remove a x [] p = absurd (omega arith)
count-remove a x (y ∷ ys) p = ground (arith, count-remove a x ys)

count-map-remove :
    (f : ℕ → ℕ) (a x : ℕ) (xs : List ℕ)
    → 0 < count a xs
    → count x (f a ∷ map f (remove a xs)) ≡ count x (map f xs)
unfolding remove
count-map-remove f a x [] p = absurd (omega arith)
count-map-remove f a x (y ∷ ys) p = ground (arith, count-map-remove f a x ys, ap f)

pub count-map-same :
    (f : ℕ → ℕ) (xs ys : List ℕ)
    → ((a : ℕ) → count a xs ≡ count a ys)
    → (x : ℕ) → count x (map f xs) ≡ count x (map f ys)
count-map-same f [] [] same x = refl
count-map-same f [] (y ∷ ys) same x = absurd (ground (arith, same y))
count-map-same f (a ∷ xs) ys same x =
    let there : 0 < count a ys = ground (arith, same a) in
    ground (
      arith,
      count-map-same f xs (remove a ys) (λ y. ground (arith, same y, count-remove a y ys there)) x,
      count-map-remove f a x ys there,
    )
