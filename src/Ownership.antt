-- ===== src/Ownership.antt =====
-- What the lists and trees of elements rely on when they keep and let go of elements: an interface
-- that the reference counting of a7/q3 and that of a5/q3 fill.
use cs213_assignments.Common.{ℕ, ◌<◌, ◌≡◌, Option, some, List, ◌∷◌}
use cs213_assignments.RefCount.Counts.{count}

-- `Owns h refs`: the references to the elements of `h` are those in the list.
pub record Ownership {H V : Type 0} (keep release : ℕ → H → Option H) (content : ℕ → H → Option V)
    : Type 1 where
  pub Owns : H → List ℕ → Type 0
  -- What has a reference can be read.
  pub owned_content :
      {h : H} {refs : List ℕ}
      → Owns h refs
      → (a : ℕ) → 0 < count a refs
      → (v : V) × (content a h ≡ some v)
  pub same_counts :
      {h : H} {refs refs' : List ℕ}
      → Owns h refs
      → ((a : ℕ) → count a refs ≡ count a refs')
      → Owns h refs'
  pub keep_owned :
      (a : ℕ) {h : H} {refs : List ℕ}
      → Owns h refs
      → 0 < count a refs
      → (h' : H) × (keep a h ≡ some h')
        × Owns h' (a ∷ refs)
        × ((x : ℕ) → content x h' ≡ content x h)
  pub release_owned :
      (a : ℕ) {h : H} {refs : List ℕ}
      → Owns h (a ∷ refs)
      → (h' : H) × (release a h ≡ some h')
        × Owns h' refs
        × ((x : ℕ) → 0 < count x refs → content x h' ≡ content x h)
