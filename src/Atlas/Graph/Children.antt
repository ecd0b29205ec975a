-- ===== src/Atlas/Graph/Children.antt =====
-- buildChildrenOf, and walks down and up.
use urbanist_atlas.Base.{
  ℕ, ◌≡◌, ◌⊎◌, inl, inr, ◌↔◌, true, List, [], ◌∷◌, ◌++◌, arith, nat_eq, nat_eqb_iff, Table, find,
  find_or, put, find_or-put, In, In-concat, Distinct, map,
}
use urbanist_atlas.Atlas.Store.{MemStore}
use urbanist_atlas.Atlas.Graph.{walkable, add_child, children_loop, build_children_of}
use urbanist_atlas.Atlas.Graph.Reach.{Reach, here, step}

In-add_child :
    (child p x : ℕ) (ps : List ℕ) (out : Table ℕ (List ℕ))
    → In x (find_or p (add_child child ps out) [])
      ↔ (In x (find_or p out []) ⊎ (x ≡ child) × In p ps)
unfolding add_child
In-add_child child p x [] out = ground arith
In-add_child child p x (q ∷ ps) out = ground (
  arith,
  In-add_child child p x ps (put q (find_or q out [] ++ child ∷ []) out),
  find_or-put q p (find_or q out [] ++ child ∷ []) [] out,
  In-concat x child (find_or q out []),
)

-- An entry of the parents map.
abbrev pub Entry : Table ℕ (List ℕ) → ℕ → ℕ → Type 0
Entry [] child p = ⊥
Entry ((c, ps) ∷ t) child p = (child ≡ c) × In p ps ⊎ Entry t child p

In-children_loop :
    (p x : ℕ) (t out : Table ℕ (List ℕ))
    → In x (find_or p (children_loop t out) []) ↔ (In x (find_or p out []) ⊎ Entry t x p)
unfolding children_loop
In-children_loop p x [] out = ground arith
In-children_loop p x ((c, ps) ∷ t) out =
    ground (arith, In-children_loop p x t (add_child c ps out), In-add_child c p x ps out)

-- With one entry for each key, the entries are what a lookup finds.
abbrev pub edge_keys : Table ℕ (List ℕ) → List ℕ
edge_keys = map (λ e. e.0)

Entry-key : (t : Table ℕ (List ℕ)) (c p : ℕ) → Entry t c p → In c (edge_keys t)
Entry-key [] c p h = h
Entry-key ((d, ps) ∷ t) c p (inl (e, m)) = inl e
Entry-key ((d, ps) ∷ t) c p (inr h) = inr (Entry-key t c p h)

Entry-find_or :
    (t : Table ℕ (List ℕ)) (c p : ℕ) → Distinct (edge_keys t) → Entry t c p ↔ In p (find_or c t [])
unfolding find_or find
Entry-find_or [] c p d = (λ h. h, λ h. h)
Entry-find_or ((e, ps) ∷ t) c p d =
    ground (arith, Entry-find_or t c p d.1, Entry-key t c p, nat_eqb_iff e c)

-- The children of a region are the regions that have it as a parent.
pub In-build_children_of :
    (s : MemStore) (p x : ℕ)
    → Distinct (edge_keys s.parents)
    → In x (find_or p (build_children_of s) []) ↔ In p (find_or x s.parents [])
unfolding build_children_of find_or find
In-build_children_of s p x d =
    ground (arith, In-children_loop p x s.parents [], Entry-find_or s.parents x p d)

module _ (s : MemStore) (d : Distinct (edge_keys s.parents)) where
  Reach-walkable_start :
      (adj : Table ℕ (List ℕ)) (start : ℕ) {v : ℕ} → Reach s adj start v → walkable s start ≡ true
  Reach-walkable_start adj start (here w) = w
  Reach-walkable_start adj start (step r m w) = Reach-walkable_start adj start r

  Reach-walkable_end :
      (adj : Table ℕ (List ℕ)) (start : ℕ) {v : ℕ} → Reach s adj start v → walkable s v ≡ true
  Reach-walkable_end adj start (here w) = w
  Reach-walkable_end adj start (step r m w) = w

  -- An edge in front of a walk.
  Reach-prepend :
      (adj : Table ℕ (List ℕ)) (a b : ℕ) {v : ℕ}
      → walkable s a ≡ true
      → In b (find_or a adj [])
      → Reach s adj b v
      → Reach s adj a v
  Reach-prepend adj a b w m (here h) = step (here w) m h
  Reach-prepend adj a b w m (step r k h) = step (Reach-prepend adj a b w m r) k h

  up_of_down : (a : ℕ) {b : ℕ} → Reach s (build_children_of s) a b → Reach s s.parents b a
  up_of_down a (here w) = here w
  up_of_down a (step {u} {v} r m w) =
      Reach-prepend s.parents v u w ((In-build_children_of s u v d).0 m) (up_of_down a r)

  down_of_up : (b : ℕ) {a : ℕ} → Reach s s.parents b a → Reach s (build_children_of s) a b
  down_of_up b (here w) = here w
  down_of_up b (step {u} {v} r m w) =
      Reach-prepend (build_children_of s) v u w ((In-build_children_of s v u d).1 m)
        (down_of_up b r)

  -- With one entry for each child among the parents, a region is among the descendants of another exactly
  -- when that is among its ancestors.
  pub descendant_iff_ancestor :
      (a b : ℕ) → Reach s (build_children_of s) a b ↔ Reach s s.parents b a
  descendant_iff_ancestor a b = (up_of_down a, down_of_up b)
