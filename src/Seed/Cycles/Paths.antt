-- ===== src/Seed/Cycles/Paths.antt =====
-- Walks along the parent edges that are kept.
use urbanist_atlas.Base.{◌≡◌, Bool, true, [], Bytes, bytes_eq, find_or, In}
use urbanist_atlas.Seed.Cycles.{Parents}

-- `p` is a parent of `slug` that the search walks to.
abbrev pub Edge : (Bytes → Bool) → Parents → Bytes → Bytes → Type 0
Edge keep parents slug p = In p (find_or slug parents []) × (keep p ≡ true)

-- A walk of one edge or more.
pub data Above (keep : Bytes → Bool) (parents : Parents) (slug : Bytes) : Bytes → Type 0 where
  one : {p : Bytes} → Edge keep parents slug p → Above keep parents slug p
  more :
      {p q : Bytes} → Above keep parents slug p → Edge keep parents p q → Above keep parents slug q

-- A walk of any length.
pub data Reached (keep : Bytes → Bool) (parents : Parents) (slug : Bytes) : Bytes → Type 0 where
  here : Reached keep parents slug slug
  step :
      {p q : Bytes}
      → Reached keep parents slug p
      → Edge keep parents p q
      → Reached keep parents slug q

-- Every walk that starts at the slug ends.
pub data Ends (keep : Bytes → Bool) (parents : Parents) : Bytes → Type 0 where
  ends :
      {slug : Bytes}
      → ((p : Bytes) → Edge keep parents slug p → Ends keep parents p)
      → Ends keep parents slug

module _ (keep : Bytes → Bool) (parents : Parents) where
  pub Ends-parent :
      (slug p : Bytes) → Ends keep parents slug → Edge keep parents slug p → Ends keep parents p
  Ends-parent slug p (ends f) e = f p e

  pub Ends-Reached :
      (slug t : Bytes) → Ends keep parents slug → Reached keep parents slug t → Ends keep parents t
  Ends-Reached slug t h here = h
  Ends-Reached slug t h (step {p = p} r e) = Ends-parent p t (Ends-Reached slug p h r) e

  Above-cons :
      (s p t : Bytes) → Edge keep parents s p → Above keep parents p t → Above keep parents s t
  Above-cons s p t e (one f) = more (one e) f
  Above-cons s p t e (more {p = q} a f) = more (Above-cons s p q e a) f

  -- The first edge of a walk.
  pub Above-first :
      (s t : Bytes)
      → Above keep parents s t
      → (p : Bytes) × Edge keep parents s p × Reached keep parents p t
  Above-first s t (one e) = (t, e, here)
  Above-first s t (more {p = q} a e) = let (p, f, r) = Above-first s q a in (p, f, step r e)

  Above-Reached :
      (s p t : Bytes) → Above keep parents s p → Reached keep parents p t → Above keep parents s t
  Above-Reached s p t a here = a
  Above-Reached s p t a (step {p = q} w e) = more (Above-Reached s p q a w) e

  Reached-Edge :
      (s p t : Bytes) → Reached keep parents s p → Edge keep parents p t → Above keep parents s t
  Reached-Edge s p t here f = one f
  Reached-Edge s p t (step {p = q} r e) f = more (Reached-Edge s q p r e) f

  -- Where every walk ends, none comes back to its start.
  pub Ends-no_cycle : (s : Bytes) → Ends keep parents s → ¬ Above keep parents s s
  Ends-no_cycle s (ends f) a =
      let (p, e, r) = Above-first s s a in Ends-no_cycle p (f p e) (Reached-Edge p s p r e)
