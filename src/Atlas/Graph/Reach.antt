-- ===== src/Atlas/Graph/Reach.antt =====
-- The relation that bfsCollectIDs decides, and the invariant of its loop.
use urbanist_atlas.Base.{
  ℕ, zero, suc, ◌+◌, ◌≤◌, ◌≡◌, refl, subst, ◌⊎◌, inl, inr, true, false, List, [], ◌∷◌, ◌++◌, some,
  arith, nat_eq, Table, find, find_or, member, member_iff, length, length-append, In, In-append,
  In-concat, Distinct, Distinct-concat, Bool-cases, some_inj, Option-cases,
}
use urbanist_atlas.Atlas.Types.{Region}
use urbanist_atlas.Atlas.Store.{MemStore}
use urbanist_atlas.Atlas.Graph.{walkable, bfs_loop, edges_left}

-- A walk along `adj` from `start` over regions that are registered and not national.
pub data Reach (s : MemStore) (adj : Table ℕ (List ℕ)) (start : ℕ) : ℕ → Type 0 where
  here : walkable s start ≡ true → Reach s adj start start
  step :
      {u v : ℕ}
      → Reach s adj start u
      → In v (find_or u adj [])
      → walkable s v ≡ true
      → Reach s adj start v

module _ (s : MemStore) (adj : Table ℕ (List ℕ)) (start : ℕ) where
  pub record Inv (visited out queue : List ℕ) : Type 0 where
    pub queued :
        (v : ℕ)
        → In v queue
        → (v ≡ start) ⊎ ((u : ℕ) × Reach s adj start u × In v (find_or u adj []))
    pub sound : (v : ℕ) → In v out → Reach s adj start v
    pub seen : (v : ℕ) → In v out → In v visited
    pub kept : (v : ℕ) → In v visited → walkable s v ≡ true → In v out
    pub closed : (u v : ℕ) → In u out → In v (find_or u adj []) → In v visited ⊎ In v queue
    pub source : In start visited ⊎ In start queue
    pub distinct : Distinct out

  Reach-queued :
      (v : ℕ)
      → ((v ≡ start) ⊎ ((u : ℕ) × Reach s adj start u × In v (find_or u adj [])))
      → walkable s v ≡ true
      → Reach s adj start v
  Reach-queued v (inl e) w = rw e (here (rw e at w))
  Reach-queued v (inr (u, r, m)) w = step r m w

  pub Inv-start : Inv [] [] (start ∷ [])
  Inv-start = record {
    queued = λ v m. ground arith;
    sound = λ v m. elim m [ ];
    seen = λ v m. elim m [ ];
    kept = λ v m w. elim m [ ];
    closed = λ u v m e. elim m [ ];
    source = inr (inl refl);
    distinct = tt;
  }

  module _ (id : ℕ) (visited out rest : List ℕ) (h : Inv visited out (id ∷ rest)) where
    -- `continue` on a visited id
    Inv-skip : In id visited → Inv visited out rest
    Inv-skip old = record {
      queued = λ v m. h.queued v (inr m);
      sound = h.sound;
      seen = h.seen;
      kept = h.kept;
      closed = λ u v m e. ground (arith, h.closed u v m e);
      source = ground (arith, h.source);
      distinct = h.distinct;
    }

    -- a region that is not collected
    Inv-drop : walkable s id ≡ false → Inv (id ∷ visited) out rest
    Inv-drop dead = record {
      queued = λ v m. h.queued v (inr m);
      sound = h.sound;
      seen = λ v m. inr (h.seen v m);
      kept = λ v m w. ground (arith, h.kept v);
      closed = λ u v m e. ground (arith, h.closed u v m e);
      source = ground (arith, h.source);
      distinct = h.distinct;
    }

    -- a region that is collected and expanded
    Inv-visit :
        ¬ In id visited
        → walkable s id ≡ true
        → Inv (id ∷ visited) (out ++ id ∷ []) (rest ++ find_or id adj [])
    Inv-visit new live =
        let reached = Reach-queued id (h.queued id (inl refl)) live in
        record {
          queued = λ v m. elim ((In-append v rest (find_or id adj [])).0 m) [
            | inl old ↦ h.queued v (inr old)
            | inr edge ↦ inr (id, reached, edge)
          ];
          sound = λ v m. elim ((In-concat v id out).0 m) [
            | inl old ↦ h.sound v old
            | inr e ↦ rw e reached
          ];
          seen = λ v m. ground (arith, In-concat v id out, h.seen v);
          kept = λ v m w. ground (arith, In-concat v id out, h.kept v);
          closed = λ u v m e.
              ground
                (arith, In-concat u id out, h.closed u v, In-append v rest (find_or id adj []));
          source = ground (arith, h.source, In-append start rest (find_or id adj []));
          distinct = Distinct-concat id out h.distinct (λ m. new (h.seen id m));
        }

  -- The invariant holds when the loop returns, with nothing left to visit.
  pub bfs_loop-Inv :
      (fuel : ℕ) (visited out queue r : List ℕ)
      → Inv visited out queue
      → bfs_loop s adj fuel visited out queue ≡ some r
      → (v : List ℕ) × Inv v r []
  unfolding bfs_loop
  bfs_loop-Inv zero visited out [] r h e = (visited, subst (λ o. Inv visited o []) (some_inj e) h)
  bfs_loop-Inv zero visited out (id ∷ rest) r h e = cc
  bfs_loop-Inv (suc fuel) visited out [] r h e =
      (visited, subst (λ o. Inv visited o []) (some_inj e) h)
  bfs_loop-Inv (suc fuel) visited out (id ∷ rest) r h e = elim (Bool-cases (member id visited)) [
    | inl old ↦
        bfs_loop-Inv fuel visited out rest r
          (Inv-skip id visited out rest h ((member_iff id visited).0 old)) (rw (old, bfs_loop) at e)
    | inr new ↦ elim (Bool-cases (walkable s id)) [
      | inl live ↦
          bfs_loop-Inv fuel (id ∷ visited) (out ++ id ∷ []) (rest ++ find_or id adj []) r
            (Inv-visit id visited out rest h (λ m. cc (new, (member_iff id visited).1 m)) live)
            (rw (new, live, bfs_loop) at e)
      | inr dead ↦
          bfs_loop-Inv fuel (id ∷ visited) out rest r (Inv-drop id visited out rest h dead)
            (rw (new, dead, bfs_loop) at e)
    ]
  ]

pub walkable_found :
    (s : MemStore) (id : ℕ)
    → walkable s id ≡ true
    → (r : Region) × (find id s.regions_by_id ≡ some r)
unfolding walkable
walkable_found s id w = elim (Option-cases (find id s.regions_by_id)) [
  | inl e ↦ absurd (cc (rw (e, walkable) at w))
  | inr (r, e) ↦ (r, e)
]

-- What is left to do falls with every round, so the loop ends.
module _ (s : MemStore) (adj : Table ℕ (List ℕ)) where
  edges_left_mono :
      (id : ℕ) (visited : List ℕ) (t : Table ℕ Region)
      → edges_left adj (id ∷ visited) t ≤ edges_left adj visited t
  unfolding edges_left
  edges_left_mono id visited [] = omega arith
  edges_left_mono id visited ((j, r) ∷ t) = ground (arith, edges_left_mono id visited t)

  edges_left-visit :
      (id : ℕ) (visited : List ℕ) (t : Table ℕ Region) (r : Region)
      → find id t ≡ some r
      → member id visited ≡ false
      → edges_left adj (id ∷ visited) t + length (find_or id adj []) ≤ edges_left adj visited t
  unfolding edges_left find
  edges_left-visit id visited [] r e new = cc
  edges_left-visit id visited ((j, q) ∷ t) r e new =
      ground (arith, edges_left_mono id visited t, edges_left-visit id visited t r)

  abbrev work : List ℕ → List ℕ → ℕ
  work visited queue = length queue + edges_left adj visited s.regions_by_id

  pub bfs_loop_total :
      (fuel : ℕ) (visited out queue : List ℕ)
      → work visited queue ≤ fuel
      → (r : List ℕ) × (bfs_loop s adj fuel visited out queue ≡ some r)
  unfolding bfs_loop
  bfs_loop_total zero visited out [] h = (out, refl)
  bfs_loop_total zero visited out (id ∷ rest) h = absurd (omega arith)
  bfs_loop_total (suc fuel) visited out [] h = (out, refl)
  bfs_loop_total (suc fuel) visited out (id ∷ rest) h = elim (Bool-cases (member id visited)) [
    | inl old ↦ rw (old, bfs_loop) (bfs_loop_total fuel visited out rest (omega arith))
    | inr new ↦ elim (Bool-cases (walkable s id)) [
      | inl live ↦
          let (r, found) = walkable_found s id live in
          rw (new, live, bfs_loop)
            (bfs_loop_total fuel (id ∷ visited) (out ++ id ∷ []) (rest ++ find_or id adj []) (
              omega (
                arith,
                length-append rest (find_or id adj []),
                edges_left-visit id visited s.regions_by_id r found new,
              )))
      | inr dead ↦
          rw (new, dead, bfs_loop)
            (bfs_loop_total fuel (id ∷ visited) out rest
              (omega (arith, edges_left_mono id visited s.regions_by_id)))
    ]
  ]
