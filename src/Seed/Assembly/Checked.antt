-- ===== src/Seed/Assembly/Checked.antt =====
-- What the checks of the assembly establish.
use urbanist_atlas.Base.{
  ℕ, ◌≡◌, refl, sym, ap, ◌∙◌, subst, ◌⊎◌, inl, inr, ◌↔◌, Bool, false, List, [], ◌∷◌, ◌++◌, none,
  some, some_inj, arith, Bytes, bytes_eq, nat_eq, ltb, Table, find, find_or, member, member_iff, In,
  In-concat, In-select, Distinct, Distinct-concat, select, Bool-cases, Option-cases, List-cases, ok,
  ok_inj, ◌<◌,
}
use urbanist_atlas.Base.Sort.{sort_by, insert_by, In-sort_by, In-insert_by}
use urbanist_atlas.Seed.Assembly.{
  resolve_loop, resolve_org_regions, is_orphan, assert_reachable_leaves,
}

is_orphan-reachable :
    (child_count : Table Bytes ℕ) (anchored org_slugs : List Bytes) (slug : Bytes)
    → (is_orphan child_count anchored org_slugs slug ≡ false)
      ↔ ((0 < find_or slug child_count 0) ⊎ In slug anchored ⊎ In slug org_slugs)
unfolding is_orphan
is_orphan-reachable child_count anchored org_slugs slug =
    ground (arith, member_iff slug anchored, member_iff slug org_slugs)

-- The check passes exactly when each local region has a child, or a postal code or an org that names it.
pub assert_reachable_leaves_iff :
    (local_tier : List Bytes) (child_count : Table Bytes ℕ) (anchored org_slugs : List Bytes)
    → (assert_reachable_leaves local_tier child_count anchored org_slugs ≡ ok tt) ↔ (
        (slug : Bytes)
        → In slug local_tier
        → (0 < find_or slug child_count 0) ⊎ In slug anchored ⊎ In slug org_slugs)
unfolding assert_reachable_leaves
assert_reachable_leaves_iff local_tier child_count anchored org_slugs =
    elim (List-cases (select orphan local_tier)) [
      | inl e ↦ (
        λ h slug m. elim (Bool-cases (orphan slug)) [
          | inl bad ↦ absurd (subst (In slug) e ((In-select orphan slug local_tier).1 (m, bad)))
          | inr good ↦ (is_orphan-reachable child_count anchored org_slugs slug).0 good
        ],
        λ all. rw (assert_reachable_leaves, e) refl,
      )
      | inr (slug, more, e) ↦ (
        λ h. cc (rw (assert_reachable_leaves, e) at h),
        λ all.
            let (m, bad) = (In-select orphan slug local_tier).0 (rw e (inl refl)) in
            cc (bad, (is_orphan-reachable child_count anchored org_slugs slug).1 (all slug m)),
      )
    ]
  where
    orphan : Bytes → Bool
    orphan = is_orphan child_count anchored org_slugs

-- Some slug of the list has the id.
abbrev pub Named : Table Bytes ℕ → List Bytes → ℕ → Type 0
Named ids slugs id = (slug : Bytes) × In slug slugs × (find slug ids ≡ some id)

module _ (ids : Table Bytes ℕ) where
  resolve_loop-ids :
      (slugs : List Bytes) (out : List ℕ) (missing : List Bytes) (id : ℕ)
      → In id (resolve_loop ids slugs out missing).0 ↔ (In id out ⊎ Named ids slugs id)
  unfolding resolve_loop
  resolve_loop-ids [] out missing id = (inl, λ h. elim h [ inl m ↦ m | inr (s, m, f) ↦ absurd m ])
  resolve_loop-ids (slug ∷ rest) out missing id = elim (Option-cases (find slug ids)) [
    | inl e ↦
        rw (resolve_loop, e)
          (
            λ m. elim ((resolve_loop-ids rest out (missing ++ slug ∷ []) id).0 m) [
              | inl old ↦ inl old
              | inr (s, k, f) ↦ inr (s, inr k, f)
            ],
            λ h. (resolve_loop-ids rest out (missing ++ slug ∷ []) id).1 (elim h [
              | inl old ↦ inl old
              | inr (s, k, f) ↦ elim k [ inl same ↦ cc (e, f, same) | inr k' ↦ inr (s, k', f) ]
            ]),
          )
    | inr (i, e) ↦ elim (Bool-cases (member i out)) [
      | inl again ↦
          rw (resolve_loop, e, again)
            (
              λ m. elim ((resolve_loop-ids rest out missing id).0 m) [
                | inl old ↦ inl old
                | inr (s, k, f) ↦ inr (s, inr k, f)
              ],
              λ h. (resolve_loop-ids rest out missing id).1 (elim h [
                | inl old ↦ inl old
                | inr (s, k, f) ↦ elim k [
                  | inl same ↦ inl (
                      subst (λ x. In x out) (some_inj (sym e ∙ ap (λ x. find x ids) (sym same) ∙ f))
                        ((member_iff i out).0 again))
                  | inr k' ↦ inr (s, k', f)
                ]
              ]),
            )
      | inr fresh ↦
          rw (resolve_loop, e, fresh)
            (
              λ m. elim ((resolve_loop-ids rest (out ++ i ∷ []) missing id).0 m) [
                | inl new ↦ elim ((In-concat id i out).0 new) [
                  | inl old ↦ inl old
                  | inr same ↦ inr (slug, inl refl, e ∙ ap some (sym same))
                ]
                | inr (s, k, f) ↦ inr (s, inr k, f)
              ],
              λ h. (resolve_loop-ids rest (out ++ i ∷ []) missing id).1 (elim h [
                | inl old ↦ inl ((In-concat id i out).1 (inl old))
                | inr (s, k, f) ↦ elim k [
                  | inl same ↦ inl (
                      (In-concat id i out).1
                        (inr (sym (some_inj (sym e ∙ ap (λ x. find x ids) (sym same) ∙ f)))))
                  | inr k' ↦ inr (s, k', f)
                ]
              ]),
            )
    ]
  ]

  resolve_loop-Distinct :
      (slugs : List Bytes) (out : List ℕ) (missing : List Bytes)
      → Distinct out
      → Distinct (resolve_loop ids slugs out missing).0
  unfolding resolve_loop
  resolve_loop-Distinct [] out missing d = d
  resolve_loop-Distinct (slug ∷ rest) out missing d = elim (Option-cases (find slug ids)) [
    | inl e ↦ rw (resolve_loop, e) (resolve_loop-Distinct rest out (missing ++ slug ∷ []) d)
    | inr (i, e) ↦ elim (Bool-cases (member i out)) [
      | inl again ↦ rw (resolve_loop, e, again) (resolve_loop-Distinct rest out missing d)
      | inr fresh ↦
          rw (resolve_loop, e, fresh)
            (resolve_loop-Distinct rest (out ++ i ∷ []) missing
              (Distinct-concat i out d (λ m. cc (fresh, (member_iff i out).1 m))))
    ]
  ]

  -- A slug in front that resolves is not missing.
  missing_behind :
      (slug s : Bytes) (rest missing found : List Bytes) (i : ℕ)
      → find slug ids ≡ some i
      → In s found ↔ (In s missing ⊎ In s rest × (find s ids ≡ none))
      → In s found ↔ (In s missing ⊎ ((s ≡ slug) ⊎ In s rest) × (find s ids ≡ none))
  missing_behind slug s rest missing found i e (there, back) = (
    λ m. elim (there m) [ inl old ↦ inl old | inr (k, f) ↦ inr (inr k, f) ],
    λ h. back (elim h [
      | inl old ↦ inl old
      | inr (k, f) ↦ elim k [ inl same ↦ cc (e, f, same) | inr k' ↦ inr (k', f) ]
    ]),
  )

  resolve_loop-missing :
      (slugs : List Bytes) (out : List ℕ) (missing : List Bytes) (s : Bytes)
      → In s (resolve_loop ids slugs out missing).1
        ↔ (In s missing ⊎ In s slugs × (find s ids ≡ none))
  unfolding resolve_loop
  resolve_loop-missing [] out missing s = (inl, λ h. elim h [ inl m ↦ m | inr (m, f) ↦ absurd m ])
  resolve_loop-missing (slug ∷ rest) out missing s = elim (Option-cases (find slug ids)) [
    | inl e ↦
        rw (resolve_loop, e)
          (ground (
            arith,
            resolve_loop-missing rest out (missing ++ slug ∷ []) s,
            In-concat s slug missing,
            e,
          ))
    | inr (i, e) ↦ elim (Bool-cases (member i out)) [
      | inl again ↦
          rw (resolve_loop, e, again)
            (missing_behind slug s rest missing _ i e (resolve_loop-missing rest out missing s))
      | inr fresh ↦
          rw (resolve_loop, e, fresh)
            (missing_behind slug s rest missing _ i e
              (resolve_loop-missing rest (out ++ i ∷ []) missing s))
    ]
  ]

  insert_by-Distinct :
      (id : ℕ) (out : List ℕ) → Distinct out → ¬ In id out → Distinct (insert_by ltb id out)
  unfolding insert_by
  insert_by-Distinct id [] d away = (λ m. m, tt)
  insert_by-Distinct id (x ∷ out) d away =
      ground (arith, insert_by-Distinct id out, In-insert_by ltb x id out)

  sort_by-Distinct : (out : List ℕ) → Distinct out → Distinct (sort_by ltb out)
  unfolding sort_by
  sort_by-Distinct [] d = tt
  sort_by-Distinct (id ∷ out) d =
      insert_by-Distinct id (sort_by ltb out) (sort_by-Distinct out d.1)
        (λ m. d.0 ((In-sort_by ltb id out).0 m))

  -- The org's slugs are accepted exactly when each has an id. The answer then holds exactly the ids that
  -- the slugs have, each once.
  pub resolve_org_regions_iff :
      (slugs : List Bytes)
      → (((out : List ℕ) × (resolve_org_regions slugs ids ≡ ok out))
          ↔ ((s : Bytes) → In s slugs → (id : ℕ) × (find s ids ≡ some id)))
        × ((out : List ℕ)
            → resolve_org_regions slugs ids ≡ ok out
            → Distinct out × ((id : ℕ) → In id out ↔ Named ids slugs id))
  unfolding resolve_org_regions
  resolve_org_regions_iff slugs = elim (List-cases done.1) [
    | inr (s, more, e) ↦
        let (m, f) : In s slugs × (find s ids ≡ none) =
          elim ((resolve_loop-missing slugs [] [] s).0 (rw e (inl refl))) [
            | inl old ↦ absurd old
            | inr k ↦ k
          ] in
        (
          (
            λ (out, h). cc (rw (resolve_org_regions, e) at h),
            λ all. let (id, g) = all s m in cc (f, g),
          ),
          λ out h. cc (rw (resolve_org_regions, e) at h),
        )
    | inl e ↦ (
      (
        λ (out, h) s m. elim (Option-cases (find s ids)) [
          | inl f ↦ absurd (subst (In s) e ((resolve_loop-missing slugs [] [] s).1 (inr (m, f))))
          | inr found ↦ found
        ],
        λ all. (sort_by ltb done.0, rw (resolve_org_regions, e) refl),
      ),
      λ out h.
          let same : sort_by ltb done.0 ≡ out = ok_inj (rw (resolve_org_regions, e) at h) in
          (
            subst Distinct same (sort_by-Distinct done.0 (resolve_loop-Distinct slugs [] [] tt)),
            λ id. (
              λ m.
                  elim ((resolve_loop-ids slugs [] [] id).0
                    ((In-sort_by ltb id done.0).0 (subst (In id) (sym same) m))) [
                      | inl old ↦ absurd old
                      | inr k ↦ k
                    ],
              λ k.
                  subst (In id) same
                    ((In-sort_by ltb id done.0).1 ((resolve_loop-ids slugs [] [] id).1 (inr k))),
            ),
          ),
    )
  ]
    where
      done : List ℕ × List Bytes
      done = resolve_loop ids slugs [] []
