-- ===== src/Promotion/Text/Slug.antt =====
-- The slugs that DeriveSlug gives.
use urbanist_atlas.Base.{
  ℕ, ◌≡◌, refl, sym, ap, ◌∙◌, subst, ◌⊎◌, inl, inr, Bool, true, false, Bool-cases, List-cases, [],
  ◌∷◌, arith, Bytes, Unicode, IsAscii, map, lower_byte, nat_eqb,
}
use urbanist_atlas.Promotion.Text.{
  hyphen, is_slug_char, derive_loop, trim_hyphens_left, trim_hyphens_right, derive_slug,
}

-- Letters and digits with single hyphens between them; `prev` tells whether a hyphen stands before, or
-- the text begins.
abbrev pub Hyphenated : Bool → Bytes → Type 0
Hyphenated prev [] = prev ≡ false
Hyphenated prev (b ∷ s) =
    ((is_slug_char b ≡ true) × Hyphenated false s)
    ⊎ ((b ≡ hyphen) × (prev ≡ false) × Hyphenated true s)

-- The same, but for a hyphen at the end.
abbrev pub Loose : Bool → Bytes → Type 0
Loose prev [] = Unit
Loose prev (b ∷ s) =
    ((is_slug_char b ≡ true) × Loose false s) ⊎ ((b ≡ hyphen) × (prev ≡ false) × Loose true s)

derive_loop-Loose : (prev : Bool) (s : Bytes) → Loose prev (derive_loop prev s)
unfolding derive_loop
derive_loop-Loose prev [] = tt
derive_loop-Loose prev (b ∷ s) = elim (Bool-cases (is_slug_char b)) [
  | inl e ↦ rw (e) (inl (e, derive_loop-Loose false s))
  | inr e ↦ elim (Bool-cases prev) [
    | inl p ↦ rw (e, p) (derive_loop-Loose true s)
    | inr p ↦ rw (e, p) (inr (refl, refl, derive_loop-Loose true s))
  ]
]

hyphen_apart : (b : ℕ) → is_slug_char b ≡ true → nat_eqb b hyphen ≡ false
unfolding is_slug_char
hyphen_apart b h = ground arith

pub trim_hyphens_right-Hyphenated :
    (prev : Bool) (s : Bytes)
    → Loose prev s
    → (trim_hyphens_right s ≡ []) ⊎ Hyphenated prev (trim_hyphens_right s)
unfolding trim_hyphens_right
trim_hyphens_right-Hyphenated prev [] h = inl refl
trim_hyphens_right-Hyphenated prev (b ∷ s) (inl (c, h)) = elim (List-cases (trim_hyphens_right s)) [
  | inl e ↦ rw (trim_hyphens_right, e, hyphen_apart b c) (inr (inl (c, refl)))
  | inr (d, t, e) ↦ inr (
      rw (trim_hyphens_right, e)
        (inl (
          c,
          elim (trim_hyphens_right-Hyphenated false s h) [
            | inl z ↦ cc (z, e)
            | inr k ↦ subst (Hyphenated false) e k
          ],
        )))
]
trim_hyphens_right-Hyphenated prev (b ∷ s) (inr (c, p, h)) =
    elim (List-cases (trim_hyphens_right s)) [
      | inl e ↦ inl (rw (trim_hyphens_right, e, c) refl)
      | inr (d, t, e) ↦ inr (
          rw (trim_hyphens_right, e)
            (inr (
              c,
              p,
              elim (trim_hyphens_right-Hyphenated true s h) [
                | inl z ↦ cc (z, e)
                | inr k ↦ subst (Hyphenated true) e k
              ],
            )))
    ]

trim_hyphens_left-Hyphenated : (s : Bytes) → Hyphenated true s → trim_hyphens_left s ≡ s
unfolding trim_hyphens_left
trim_hyphens_left-Hyphenated [] h = refl
trim_hyphens_left-Hyphenated (b ∷ s) (inl (c, h)) = rw (hyphen_apart b c) refl
trim_hyphens_left-Hyphenated (b ∷ s) (inr (c, p, h)) = cc

-- A slug has ASCII bytes that lower case leaves alone.
Hyphenated-IsAscii :
    (prev : Bool) (s : Bytes) → Hyphenated prev s → IsAscii s × (map lower_byte s ≡ s)
unfolding is_slug_char lower_byte
Hyphenated-IsAscii prev [] h = (tt, refl)
Hyphenated-IsAscii prev (b ∷ s) (inl (c, h)) =
    let (a, l) = Hyphenated-IsAscii false s h in ((ground arith, a), ground arith)
Hyphenated-IsAscii prev (b ∷ s) (inr (c, p, h)) =
    let (a, l) = Hyphenated-IsAscii true s h in ((ground arith, a), ground arith)

-- The slug of a name is empty, or it is made of lower-case ASCII letters and digits with single hyphens
-- between them, none at its ends; lower-casing it, as the seed loader's check does, leaves it as it is.
pub derive_slug-Hyphenated :
    (u : Unicode) (name : Bytes)
    → (derive_slug u name ≡ [])
      ⊎ (Hyphenated true (derive_slug u name)
          × (derive_slug u name ≡ u.to_lower (derive_slug u name)))
unfolding derive_slug
derive_slug-Hyphenated u name =
    let raw = derive_loop true (u.to_lower name) in
    elim (trim_hyphens_right-Hyphenated true raw (derive_loop-Loose true (u.to_lower name))) [
      | inl e ↦ inl (ap trim_hyphens_left e)
      | inr h ↦
          let same = trim_hyphens_left-Hyphenated (trim_hyphens_right raw) h in
          let (ascii, lower) = Hyphenated-IsAscii true (trim_hyphens_right raw) h in
          let fixed = u.to_lower_ascii (trim_hyphens_right raw) ascii ∙ lower in
          inr (subst (Hyphenated true) (sym same) h, same ∙ sym fixed ∙ ap u.to_lower (sym same))
    ]
