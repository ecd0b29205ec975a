-- ===== src/Atlas/Fields/Email.antt =====
-- What looksLikeEmail accepts.
use urbanist_atlas.Base.{
  subst, ℕ, suc, ◌+◌, ◌≡◌, refl, ap, ◌↔◌, ◌⊎◌, inl, inr, true, false, [], ◌∷◌, ◌++◌, none, some,
  arith, Bytes, nat_eqb, nat_eqb_iff, bytes_eq, bytes_eqb_iff, any, length, In, Bool-cases, ◌≢◌,
}
use urbanist_atlas.Atlas.Fields.{index_byte, count_byte, domain_part, looks_like_email}

-- The text has one '@', something stands before it, and a '.' after it.
abbrev pub Address : Bytes → Type 0
Address addr =
    (local : Bytes) × (domain : Bytes) × (addr ≡ local ++ b'@' ∷ domain)
    × (local ≢ [])
    × (¬ In b'@' local)
    × (¬ In b'@' domain)
    × In b'.' domain

index_byte-away : (b i : ℕ) (s : Bytes) → ¬ In b s → index_byte b i s ≡ none
unfolding index_byte
index_byte-away b i [] away = refl
index_byte-away b i (c ∷ s) away = ground (arith, index_byte-away b (suc i) s, nat_eqb_iff c b)

count_byte-zero : (b : ℕ) (s : Bytes) → (count_byte b s ≡ 0) ↔ (¬ In b s)
unfolding count_byte
count_byte-zero b [] = ground arith
count_byte-zero b (c ∷ s) = ground (arith, count_byte-zero b s, nat_eqb_iff c b)

-- Where the byte is: nowhere, or first behind a text without it.
first_byte :
    (b : ℕ) (s : Bytes)
    → (¬ In b s) ⊎ ((front : Bytes) × (back : Bytes) × (s ≡ front ++ b ∷ back) × (¬ In b front))
first_byte b [] = inl (λ m. m)
first_byte b (c ∷ s) = elim (Bool-cases (nat_eqb c b)) [
  | inl e ↦ inr ([], s, ap (λ x. x ∷ s) ((nat_eqb_iff c b).0 e), λ m. m)
  | inr ne ↦ elim (first_byte b s) [
    | inl away ↦ inl (ground (arith, away, ne, nat_eqb_iff c b))
    | inr (front, back, e, away) ↦
        inr (c ∷ front, back, ap (λ x. c ∷ x) e, ground (arith, away, ne, nat_eqb_iff c b))
  ]
]

index_byte-first :
    (b i : ℕ) (front back : Bytes)
    → ¬ In b front
    → index_byte b i (front ++ b ∷ back) ≡ some (i + length front)
unfolding index_byte
index_byte-first b i [] back away = ground (arith, nat_eqb_iff b b)
index_byte-first b i (c ∷ front) back away =
    ground (arith, nat_eqb_iff c b, index_byte-first b (suc i) front back)

count_byte-first :
    (b : ℕ) (front back : Bytes)
    → ¬ In b front
    → count_byte b (front ++ b ∷ back) ≡ suc (count_byte b back)
unfolding count_byte
count_byte-first b [] back away = ground (arith, nat_eqb_iff b b)
count_byte-first b (c ∷ front) back away =
    ground (arith, nat_eqb_iff c b, count_byte-first b front back)

domain_part-first :
    (front back : Bytes) → ¬ In b'@' front → domain_part (front ++ b'@' ∷ back) ≡ back
unfolding domain_part
domain_part-first [] back away = refl
domain_part-first (c ∷ front) back away =
    ground (arith, nat_eqb_iff c b'@', domain_part-first front back)

In-any : (b : ℕ) (s : Bytes) → (any (λ c. nat_eqb c b) s ≡ true) ↔ In b s
In-any b [] = ground arith
In-any b (c ∷ s) = ground (arith, nat_eqb_iff c b, In-any b s)

-- The answer at a text that is split at its first '@'.
looks_like_email-parts :
    (front back : Bytes)
    → ¬ In b'@' front
    → (looks_like_email (front ++ b'@' ∷ back) ≡ true)
      ↔ ((front ≢ []) × (¬ In b'@' back) × In b'.' back)
unfolding looks_like_email
looks_like_email-parts [] back away = (λ h. cc, λ h. absurd (h.0 refl))
looks_like_email-parts (c ∷ front) back away =
    rw
      (
        looks_like_email,
        index_byte-first b'@' 0 (c ∷ front) back away,
        domain_part-first (c ∷ front) back away,
        count_byte-first b'@' (c ∷ front) back away,
      )
      (ground (arith, count_byte-zero b'@' back, In-any b'.' back, bytes_eqb_iff back []))

looks_like_email-none : (addr : Bytes) → ¬ In b'@' addr → looks_like_email addr ≡ false
unfolding looks_like_email
looks_like_email-none addr away = rw (looks_like_email, index_byte-away b'@' 0 addr away) refl

-- An address passes exactly when it has one '@', something stands before that, and a '.' behind it.
pub looks_like_email_iff : (addr : Bytes) → (looks_like_email addr ≡ true) ↔ Address addr
looks_like_email_iff addr = elim (first_byte b'@' addr) [
  | inl away ↦ (
    λ h. cc (h, looks_like_email-none addr away),
    λ (front, back, e, n, a, d, dot). absurd (away (rw e (in_middle front back))),
  )
  | inr (front, back, e, away) ↦ (
    λ h.
        let (n, a, dot) =
          (looks_like_email-parts front back away).0 (subst (λ s. looks_like_email s ≡ true) e h) in
        (front, back, e, n, away, a, dot),
    λ (front', back', e', n, away', a, dot).
        rw e' ((looks_like_email-parts front' back' away').1 (n, a, dot)),
  )
]
  where
    in_middle : (front back : Bytes) → In b'@' (front ++ b'@' ∷ back)
    in_middle [] back = inl refl
    in_middle (c ∷ front) back = inr (in_middle front back)
