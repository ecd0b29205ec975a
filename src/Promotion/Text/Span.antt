-- ===== src/Promotion/Text/Span.antt =====
-- The bytes of a code span.
use urbanist_atlas.Base.{
  ℕ, ◌≡◌, ◌≢◌, refl, ◌⊎◌, inl, inr, false, not, List, [], ◌∷◌, ◌++◌, arith, In, In-append,
  In-select, Bytes, codes, nat_eqb, is_space, select,
}
use urbanist_atlas.Promotion.Text.{Fields, without_byte, join, code_span}

-- A byte of the joined text is one of the separator or of a part.
In-join :
    (b : ℕ) (sep : Bytes) (fs : List Bytes)
    → In b (join sep fs)
    → In b sep ⊎ ((f : Bytes) × In f fs × In b f)
unfolding join
In-join b sep [] m = absurd m
In-join b sep (f ∷ []) m = inr (f, inl refl, m)
In-join b sep (f ∷ g ∷ fs) m = elim ((In-append b (f ++ sep) (join sep (g ∷ fs))).0 m) [
  | inl k ↦ elim ((In-append b f sep).0 k) [ inl l ↦ inr (f, inl refl, l) | inr l ↦ inl l ]
  | inr k ↦ elim (In-join b sep (g ∷ fs) k) [ inl z ↦ inl z | inr (x, i, z) ↦ inr (x, inr i, z) ]
]

-- Whatever the text, a code span is a backtick, bytes of the text and blanks, and a backtick: between
-- the two there is no backtick, and no line break or other white space but the blank.
pub code_span-In :
    (fs : Fields) (s : Bytes)
    → (inner : Bytes) × (code_span fs s ≡ b'`' ∷ inner ++ b'`' ∷ [])
      × ((b : ℕ) → In b inner → (b ≢ b'`') × ((b ≡ 32) ⊎ (In b s × (is_space b ≡ false))))
unfolding code_span without_byte
code_span-In fs s = (
  join (codes " ") (fs.fields (select (λ b. not (nat_eqb b b'`')) s)),
  refl,
  λ b m. elim (In-join b (codes " ") (fs.fields (select (λ b. not (nat_eqb b b'`')) s)) m) [
    | inl (inl e) ↦ (λ t. let blank : b ≡ 32 = e in let tick : b ≡ 96 = t in omega arith, inl e)
    | inl (inr e) ↦ absurd e
    | inr (f, i, k) ↦
        let (there, kept) =
          (In-select (λ c. not (nat_eqb c b'`')) b s).0
            (fs.fields_bytes (select (λ b. not (nat_eqb b b'`')) s) f b i k) in
        (
          λ t. ground (arith, kept),
          inr (there, fs.fields_spaces (select (λ b. not (nat_eqb b b'`')) s) f b i k),
        )
  ],
)
