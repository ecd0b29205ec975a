-- ===== src/Http/RateLimit/Window.antt =====
-- Sliding windows over lists of times: what is recent at a later time was recent before.
use urbanist_atlas.Base.{
  ℕ, ◌≤◌, ◌≡◌, refl, ap, ◌∙◌, Bool, List, [], ◌∷◌, ◌++◌, arith, select, ◌==◌, Bytes, bytes_eq,
  bytes_eqb_iff, Table, find_or, put, find_or-put, Bool-cases, inl, inr, find_or-remove,
  if◌then◌else◌,
}
use urbanist_atlas.Http.RateLimit.{is_recent, keep_recent, sweep_key, sweep_keys, restore}

-- Pruning at one time changes no window that ends later.
pub select-keep_recent :
    (window now later : ℕ) (ts : List ℕ)
    → now ≤ later
    → select (is_recent window later) (keep_recent window now ts)
      ≡ select (is_recent window later) ts
unfolding keep_recent
select-keep_recent window now later [] h = refl
select-keep_recent window now later (t ∷ ts) h =
    ground (arith, select-keep_recent window now later ts h)

pub select-append :
    (p : ℕ → Bool) (xs ys : List ℕ) → select p (xs ++ ys) ≡ select p xs ++ select p ys
select-append p [] ys = refl
select-append p (x ∷ xs) ys = ground (arith, select-append p xs ys)

-- The window of a key that ends at `later`.
abbrev pub window_of : ℕ → ℕ → Bytes → Table Bytes (List ℕ) → List ℕ
window_of window later k hits = select (is_recent window later) (find_or k hits [])

pub window_of-put :
    (window later : ℕ) (j k : Bytes) (ts : List ℕ) (hits : Table Bytes (List ℕ))
    → window_of window later j (put k ts hits)
      ≡ (if k == j then select (is_recent window later) ts else window_of window later j hits)
window_of-put window later j k ts hits = elim (Bool-cases (k == j)) [
  | inl eq ↦ rw (find_or-put, eq) refl
  | inr ne ↦ rw (find_or-put, ne) refl
]

pub window_of-restore :
    (window later : ℕ) (j k : Bytes) (ts : List ℕ) (hits : Table Bytes (List ℕ))
    → window_of window later j (restore k ts hits)
      ≡ (if k == j then select (is_recent window later) ts else window_of window later j hits)
unfolding restore
window_of-restore window later j k [] hits = elim (Bool-cases (k == j)) [
  | inl eq ↦ rw (find_or-remove, eq) refl
  | inr ne ↦ rw (find_or-remove, ne) refl
]
window_of-restore window later j k (t ∷ ts) hits = window_of-put window later j k (t ∷ ts) hits

module _ (window now later : ℕ) (h : now ≤ later) where
  window_of-sweep_key :
      (j k : Bytes) (hits : Table Bytes (List ℕ))
      → window_of window later j (sweep_key window now k hits) ≡ window_of window later j hits
  unfolding sweep_key
  window_of-sweep_key j k hits = elim (Bool-cases (k == j)) [
    | inl eq ↦
        rw (window_of-restore, eq)
          (select-keep_recent window now later (find_or k hits []) h
            ∙ ap (λ i. window_of window later i hits) ((bytes_eqb_iff k j).0 eq))
    | inr ne ↦ rw (window_of-restore, ne) refl
  ]

  -- A sweep changes no window that ends at its time or later.
  pub window_of-sweep_keys :
      (j : Bytes) (ks : List Bytes) (hits : Table Bytes (List ℕ))
      → window_of window later j (sweep_keys window now ks hits) ≡ window_of window later j hits
  unfolding sweep_keys
  window_of-sweep_keys j [] hits = refl
  window_of-sweep_keys j (k ∷ ks) hits =
      window_of-sweep_keys j ks (sweep_key window now k hits) ∙ window_of-sweep_key j k hits
