-- ===== src/Sqlite/Submissions/Cursor.antt =====
-- The cursors of a listing.
use urbanist_atlas.Base.{
  ◌≡◌, ◌≢◌, refl, sym, ap, ◌∙◌, inl, inr, Bool-cases, [], ◌∷◌, ◌++◌, some, some_inj, arith, Bytes,
  bytes_eq, bytes_eqb_iff, ◌==◌, In, ok,
}
use urbanist_atlas.Sqlite.Submissions.{Library, encode_cursor, split_bar, decode_cursor}

split_bar_append : (s t : Bytes) → (¬ In b'|' s) → split_bar (s ++ b'|' ∷ t) ≡ some (s, t)
unfolding split_bar
split_bar_append [] t h = refl
split_bar_append (c ∷ s) t h = ground (arith, split_bar_append s t (λ m. h (inr m)))

-- Only no text at all is encoded as the empty cursor.
base64-nonempty : (lib : Library) (b : Bytes) → b ≢ [] → lib.base64_encode b ≢ []
base64-nonempty lib b h e = h (
    some_inj (
      sym (lib.decode-encode b)
      ∙ ap lib.base64_decode (e ∙ sym lib.encode_nil)
      ∙ lib.decode-encode []))

pub encode_cursor-nonempty :
    (lib : Library) (created_at public_id : Bytes) → encode_cursor lib created_at public_id ≢ []
unfolding encode_cursor
encode_cursor-nonempty lib [] public_id = base64-nonempty lib _ (λ e. cc)
encode_cursor-nonempty lib (c ∷ s) public_id = base64-nonempty lib _ (λ e. cc)

decode-encode_cursor :
    (lib : Library) (created_at public_id : Bytes)
    → lib.base64_decode (encode_cursor lib created_at public_id)
      ≡ some (created_at ++ b'|' ∷ public_id)
unfolding encode_cursor
decode-encode_cursor lib created_at public_id = lib.decode-encode (created_at ++ b'|' ∷ public_id)

-- A cursor made of a time without a bar and an id, neither of them empty, is read back as these two.
pub decode_cursor-encode_cursor :
    (lib : Library) (created_at public_id : Bytes)
    → created_at ≢ []
    → (¬ In b'|' created_at)
    → public_id ≢ []
    → decode_cursor lib (encode_cursor lib created_at public_id) ≡ ok (some (created_at, public_id))
unfolding decode_cursor
decode_cursor-encode_cursor lib created_at public_id c bar p =
    elim (Bool-cases (encode_cursor lib created_at public_id == [])) [
      | inl e ↦ absurd (encode_cursor-nonempty lib created_at public_id ((bytes_eqb_iff _ []).0 e))
      | inr e ↦
          rw
            (
              e,
              decode-encode_cursor lib created_at public_id,
              split_bar_append created_at public_id bar,
            )
            (ground (arith, bytes_eqb_iff created_at [], bytes_eqb_iff public_id []))
    ]
