-- ===== src/Usage/Recorder.antt =====
-- api/internal/usage/recorder.go: usage counts are buffered per day, kind and key, and flushed to a
-- store. The clock's answer is an argument: the day of an event, and the first day that is kept. A nil
-- recorder acts as one without a store.
pub mod Weights
pub mod Accounting
pub mod Bounds
pub mod Tests
use urbanist_atlas.Base.{
  ℕ, suc, ◌+◌, ◌≡◌, ◌↔◌, Bool, true, false, not, ◌&&◌, ◌||◌, List, [], ◌∷◌, arith, Bytes, bytes_eq,
  bytes_eqb, bytes_eqb_iff, ◌==◌, Eq, ltb, leb, length, map, Table, find_or, put, has,
  if◌then◌else◌, ℤ, pos, negsuc, int_ltb,
}

abbrev pub max_key_len : ℕ
max_key_len = 128

abbrev pub max_buffered_keys : ℕ
max_buffered_keys = 10000

pub record BucketKey : Type 0 where
  pub day : Bytes
  pub kind : Bytes
  pub key : Bytes

abbrev pub bucket_eqb : BucketKey → BucketKey → Bool
bucket_eqb a b = bytes_eqb a.day b.day && bytes_eqb a.kind b.kind && bytes_eqb a.key b.key

pub bucket_eqb_iff : (a b : BucketKey) → (bucket_eqb a b ≡ true) ↔ (a ≡ b)
bucket_eqb_iff a b =
    ground
      (arith, bytes_eqb_iff a.day b.day, bytes_eqb_iff a.kind b.kind, bytes_eqb_iff a.key b.key)

instance abbrev pub bucket_eq : Eq BucketKey
bucket_eq = record { equal = bucket_eqb; equal_iff = bucket_eqb_iff }

pub record UsageCount : Type 0 where
  pub day : Bytes
  pub kind : Bytes
  pub key : Bytes
  pub count : ℕ

pub record Recorder : Type 0 where
  pub has_store : Bool
  pub keep_days : ℤ
  pub buf : Table BucketKey ℕ
  pub dropped : ℕ

unfoldable pub new_recorder : Bool → ℤ → Recorder
new_recorder has_store keep_days = record {
  has_store = has_store;
  keep_days = keep_days;
  buf = [];
  dropped = 0;
}

-- The events that Increment does not turn away at once.
unfoldable pub is_counted : Recorder → Bytes → Bytes → Bool
is_counted r kind key =
    r.has_store && not (kind == []) && not (key == []) && not (ltb max_key_len (length key))

unfoldable pub increment : Recorder → Bytes → Bytes → Bytes → Recorder
unfolding is_counted has find_or put
increment r day kind key =
    let bk : BucketKey = record { day = day; kind = kind; key = key } in
    if not (is_counted r kind key)
    then r
    else if not (has bk r.buf) && leb max_buffered_keys (length r.buf)
    then record r { dropped = suc r.dropped }
    else record r { buf = put bk (find_or bk r.buf 0 + 1) r.buf }

unfoldable pub counts_of : Table BucketKey ℕ → List UsageCount
counts_of = map (λ (k, n). record { day = k.day; kind = k.kind; key = k.key; count = n })

-- What a flush leaves: the recorder, the store, whether no error came back, and the number of dropped
-- events that the log warns of.
pub record Flushed {ℓ} (St : Type ℓ) : Type ℓ where
  pub recorder : Recorder
  pub store : St
  pub good : Bool
  pub warned : ℕ

-- `upsert` and `prune` are the store's methods, with `true` for no error.
unfoldable pub flush {ℓ} :
    {St : Type ℓ}
    → (List UsageCount → St → St × Bool)
    → (Bytes → St → St × Bool)
    → Recorder
    → Bytes
    → St
    → Flushed St
unfolding counts_of
flush upsert prune r first_day st =
    if not r.has_store
    then record { recorder = r; store = st; good = true; warned = 0 }
    else elim r.buf [
      | [] ↦ record { recorder = r; store = st; good = true; warned = 0 }
      | entry ∷ entries ↦
          let emptied = record r { buf = []; dropped = 0 } in
          let (st1, written) = upsert (counts_of (entry ∷ entries)) st in
          let cutoff = if int_ltb (pos 0) r.keep_days then first_day else [] in
          record {
            recorder = emptied;
            store =
                if written && not (cutoff == [])
                then (let (st2, _) = prune cutoff st1 in st2)
                else st1;
            good = written;
            warned = r.dropped;
          }
    ]
