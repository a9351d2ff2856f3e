-- ===== src/Tail/Store/RoundTrip.antt =====
-- What is loaded of what was stored.
use copilot_token_cost.Prelude.{
  ◌≡◌, refl, ◌∙◌, ap, sym, true, false, ◌&&◌, ◌||◌, codes, any, Option, none, some, List, [], ◌∷◌,
  Bytes, keep, trim_space, ◌==◌, bytes_eq, eq_iff, if◌then◌else◌, arith, Bool-cases, inl, inr,
}
use copilot_token_cost.Prelude.Maps.{Map, lookup, insert, lookup-insert}
use copilot_token_cost.Tail.Store.{
  TailCheckpoint, TailOffset, nullable_string, string_of, checkpoint_of, load_rows, load_by_source,
  row_of, is_row, upsert_row, upsert,
}

-- The checkpoint of the last row of the file, else the one before.
abbrev last_of : Bytes → Bytes → Option TailCheckpoint → List TailOffset → Option TailCheckpoint
last_of source log_file o [] = o
last_of source log_file o (r ∷ rs) =
    last_of source log_file (if is_row source log_file r then some (checkpoint_of r) else o) rs

lookup-load_rows :
    (source log_file : Bytes) (rows : List TailOffset) (out : Map Bytes TailCheckpoint)
    → lookup log_file (load_rows (keep (λ r. r.source == source) rows) out)
      ≡ last_of source log_file (lookup log_file out) rows
unfolding load_rows
lookup-load_rows source log_file [] out = refl
lookup-load_rows source log_file (r ∷ rows) out = elim (Bool-cases (r.source == source)) [
  | inl e ↦ rw e (
      lookup-load_rows source log_file rows (insert r.log_file (checkpoint_of r) out)
      ∙ rw lookup-insert)
  | inr e ↦ rw e (lookup-load_rows source log_file rows out)
]

-- PRIMARY KEY (source, log_file)
abbrev pub IsKeyed : List TailOffset → Type 0
IsKeyed [] = Unit
IsKeyed (r ∷ rs) = (any (is_row r.source r.log_file) rs ≡ false) × IsKeyed rs

last_of_absent :
    (source log_file : Bytes) (o : Option TailCheckpoint) (rows : List TailOffset)
    → any (is_row source log_file) rows ≡ false
    → last_of source log_file o rows ≡ o
last_of_absent source log_file o [] h = refl
last_of_absent source log_file o (r ∷ rows) h = elim (Bool-cases (is_row source log_file r)) [
  | inl e ↦ cc (rw e at h)
  | inr e ↦ rw e (last_of_absent source log_file o rows (rw e at h))
]

is_row_same :
    (source log_file : Bytes) (r : TailOffset)
    → is_row source log_file r ≡ true
    → (r.source ≡ source) × (r.log_file ≡ log_file)
is_row_same source log_file r h = ground (arith, eq_iff r.source source, eq_iff r.log_file log_file)

is_row_other :
    (source log_file : Bytes) (r q : TailOffset)
    → is_row q.source q.log_file r ≡ true
    → is_row source log_file r ≡ is_row source log_file q
is_row_other source log_file r q h = let (s, f) = is_row_same q.source q.log_file r h in rw (s, f)

last_of-upsert_row :
    (source log_file : Bytes) (row : TailOffset) (rows : List TailOffset)
    (o : Option TailCheckpoint)
    → IsKeyed rows
    → last_of source log_file o (upsert_row row rows) ≡ (
        if is_row source log_file row
        then some (checkpoint_of row)
        else last_of source log_file o rows)
unfolding upsert_row
last_of-upsert_row source log_file row [] o k = refl
last_of-upsert_row source log_file row (old ∷ rows) o (k, ks) =
    elim (Bool-cases (is_row row.source row.log_file old)) [
      | inl e ↦ elim (Bool-cases (is_row source log_file row)) [
        | inl m ↦
            let (s, f) = is_row_same source log_file row m in
            let (s', f') = is_row_same row.source row.log_file old e in
            let gone : any (is_row source log_file) rows ≡ false = rw (← s, ← f, ← s', ← f') k in
            rw (e, m) (last_of_absent source log_file _ rows gone ∙ rw m)
        | inr m ↦
            let other : is_row source log_file old ≡ false =
              is_row_other source log_file old row e ∙ m in
            let left : last_of source log_file o (row ∷ rows) ≡ last_of source log_file o rows =
              ap (λ b. last_of source log_file (if b then some (checkpoint_of row) else o) rows)
                m in
            let right : last_of source log_file o (old ∷ rows) ≡ last_of source log_file o rows =
              ap (λ b. last_of source log_file (if b then some (checkpoint_of old) else o) rows)
                other in
            rw (e, m) (left ∙ sym right)
      ]
      | inr e ↦ rw e (last_of-upsert_row source log_file row rows _ ks)
    ]

any-upsert_row :
    (source log_file : Bytes) (row : TailOffset) (rows : List TailOffset)
    → any (is_row source log_file) (upsert_row row rows)
      ≡ (is_row source log_file row || any (is_row source log_file) rows)
unfolding upsert_row
any-upsert_row source log_file row [] = refl
any-upsert_row source log_file row (old ∷ rows) =
    elim (Bool-cases (is_row row.source row.log_file old)) [
      | inl e ↦ rw (e, is_row_other source log_file old row e) (ground arith)
      | inr e ↦ rw (e, any-upsert_row source log_file row rows) (ground arith)
    ]

is_row_symm : (a b : TailOffset) → is_row a.source a.log_file b ≡ is_row b.source b.log_file a
is_row_symm a b = ground (
  arith,
  eq_iff a.source b.source,
  eq_iff b.source a.source,
  eq_iff a.log_file b.log_file,
  eq_iff b.log_file a.log_file,
)

upsert_row-IsKeyed :
    (row : TailOffset) (rows : List TailOffset) → IsKeyed rows → IsKeyed (upsert_row row rows)
unfolding upsert_row
upsert_row-IsKeyed row [] k = (refl, tt)
upsert_row-IsKeyed row (old ∷ rows) (k, ks) =
    elim (Bool-cases (is_row row.source row.log_file old)) [
      | inl e ↦ let (s, f) = is_row_same row.source row.log_file old e in rw e (rw (← s, ← f) k, ks)
      | inr e ↦ rw e (rw (any-upsert_row, is_row_symm old row, e) k, upsert_row-IsKeyed row rows ks)
    ]

-- A checkpoint as it comes back: its texts without the space around them, the state of a connection
-- that was not named, and the time of the call.
unfoldable pub stored : Bytes → TailCheckpoint → TailCheckpoint
stored now cp = record cp {
  last_mtime = trim_space cp.last_mtime;
  last_hash = trim_space cp.last_hash;
  connection_state =
      if trim_space cp.connection_state == [] then codes "connected" else cp.connection_state;
  last_error = trim_space cp.last_error;
  last_chunk_at = trim_space cp.last_chunk_at;
  last_full_copy_at = trim_space cp.last_full_copy_at;
  last_defensive_recopy_at = trim_space cp.last_defensive_recopy_at;
  updated_at = now;
}

string_of-nullable : (v : Bytes) → string_of (nullable_string v) ≡ trim_space v
unfolding nullable_string
string_of-nullable v = elim (Bool-cases (trim_space v == [])) [
  | inl e ↦ rw e (sym ((eq_iff (trim_space v) []).0 e))
  | inr e ↦ rw e
]

checkpoint_of-row_of :
    (now : Bytes) (cp : TailCheckpoint) → checkpoint_of (row_of now cp) ≡ stored now cp
unfolding checkpoint_of row_of stored
checkpoint_of-row_of now cp = simp string_of-nullable

-- What is loaded after an upsert is, for its source and file, the stored checkpoint, and for every
-- other source or file what was loaded before. The key stays unique.
pub load-upsert :
    (source log_file now : Bytes) (cp : TailCheckpoint) (rows : List TailOffset)
    → IsKeyed rows
    → (lookup log_file (load_by_source source (upsert now cp rows)) ≡ (
        if cp.source == source && cp.log_file == log_file
        then some (stored now cp)
        else lookup log_file (load_by_source source rows)))
      × IsKeyed (upsert now cp rows)
unfolding load_by_source upsert row_of lookup
load-upsert source log_file now cp rows k = (
  lookup-load_rows source log_file (upsert_row (row_of now cp) rows) []
      ∙ last_of-upsert_row source log_file (row_of now cp) rows none k
      ∙ rw (lookup-load_rows source log_file rows [], checkpoint_of-row_of),
  upsert_row-IsKeyed (row_of now cp) rows k,
)
