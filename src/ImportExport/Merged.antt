-- ===== src/ImportExport/Merged.antt =====
-- What an import of a database adds to the calls.
use copilot_token_cost.Prelude.{
  ◌≡◌, refl, ap, sym, ◌∙◌, Bool, true, false, not, ◌&&◌, ◌||◌, Option, none, some, List, [], ◌∷◌,
  ◌++◌, Bytes, length, map, any, keep, All, All-map, append-nil, append_assoc, nat_eq, bytes_eq,
  eq_iff, arith, Bool-cases, inl, inr,
}
use copilot_token_cost.Prelude.Maps.{is_some}
use copilot_token_cost.ImportExport.{
  StoredCall, StoredTables, Columns, sql_eq, same_stored_key, imported_call, insert_stored,
  insert_calls, import_sqlite_db,
}

-- The table has a row with the key of the call.
abbrev pub holds : StoredCall → List StoredCall → Bool
holds k rows = any (λ old. same_stored_key old k) rows

-- No row has the key of another.
abbrev pub IsUnique : List StoredCall → Type 0
IsUnique [] = Unit
IsUnique (row ∷ rows) = (any (same_stored_key row) rows ≡ false) × IsUnique rows

-- No column of its key is NULL.
abbrev pub has_key : StoredCall → Bool
has_key a = is_some a.timestamp && is_some a.log_file && is_some a.source

-- A table that begins with the rows of another.
abbrev pub Extends : List StoredCall → List StoredCall → Type 0
Extends rows more = (added : List StoredCall) × (more ≡ rows ++ added)

sql_eq_left : (a b c : Option Bytes) → sql_eq a b ≡ true → sql_eq a c ≡ sql_eq b c
sql_eq_left none b c h = cc
sql_eq_left (some a) none c h = cc
sql_eq_left (some a) (some b) c h = ap (λ x. sql_eq (some x) c) ((eq_iff a b).0 h)

sql_eq_missing : (a b : Option Bytes) → is_some b ≡ false → sql_eq a b ≡ false
sql_eq_missing none b h = refl
sql_eq_missing (some a) none h = refl
sql_eq_missing (some a) (some b) h = cc

sql_eq_self : (a : Option Bytes) → sql_eq a a ≡ is_some a
sql_eq_self none = refl
sql_eq_self (some a) = (eq_iff a a).1 refl

same_key_self : (a : StoredCall) → same_stored_key a a ≡ has_key a
unfolding same_stored_key
same_key_self a = ground (
  arith,
  sql_eq_self a.timestamp,
  sql_eq_self a.log_file,
  sql_eq_self a.source,
  eq_iff a.model a.model,
)

same_key_left :
    (old row k : StoredCall)
    → same_stored_key old row ≡ true
    → same_stored_key old k ≡ same_stored_key row k
unfolding same_stored_key
same_key_left old row k h =
    let model : old.model ≡ row.model = ground (arith, eq_iff old.model row.model, h) in
    let prompt : old.prompt_tokens ≡ row.prompt_tokens = ground (arith, h) in
    let completion : old.completion_tokens ≡ row.completion_tokens = ground (arith, h) in
    rw (
      sql_eq_left old.timestamp row.timestamp k.timestamp (ground (arith, h)),
      sql_eq_left old.log_file row.log_file k.log_file (ground (arith, h)),
      sql_eq_left old.source row.source k.source (ground (arith, h)),
      model,
      prompt,
      completion,
    )

no_key : (old row : StoredCall) → has_key row ≡ false → same_stored_key old row ≡ false
unfolding same_stored_key
no_key old row h = ground (
  arith,
  sql_eq_missing old.timestamp row.timestamp,
  sql_eq_missing old.log_file row.log_file,
  sql_eq_missing old.source row.source,
  h,
)

no_key-holds :
    (row : StoredCall) (rows : List StoredCall) → has_key row ≡ false → holds row rows ≡ false
no_key-holds row [] h = refl
no_key-holds row (old ∷ rows) h = rw (no_key old row h) (no_key-holds row rows h)

any-append :
    (p : StoredCall → Bool) (rows more : List StoredCall)
    → any p (rows ++ more) ≡ (any p rows || any p more)
any-append p [] more = refl
any-append p (row ∷ rows) more = ground (arith, any-append p rows more)

-- A table that holds a call holds every call of its key.
held_alike :
    (k row : StoredCall) (rows : List StoredCall)
    → holds row rows ≡ true
    → same_stored_key row k ≡ true
    → holds k rows ≡ true
held_alike k row [] h e = h
held_alike k row (old ∷ rows) h e = ground (arith, same_key_left old row k, held_alike k row rows)

holds-insert_stored :
    (k row : StoredCall) (rows : List StoredCall)
    → holds k (insert_stored row rows) ≡ (holds k rows || same_stored_key row k)
unfolding insert_stored
holds-insert_stored k row rows = elim (Bool-cases (holds row rows)) [
  | inl e ↦ rw e (ground (arith, held_alike k row rows e))
  | inr e ↦ rw e (ground (arith, any-append (λ old. same_stored_key old k) rows (row ∷ [])))
]

holds-insert_calls :
    (k : StoredCall) (calls rows : List StoredCall)
    → holds k (insert_calls calls rows) ≡ (holds k rows || holds k calls)
unfolding insert_calls
holds-insert_calls k [] rows = ground arith
holds-insert_calls k (a ∷ calls) rows =
    ground (arith, holds-insert_calls k calls (insert_stored a rows), holds-insert_stored k a rows)

append-IsUnique :
    (row : StoredCall) (rows : List StoredCall)
    → holds row rows ≡ false
    → IsUnique rows
    → IsUnique (rows ++ row ∷ [])
append-IsUnique row [] h k = (refl, tt)
append-IsUnique row (old ∷ rows) h (k, ks) = (
  any-append (same_stored_key old) rows (row ∷ []) ∙ ground (arith, h, k),
  append-IsUnique row rows (ground (arith, h)) ks,
)

insert_calls-IsUnique :
    (calls rows : List StoredCall) → IsUnique rows → IsUnique (insert_calls calls rows)
unfolding insert_calls insert_stored
insert_calls-IsUnique [] rows h = h
insert_calls-IsUnique (a ∷ calls) rows h = elim (Bool-cases (holds a rows)) [
  | inl e ↦ rw e (insert_calls-IsUnique calls rows h)
  | inr e ↦ rw e (insert_calls-IsUnique calls (rows ++ a ∷ []) (append-IsUnique a rows e h))
]

insert_calls-Extends : (calls rows : List StoredCall) → Extends rows (insert_calls calls rows)
unfolding insert_calls insert_stored
insert_calls-Extends [] rows = ([], sym (append-nil rows))
insert_calls-Extends (a ∷ calls) rows = elim (Bool-cases (holds a rows)) [
  | inl e ↦ rw e (insert_calls-Extends calls rows)
  | inr e ↦
      let (rest, f) = insert_calls-Extends calls (rows ++ a ∷ []) in
      rw e (a ∷ rest, f ∙ append_assoc rows (a ∷ []) rest)
]

-- The calls that a table cannot know again.
abbrev pub keyless : List StoredCall → List StoredCall
keyless = keep (λ a. not (has_key a))

-- Where the table has every call that has a key, the others are added once more.
insert_held :
    (calls rows : List StoredCall)
    → All (λ a. (not (has_key a) || holds a rows) ≡ true) calls
    → insert_calls calls rows ≡ rows ++ keyless calls
unfolding insert_calls insert_stored
insert_held [] rows h = sym (append-nil rows)
insert_held (a ∷ calls) rows (h, hs) = elim (Bool-cases (has_key a)) [
  | inl e ↦
      let held : holds a rows ≡ true = ground (arith, e, h) in
      rw (held, e) (insert_held calls rows hs)
  | inr e ↦
      let later =
        All-map (λ b. (not (has_key b) || holds b rows) ≡ true)
          (λ b. (not (has_key b) || holds b (rows ++ a ∷ [])) ≡ true) calls
          (λ b k. ground (arith, any-append (λ old. same_stored_key old b) rows (a ∷ []), k)) hs in
      rw (no_key-holds a rows e, e)
        (insert_held calls (rows ++ a ∷ []) later ∙ append_assoc rows (a ∷ []) (keyless calls))
]

held_by_itself :
    (calls : List StoredCall) → All (λ a. (not (has_key a) || holds a calls) ≡ true) calls
held_by_itself [] = tt
held_by_itself (a ∷ calls) = (
  ground (arith, same_key_self a),
  All-map (λ b. (not (has_key b) || holds b calls) ≡ true)
      (λ b. (not (has_key b) || holds b (a ∷ calls)) ≡ true) calls (λ b h. ground (arith, h))
      (held_by_itself calls),
)

insert_twice :
    (calls rows : List StoredCall)
    → insert_calls calls (insert_calls calls rows) ≡ insert_calls calls rows ++ keyless calls
insert_twice calls rows = insert_held calls (insert_calls calls rows) (
    All-map (λ a. (not (has_key a) || holds a calls) ≡ true)
      (λ a. (not (has_key a) || holds a (insert_calls calls rows)) ≡ true) calls
      (λ a h. ground (arith, holds-insert_calls a calls rows, h)) (held_by_itself calls))

-- An import of a database, with or without a source of its own, keeps the UNIQUE constraint of the calls and
-- every row as it was, in its place; the table then has a row of a key exactly where it had one or an
-- imported call has that key; and to import the same database once more adds just the calls again in whose
-- key a column is NULL, and no other. The number that it returns is that of the rows of parsed_logs in the
-- imported database, whatever calls were added.
pub import_sqlite_db_lem {ℓ} :
    {W : Type ℓ} (columns : Columns) (source_override : Bytes) (imported db : StoredTables W)
    → IsUnique db.api_calls
    → let (after, count) = import_sqlite_db columns source_override imported db in
      let calls = map (imported_call columns source_override) imported.api_calls in
      IsUnique after.api_calls
      × Extends db.api_calls after.api_calls
      × ((k : StoredCall) → holds k after.api_calls ≡ (holds k db.api_calls || holds k calls))
      × ((import_sqlite_db columns source_override imported after).0.api_calls
          ≡ after.api_calls ++ keyless calls)
      × (count ≡ length imported.parsed_logs)
unfolding import_sqlite_db
import_sqlite_db_lem columns source_override imported db h =
    let calls = map (imported_call columns source_override) imported.api_calls in
    (
      insert_calls-IsUnique calls db.api_calls h,
      insert_calls-Extends calls db.api_calls,
      λ k. holds-insert_calls k calls db.api_calls,
      insert_twice calls db.api_calls,
      refl,
    )
