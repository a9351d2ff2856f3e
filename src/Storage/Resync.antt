-- ===== src/Storage/Resync.antt =====
-- Syncing the same records again.
use copilot_token_cost.Prelude.{
  ◌≡◌, refl, ap, sym, subst, ◌∙◌, Bool, true, false, Option, none, some, List, [], ◌∷◌, Bytes,
  length, every, ◌⊎◌, All, All-map, keep, ◌==◌, nat_eq, bytes_eq, if◌then◌else◌, arith, Bool-cases,
  inl, inr,
}
use copilot_token_cost.Domain.{Record}
use copilot_token_cost.Storage.{ApiCall}
use copilot_token_cost.Storage.Calls.{
  same_call, on_conflict, upsert_call, coalesce, row_of, upsert_records,
}
use copilot_token_cost.Storage.Unique.{
  same_call_refl, same_call-on_conflict, same_call-left, same_call_symm, holds, holds-upsert,
  length-upsert,
}

-- The first row with the key of `k`.
abbrev pub find : ApiCall → List ApiCall → Option ApiCall
find k [] = none
find k (r ∷ rows) = if same_call r k then some r else find k rows

-- What one record does to the row of its key.
abbrev pub put : Option ApiCall → ApiCall → ApiCall
put none row = row
put (some old) row = on_conflict old row

-- What rows of one key, in their order, do to the row of that key.
abbrev pub put_all : Option ApiCall → List ApiCall → Option ApiCall
put_all o [] = o
put_all o (row ∷ rows) = put_all (some (put o row)) rows

find-upsert :
    (k row : ApiCall) (rows : List ApiCall)
    → find k (upsert_call row rows)
      ≡ (if same_call row k then some (put (find k rows) row) else find k rows)
unfolding upsert_call
find-upsert k row [] = ground arith
find-upsert k row (old ∷ rows) = ground (
  arith,
  same_call-left old row k,
  same_call-left row k old,
  same_call_symm old row,
  same_call_symm old k,
  find-upsert k row rows,
  same_call-on_conflict old row k,
)

-- The row after any number of conflicts, by its three columns that may change.
fold : ApiCall → List ApiCall → ApiCall
fold c [] = c
fold c (r ∷ rs) = fold (on_conflict c r) rs

put_all-some : (c : ApiCall) (rs : List ApiCall) → put_all (some c) rs ≡ some (fold c rs)
unfolding fold
put_all-some c [] = refl
put_all-some c (r ∷ rs) = put_all-some (on_conflict c r) rs

abbrev is_empty : Bytes → Bool
is_empty s = s == []

-- A prompt that is not empty stays.
prompt_kept :
    (c : ApiCall) (rs : List ApiCall)
    → is_empty (coalesce c.prompt_text) ≡ false
    → (fold c rs).prompt_text ≡ c.prompt_text
unfolding fold on_conflict
prompt_kept c [] h = refl
prompt_kept c (r ∷ rs) h =
    let e : (on_conflict c r).prompt_text ≡ c.prompt_text = rw h in
    prompt_kept (on_conflict c r) rs (rw e h) ∙ e

abbrev no_prompts : List ApiCall → Bool
no_prompts = every (λ r. is_empty (coalesce r.prompt_text))

prompt_still :
    (c : ApiCall) (rs : List ApiCall)
    → no_prompts rs ≡ true
    → (fold c rs).prompt_text ≡ c.prompt_text
unfolding fold on_conflict
prompt_still c [] h = refl
prompt_still c (r ∷ rs) h = elim (Bool-cases (is_empty (coalesce r.prompt_text))) [
  | inl e ↦
      let same : (on_conflict c r).prompt_text ≡ c.prompt_text = ground arith in
      prompt_still (on_conflict c r) rs (ground arith) ∙ same
  | inr e ↦ ground arith
]

prompt_empty :
    (c : ApiCall) (rs : List ApiCall)
    → is_empty (coalesce (fold c rs).prompt_text) ≡ true
    → no_prompts rs ≡ true
unfolding fold on_conflict
prompt_empty c [] h = refl
prompt_empty c (r ∷ rs) h = elim (Bool-cases (is_empty (coalesce r.prompt_text))) [
  | inl e ↦ rw e (prompt_empty (on_conflict c r) rs h)
  | inr e ↦
      let taken : is_empty (coalesce (on_conflict c r).prompt_text) ≡ false = ground arith in
      cc (
        taken,
        ap (λ (o : Option Bytes). is_empty (coalesce o)) (prompt_kept (on_conflict c r) rs taken),
        h,
      )
]

prompt_twice :
    (c : ApiCall) (rs : List ApiCall) → (fold (fold c rs) rs).prompt_text ≡ (fold c rs).prompt_text
prompt_twice c rs = elim (Bool-cases (is_empty (coalesce (fold c rs).prompt_text))) [
  | inl e ↦ prompt_still (fold c rs) rs (prompt_empty c rs e)
  | inr e ↦ prompt_kept (fold c rs) rs e
]

abbrev no_sessions : List ApiCall → Bool
no_sessions = every (λ r. is_empty r.session_id)

session_still :
    (c : ApiCall) (rs : List ApiCall)
    → no_sessions rs ≡ true
    → (fold c rs).session_id ≡ c.session_id
unfolding fold on_conflict
session_still c [] h = refl
session_still c (r ∷ rs) h =
    let same : (on_conflict c r).session_id ≡ c.session_id = ground arith in
    session_still (on_conflict c r) rs (ground arith) ∙ same

session_moved :
    (c d : ApiCall) (rs : List ApiCall)
    → (c.session_id ≡ d.session_id) ⊎ (no_sessions rs ≡ false)
    → (fold c rs).session_id ≡ (fold d rs).session_id
unfolding fold on_conflict
session_moved c d [] (inl e) = e
session_moved c d [] (inr e) = cc
session_moved c d (r ∷ rs) (inl e) =
    session_moved (on_conflict c r) (on_conflict d r) rs (inl (ground arith))
session_moved c d (r ∷ rs) (inr e) = elim (Bool-cases (is_empty r.session_id)) [
  | inl b ↦ session_moved (on_conflict c r) (on_conflict d r) rs (inr (ground arith))
  | inr b ↦ session_moved (on_conflict c r) (on_conflict d r) rs (inl (ground arith))
]

session_twice :
    (c : ApiCall) (rs : List ApiCall) → (fold (fold c rs) rs).session_id ≡ (fold c rs).session_id
session_twice c rs = elim (Bool-cases (no_sessions rs)) [
  | inl e ↦ session_still (fold c rs) rs e
  | inr e ↦ session_moved (fold c rs) c rs (inr e)
]

turn_moved :
    (c d : ApiCall) (rs : List ApiCall)
    → c.is_user_turn ≡ d.is_user_turn
    → (fold c rs).is_user_turn ≡ (fold d rs).is_user_turn
unfolding fold on_conflict
turn_moved c d [] e = e
turn_moved c d (r ∷ rs) e = turn_moved (on_conflict c r) (on_conflict d r) rs refl

turn_twice :
    (c : ApiCall) (rs : List ApiCall)
    → (fold (fold c rs) rs).is_user_turn ≡ (fold c rs).is_user_turn
unfolding fold on_conflict
turn_twice c [] = refl
turn_twice c (r ∷ rs) =
    turn_moved (on_conflict (fold (on_conflict c r) rs) r) (on_conflict c r) rs refl

-- The columns that no conflict changes.
abbrev fixed : ApiCall → ApiCall
fixed c = record c { prompt_text = none; session_id = []; is_user_turn = 0 }

fixed-fold : (c : ApiCall) (rs : List ApiCall) → fixed (fold c rs) ≡ fixed c
unfolding fold on_conflict
fixed-fold c [] = refl
fixed-fold c (r ∷ rs) = fixed-fold (on_conflict c r) rs

of_columns :
    (a b : ApiCall)
    → fixed a ≡ fixed b
    → a.prompt_text ≡ b.prompt_text
    → a.session_id ≡ b.session_id
    → a.is_user_turn ≡ b.is_user_turn
    → a ≡ b
of_columns a b e p s t = λ i. record {
  model = (e i).model;
  model_normalized = (e i).model_normalized;
  prompt_tokens = (e i).prompt_tokens;
  completion_tokens = (e i).completion_tokens;
  prompt_text = p i;
  cache_creation_tokens = (e i).cache_creation_tokens;
  cache_read_tokens = (e i).cache_read_tokens;
  is_user_turn = t i;
  timestamp = (e i).timestamp;
  session_id = s i;
  log_file = (e i).log_file;
  source = (e i).source;
}

fold_twice : (c : ApiCall) (rs : List ApiCall) → fold (fold c rs) rs ≡ fold c rs
fold_twice c rs =
    of_columns _ _ (fixed-fold (fold c rs) rs) (prompt_twice c rs) (session_twice c rs)
      (turn_twice c rs)

on_conflict_self : (r : ApiCall) → on_conflict r r ≡ r
unfolding on_conflict
on_conflict_self r = of_columns _ _ refl (ground arith) (ground arith) refl

put_all_again :
    (c r : ApiCall) (rs : List ApiCall)
    → put_all (some (put (put_all (some (on_conflict c r)) rs) r)) rs
      ≡ put_all (some (on_conflict c r)) rs
unfolding fold
put_all_again c r rs =
    rw (put_all-some (on_conflict c r) rs) (
      put_all-some (on_conflict (fold (on_conflict c r) rs) r) rs ∙ ap some (fold_twice c (r ∷ rs)))

put_all_twice : (o : Option ApiCall) (rs : List ApiCall) → put_all (put_all o rs) rs ≡ put_all o rs
put_all_twice o [] = refl
put_all_twice (some c) (r ∷ rs) = put_all_again c r rs
put_all_twice none (r ∷ rs) =
    subst (λ c. put_all (some (put (put_all (some c) rs) r)) rs ≡ put_all (some c) rs)
      (on_conflict_self r) (put_all_again r r rs)

abbrev rows_of :
    (Bytes → Bytes) → (Option Bytes → Option Bytes) → Bytes → List Record → List ApiCall
rows_of normalize prompt source [] = []
rows_of normalize prompt source (r ∷ rs) =
    row_of normalize prompt source r ∷ rows_of normalize prompt source rs

abbrev of_key : ApiCall → List ApiCall → List ApiCall
of_key k = keep (λ row. same_call row k)

module _ (normalize : Bytes → Bytes) (prompt : Option Bytes → Option Bytes) (source : Bytes) where
  find-upsert_records :
      (k : ApiCall) (rs : List Record) (rows : List ApiCall)
      → find k (upsert_records normalize prompt source rs rows)
        ≡ put_all (find k rows) (of_key k (rows_of normalize prompt source rs))
  unfolding upsert_records
  find-upsert_records k [] rows = refl
  find-upsert_records k (r ∷ rs) rows =
      let row = row_of normalize prompt source r in
      let rest = find-upsert_records k rs (upsert_call row rows) in
      elim (Bool-cases (same_call row k)) [
        | inl e ↦ rw (rest, find-upsert k row rows, e)
        | inr e ↦ rw (rest, find-upsert k row rows, e)
      ]

  holds-upsert_records :
      (k : ApiCall) (rs : List Record) (rows : List ApiCall)
      → holds k rows ≡ true
      → holds k (upsert_records normalize prompt source rs rows) ≡ true
  unfolding upsert_records
  holds-upsert_records k [] rows h = h
  holds-upsert_records k (r ∷ rs) rows h =
      let row = row_of normalize prompt source r in
      holds-upsert_records k rs (upsert_call row rows) (ground (arith, holds-upsert k row rows))

  still_holds :
      (rs : List Record) (rows : List ApiCall)
      → All
          (λ k. holds k (upsert_records normalize prompt source rs rows) ≡ true)
          (rows_of normalize prompt source rs)
  unfolding upsert_records
  still_holds [] rows = tt
  still_holds (r ∷ rs) rows =
      let row = row_of normalize prompt source r in
      (
        holds-upsert_records row rs (upsert_call row rows)
            (ground (arith, holds-upsert row row rows, same_call_refl row)),
        still_holds rs (upsert_call row rows),
      )

  length_still :
      (rs : List Record) (rows : List ApiCall)
      → All (λ k. holds k rows ≡ true) (rows_of normalize prompt source rs)
      → length (upsert_records normalize prompt source rs rows) ≡ length rows
  unfolding upsert_records
  length_still [] rows h = refl
  length_still (r ∷ rs) rows (h, hs) =
      let row = row_of normalize prompt source r in
      let kept =
        All-map (λ k. holds k rows ≡ true) (λ k. holds k (upsert_call row rows) ≡ true)
          (rows_of normalize prompt source rs) (λ k held. ground (arith, holds-upsert k row rows))
          hs in
      length_still rs (upsert_call row rows) kept ∙ ground (arith, length-upsert row rows)

  -- Syncing the same records once more adds no row, and leaves the row of every key as it was: prompt
  -- texts, sessions and user turns included.
  pub resync :
      (rs : List Record) (rows : List ApiCall)
      → let once = upsert_records normalize prompt source rs rows in
        let twice = upsert_records normalize prompt source rs once in
        (length twice ≡ length once) × ((k : ApiCall) → find k twice ≡ find k once)
  resync rs rows = (
    length_still rs _ (still_holds rs rows),
    λ k.
        find-upsert_records k rs (upsert_records normalize prompt source rs rows)
        ∙ ap (λ o. put_all o (of_key k (rows_of normalize prompt source rs)))
            (find-upsert_records k rs rows)
        ∙ put_all_twice (find k rows) (of_key k (rows_of normalize prompt source rs))
        ∙ sym (find-upsert_records k rs rows),
  )
