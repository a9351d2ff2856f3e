-- ===== src/Tail/Store.antt =====
-- cmd/codespace-tail-proto/state.go: the store of the checkpoints, one row for a source and a log file.
-- A statement is what its SQL says, and does not fail; NULL is `none`. Sizes of files are below 2^63.
pub mod RoundTrip
use copilot_token_cost.Prelude.{
  ℕ, Bool, not, ◌&&◌, Option, none, some, List, [], ◌∷◌, Bytes, codes, keep, trim_space, ◌==◌,
  bytes_eq, if◌then◌else◌,
}
use copilot_token_cost.Prelude.Maps.{Map, insert}

pub record TailCheckpoint : Type 0 where
  pub source : Bytes
  pub log_file : Bytes
  pub last_offset : ℕ
  pub last_size : ℕ
  pub last_mtime : Bytes
  pub last_hash : Bytes
  pub connection_state : Bytes
  pub last_error : Bytes
  pub last_chunk_at : Bytes
  pub last_full_copy_at : Bytes
  pub last_defensive_recopy_at : Bytes
  pub updated_at : Bytes

-- `tailCheckpoint{}`
abbrev pub no_checkpoint : TailCheckpoint
no_checkpoint = record {
  source = [];
  log_file = [];
  last_offset = 0;
  last_size = 0;
  last_mtime = [];
  last_hash = [];
  connection_state = [];
  last_error = [];
  last_chunk_at = [];
  last_full_copy_at = [];
  last_defensive_recopy_at = [];
  updated_at = [];
}

-- A row of codespace_tail_offsets.
pub record TailOffset : Type 0 where
  pub source : Bytes
  pub log_file : Bytes
  pub last_offset : ℕ
  pub last_size : ℕ
  pub last_mtime : Option Bytes
  pub last_hash : Option Bytes
  pub connection_state : Bytes
  pub last_error : Option Bytes
  pub last_chunk_at : Option Bytes
  pub last_full_copy_at : Option Bytes
  pub last_defensive_recopy_at : Option Bytes
  pub updated_at : Bytes

unfoldable pub nullable_string : Bytes → Option Bytes
nullable_string value = let v = trim_space value in if v == [] then none else some v

-- The field `String` of a NullString.
abbrev pub string_of : Option Bytes → Bytes
string_of none = []
string_of (some v) = v

unfoldable pub checkpoint_of : TailOffset → TailCheckpoint
checkpoint_of row = record {
  source = row.source;
  log_file = row.log_file;
  last_offset = row.last_offset;
  last_size = row.last_size;
  last_mtime = string_of row.last_mtime;
  last_hash = string_of row.last_hash;
  connection_state = row.connection_state;
  last_error = string_of row.last_error;
  last_chunk_at = string_of row.last_chunk_at;
  last_full_copy_at = string_of row.last_full_copy_at;
  last_defensive_recopy_at = string_of row.last_defensive_recopy_at;
  updated_at = row.updated_at;
}

-- `out[cp.LogFile] = cp` for each row.
unfoldable pub load_rows : List TailOffset → Map Bytes TailCheckpoint → Map Bytes TailCheckpoint
load_rows [] out = out
load_rows (row ∷ rows) out = load_rows rows (insert row.log_file (checkpoint_of row) out)

unfoldable pub load_by_source : Bytes → List TailOffset → Map Bytes TailCheckpoint
load_by_source source rows = load_rows (keep (λ r. r.source == source) rows) []

-- The row that the values of `Upsert` are bound to; `now` is the time of the call.
unfoldable pub row_of : Bytes → TailCheckpoint → TailOffset
row_of now cp = record {
  source = cp.source;
  log_file = cp.log_file;
  last_offset = cp.last_offset;
  last_size = cp.last_size;
  last_mtime = nullable_string cp.last_mtime;
  last_hash = nullable_string cp.last_hash;
  connection_state =
      if trim_space cp.connection_state == [] then codes "connected" else cp.connection_state;
  last_error = nullable_string cp.last_error;
  last_chunk_at = nullable_string cp.last_chunk_at;
  last_full_copy_at = nullable_string cp.last_full_copy_at;
  last_defensive_recopy_at = nullable_string cp.last_defensive_recopy_at;
  updated_at = now;
}

abbrev pub is_row : Bytes → Bytes → TailOffset → Bool
is_row source log_file r = r.source == source && r.log_file == log_file

-- ON CONFLICT(source,log_file) DO UPDATE sets every other column from the new row.
unfoldable pub upsert_row : TailOffset → List TailOffset → List TailOffset
upsert_row row [] = row ∷ []
upsert_row row (old ∷ rows) =
    let later = upsert_row row rows in
    if is_row row.source row.log_file old then row ∷ rows else old ∷ later

unfoldable pub upsert : Bytes → TailCheckpoint → List TailOffset → List TailOffset
upsert now cp rows = upsert_row (row_of now cp) rows

unfoldable pub mark_disconnected : Bytes → Bytes → Bytes → Bytes → List TailOffset → List TailOffset
mark_disconnected now source log_file reason rows =
    upsert now
      (record no_checkpoint {
        source = source;
        log_file = log_file;
        connection_state = codes "disconnected";
        last_error = trim_space reason;
      })
      rows
