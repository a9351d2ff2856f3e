-- ===== src/Tail/Files.antt =====
-- cmd/codespace-tail-proto: copying and sampling files. The client of the remote side is not under the
-- repository's source: what its calls give is an argument, and so are the digest and the local faults.
pub mod Copies
pub mod Samples
use copilot_token_cost.Prelude.{
  ℕ, ◌+◌, ◌-◌, Bool, true, false, Option, none, some, List, [], ◌∷◌, ◌++◌, Bytes, length, take,
  drop, ltb, leb, ◌==◌, bytes_eq, if◌then◌else◌,
}
use copilot_token_cost.Prelude.Maps.{Map, lookup, insert}

-- An error: its text, and whether `os.IsNotExist` holds of it.
pub record Fault : Type 0 where
  pub text : Bytes
  pub is_not_exist : Bool

pub data Try {ℓ} (A : Type ℓ) : Type ℓ where
  ok : A → Try A
  failed : Fault → Try A

-- What `client.Stat` says: the size and the time, as it is printed.
pub record FileInfo : Type 0 where
  pub size : ℕ
  pub mod_time : Bytes

-- What the reader gives up to its end, and the error that cut it short, if one did.
pub record Stream : Type 0 where
  pub bytes : Bytes
  pub cut : Option Fault

pub record Client : Type 0 where
  pub stat : Bytes → Try FileInfo
  -- `Open`, `Seek` to the offset, and read
  pub read_from : Bytes → ℕ → Try Stream
  -- `Open` for `ReadAt`; the length comes behind the offset
  pub read_at : Bytes → Try (ℕ → ℕ → Try Bytes)

-- The local side: whether a file can be opened for writing, and whether it can be read.
pub record Disk : Type 0 where
  pub files : Map Bytes Bytes
  pub write_fault : Bytes → Option Fault
  pub read_fault : Bytes → Option Fault

abbrev pub content_of : Option Bytes → Bytes
content_of none = []
content_of (some c) = c

-- io.Copy into an open file: the bytes that were read are written, an error is passed on.
unfoldable pub copy_into : Bytes → Bytes → Stream → Disk → Disk × Try ℕ
copy_into local_path start s disk =
    let written = record disk { files = insert local_path (start ++ s.bytes) disk.files } in
    elim s.cut [ none ↦ (written, ok (length s.bytes)) | some e ↦ (written, failed e) ]

-- Opening comes in the order of the code: the remote file, then the local one.
unfoldable pub open_both : Try Stream → Option Fault → Disk → (Stream → Disk × Try ℕ) → Disk × Try ℕ
open_both (failed e) w disk go = (disk, failed e)
open_both (ok s) (some e) disk go = (disk, failed e)
open_both (ok s) none disk go = go s

-- os.Create leaves nothing of the old file.
unfoldable pub full_copy : Client → Bytes → Bytes → Disk → Disk × Try ℕ
full_copy client remote_path local_path disk =
    open_both (client.read_from remote_path 0) (disk.write_fault local_path) disk
      (λ s. copy_into local_path [] s disk)

-- O_CREATE and O_APPEND.
unfoldable pub append_delta : Client → Bytes → Bytes → ℕ → Disk → Disk × Try ℕ
append_delta client remote_path local_path offset disk =
    open_both (client.read_from remote_path offset) (disk.write_fault local_path) disk
      (λ s. copy_into local_path (content_of (lookup local_path disk.files)) s disk)

abbrev pub sample_window : ℕ
sample_window = 65_536

-- `writeChunk`: nothing is read of length 0, and no more than the length.
unfoldable pub read_chunk : (ℕ → ℕ → Try Bytes) → ℕ → ℕ → Try Bytes
read_chunk read_at offset size = if leb size 0 then ok [] else (elim (read_at offset size) [
  | failed e ↦ failed e
  | ok b ↦ if ltb size (length b) then failed (record { text = []; is_not_exist = false }) else ok b
])

unfoldable pub two_chunks : Try Bytes → Try Bytes → Try Bytes
two_chunks (failed e) b = failed e
two_chunks (ok a) (failed e) = failed e
two_chunks (ok a) (ok b) = ok (a ++ b)

-- The digest in hexadecimal is an argument.
unfoldable pub digest_of : (Bytes → Bytes) → Try Bytes → Try Bytes
digest_of digest (failed e) = failed e
digest_of digest (ok b) = ok (digest b)

unfoldable pub sample_hash_from_read_at : (Bytes → Bytes) → ℕ → (ℕ → ℕ → Try Bytes) → Try Bytes
sample_hash_from_read_at digest size read_at = digest_of digest (
    if leb size sample_window
    then read_chunk read_at 0 size
    else two_chunks (read_chunk read_at 0 sample_window)
        (read_chunk read_at (size - sample_window) sample_window))

-- `ReadAt` of a local file: what there is of the range.
unfoldable pub read_local_at : Bytes → ℕ → ℕ → Try Bytes
read_local_at content offset size = ok (take size (drop offset content))

-- The hash and the size.
unfoldable pub local_sample_of : (Bytes → Bytes) → Option Fault → Option Bytes → Option (Bytes × ℕ)
local_sample_of digest fault none = none
local_sample_of digest (some e) (some content) = none
local_sample_of digest none (some content) =
    elim (sample_hash_from_read_at digest (length content) (read_local_at content)) [
      | failed e ↦ none
      | ok h ↦ some (h, length content)
    ]

unfoldable pub local_sample_hash : (Bytes → Bytes) → Bytes → Disk → Option (Bytes × ℕ)
local_sample_hash digest path disk =
    local_sample_of digest (disk.read_fault path) (lookup path disk.files)

unfoldable pub remote_sample_hash : (Bytes → Bytes) → Client → Bytes → ℕ → Option Bytes
remote_sample_hash digest client remote_path size = elim (client.read_at remote_path) [
  | failed e ↦ none
  | ok read_at ↦ elim (sample_hash_from_read_at digest size read_at) [
    | failed e ↦ none
    | ok h ↦ some h
  ]
]
