-- ===== src/Tail/Files/Copies.antt =====
-- What the copies do where the remote file does not change meanwhile and nothing fails.
use copilot_token_cost.Prelude.{
  ℕ, ◌≡◌, refl, Option, none, some, ◌++◌, Bytes, length, drop, bytes_eq, eq_iff,
}
use copilot_token_cost.Prelude.Maps.{lookup, insert, lookup-insert}
use copilot_token_cost.Tail.Files.{
  Fault, Try, ok, failed, FileInfo, Client, Disk, copy_into, open_both, full_copy, append_delta,
  sample_hash_from_read_at, read_local_at, local_sample_of, local_sample_hash,
}

-- The remote file holds these bytes for as long as a pass takes, and reading it does not fail.
pub record IsStable (client : Client) (path : Bytes) (c : Bytes) : Type 0 where
  pub info : FileInfo
  pub stat : client.stat path ≡ ok info
  pub size : info.size ≡ length c
  pub read_from : (n : ℕ) → client.read_from path n ≡ ok (record { bytes = drop n c; cut = none })

-- The disk with one file written.
abbrev pub with_file : Bytes → Bytes → Disk → Disk
with_file path c disk = record disk { files = insert path c disk.files }

module _ (client : Client) (remote_path local_path : Bytes) (disk : Disk) (c : Bytes) where
  pub full_copy_lem :
      IsStable client remote_path c
      → disk.write_fault local_path ≡ none
      → full_copy client remote_path local_path disk ≡ (with_file local_path c disk, ok (length c))
  unfolding full_copy open_both copy_into
  full_copy_lem s w = rw (s.read_from 0, w)

  pub append_delta_lem :
      (offset : ℕ) (old : Bytes)
      → IsStable client remote_path c
      → disk.write_fault local_path ≡ none
      → lookup local_path disk.files ≡ some old
      → append_delta client remote_path local_path offset disk
        ≡ (with_file local_path (old ++ drop offset c) disk, ok (length (drop offset c)))
  unfolding append_delta open_both copy_into
  append_delta_lem offset old s w l = rw (s.read_from offset, w, l)

pub lookup-with_file :
    (path c : Bytes) (disk : Disk) → lookup path (with_file path c disk).files ≡ some c
lookup-with_file path c disk = rw (lookup-insert, (eq_iff path path).1 refl)

-- A sample has the size of the file.
abbrev pub HasSize : ℕ → Option (Bytes × ℕ) → Type 0
HasSize n none = Unit
HasSize n (some (h, m)) = m ≡ n

sample_size :
    (digest : Bytes → Bytes) (fault : Option Fault) (c : Bytes)
    → HasSize (length c) (local_sample_of digest fault (some c))
unfolding local_sample_of
sample_size digest (some e) c = tt
sample_size digest none c = sized (sample_hash_from_read_at digest (length c) (read_local_at c))
  where
    sized :
        (t : Try Bytes)
        → HasSize (length c) (elim t [ failed e ↦ none | ok h ↦ some (h, length c) ])
    sized (failed e) = tt
    sized (ok h) = refl

pub local_sample_hash-HasSize :
    (digest : Bytes → Bytes) (path c : Bytes) (disk : Disk)
    → lookup path disk.files ≡ some c
    → HasSize (length c) (local_sample_hash digest path disk)
unfolding local_sample_hash
local_sample_hash-HasSize digest path c disk l = rw l (sample_size digest (disk.read_fault path) c)
