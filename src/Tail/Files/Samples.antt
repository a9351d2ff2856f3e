-- ===== src/Tail/Files/Samples.antt =====
-- What the samples are where reading does not fail.
use copilot_token_cost.Prelude.{
  ℕ, zero, suc, ◌-◌, ◌≤◌, ◌≡◌, refl, ap, false, none, some, [], ◌∷◌, ◌++◌, Bytes, length, take,
  drop, length-take, length-drop, length-append, ltb, leb, le→leb, if◌then◌else◌, arith, Bool-cases,
  inl, inr, bytes_eq,
}
use copilot_token_cost.Prelude.Maps.{lookup}
use copilot_token_cost.Tail.Files.{
  Try, ok, Client, Disk, sample_window, read_chunk, two_chunks, digest_of, sample_hash_from_read_at,
  read_local_at, local_sample_of, local_sample_hash, remote_sample_hash,
}

-- The bytes that a sample digests.
pub sampled : Bytes → Bytes
sampled content =
    if leb (length content) sample_window
    then content
    else take sample_window content
      ++ take sample_window (drop (length content - sample_window) content)

-- A sample tells a small file from every other file.
pub sampled_small : (a c : Bytes) → length c ≤ sample_window → sampled a ≡ c → a ≡ c
unfolding sampled
sampled_small a c h e = elim (Bool-cases (leb (length a) sample_window)) [
  | inl small ↦ rw small at e
  | inr large ↦
      let e' : take sample_window a ++ take sample_window (drop (length a - sample_window) a) ≡ c =
        rw large at e in
      let n : length a ≤ sample_window = omega (
        arith,
        ap length e',
        length-append {0} (take sample_window a)
            (take sample_window (drop (length a - sample_window) a)),
        length-take sample_window a,
        length-take sample_window (drop (length a - sample_window) a),
        length-drop (length a - sample_window) a,
      ) in
      cc (le→leb _ _ n, large)
]

pub sampled_self : (c : Bytes) → length c ≤ sample_window → sampled c ≡ c
unfolding sampled
sampled_self c h = rw (le→leb (length c) sample_window h)

take_all : (c : Bytes) → take (length c) c ≡ c
take_all [] = refl
take_all (b ∷ c) = ap (λ t. b ∷ t) (take_all c)

-- A reader that gives what there is of the range.
abbrev pub Reads : (ℕ → ℕ → Try Bytes) → Bytes → Type 0
Reads read_at content = (o n : ℕ) → read_at o n ≡ ok (take n (drop o content))

module _ (read_at : ℕ → ℕ → Try Bytes) (content : Bytes) (reads : Reads read_at content) where
  read_chunk_lem : (o n : ℕ) → read_chunk read_at o n ≡ ok (take n (drop o content))
  unfolding read_chunk
  read_chunk_lem o zero = refl
  read_chunk_lem o (suc n) =
      let fits : ltb (suc n) (length (take (suc n) (drop o content))) ≡ false =
        ground (arith, length-take (suc n) (drop o content)) in
      let positive : leb (suc n) 0 ≡ false = ground arith in
      rw (reads o (suc n)) (simp (positive, fits))

  pub sample_lem :
      (digest : Bytes → Bytes)
      → sample_hash_from_read_at digest (length content) read_at ≡ ok (digest (sampled content))
  unfolding sample_hash_from_read_at sampled two_chunks digest_of
  sample_lem digest = elim (Bool-cases (leb (length content) sample_window)) [
    | inl small ↦ rw (small, read_chunk_lem 0 (length content), take_all content)
    | inr large ↦ rw (
      large,
      read_chunk_lem 0 sample_window,
      read_chunk_lem (length content - sample_window) sample_window,
    )
  ]

pub local_sample_lem :
    (digest : Bytes → Bytes) (path c : Bytes) (disk : Disk)
    → lookup path disk.files ≡ some c
    → disk.read_fault path ≡ none
    → local_sample_hash digest path disk ≡ some (digest (sampled c), length c)
unfolding local_sample_hash local_sample_of read_local_at
local_sample_lem digest path c disk l r =
    rw (l, r) (rw (sample_lem (read_local_at c) c (λ o n. refl) digest, local_sample_of))

pub remote_sample_lem :
    (digest : Bytes → Bytes) (client : Client) (path c : Bytes) (read_at : ℕ → ℕ → Try Bytes)
    → client.read_at path ≡ ok read_at
    → Reads read_at c
    → remote_sample_hash digest client path (length c) ≡ some (digest (sampled c))
unfolding remote_sample_hash
remote_sample_lem digest client path c read_at o r =
    rw (o, remote_sample_hash) (rw (sample_lem read_at c r digest, remote_sample_hash))
