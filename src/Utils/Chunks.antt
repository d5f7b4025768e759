-- ===== src/Utils/Chunks.antt =====
-- ReadFileChunked of utils/fs.go. The content of the file is given; what the callback does is a step
-- on a state of its own, and it may fail.
pub mod Keeps
pub mod Transfer
pub mod Calls
use mydrive.Base.{
  ℕ, zero, suc, ◌+◌, ◌*◌, ◌%◌, ◌^◌, List, [], ◌∷◌, Bool, true, false, Text, Result, ok, err, length,
  take, drop, ◌==◌, nat_eq, ltb, min, if◌then◌else◌,
}

-- ChunkSize
abbrev pub chunk_size : ℕ
chunk_size = 64 * 1024

-- (*os.File).Read into a buffer of `size` bytes, from what is left of a regular file: the bytes,
-- and whether the error is io.EOF. It reports the end of the file only with no bytes.
unfoldable pub read_buf : ℕ → Text → Text × Bool
read_buf size [] = ([], true)
read_buf size (x ∷ r) = (take size (x ∷ r), false)

module _ {ℓ κ} {S : Type ℓ} {E : Type κ} (fn : ℕ → Text → Bool → S → Result E (Unit {0}) × S) where
  -- `if n > 0 { … }`: the call for a chunk, with the offset behind it, a uint64.
  unfoldable pub call_chunk : Text → Bool → ℕ → S → Result E ℕ × S
  call_chunk [] eof offset s = (ok offset, s)
  call_chunk (x ∷ b) eof offset s =
      let (called, s') = fn offset (x ∷ b) eof s in
      elim called [ err e ↦ (err e, s') | ok _ ↦ (ok ((offset + length (x ∷ b)) % 2 ^ 64), s') ]

  -- The loop over a buffer of `size` bytes, with the offset that it has reached, which it returns
  -- at the end of the file. Each round but the last reads a byte at least, so one round more than
  -- the file has bytes is fuel enough.
  unfoldable pub chunk_loop : ℕ → ℕ → Text → ℕ → S → Result E ℕ × S
  chunk_loop size zero r offset s = (ok offset, s)
  chunk_loop size (suc fuel) r offset s =
      let (chunk, eof) = read_buf size r in
      let (called, s') = call_chunk chunk eof offset s in
      elim called [
        | err e ↦ (err e, s')
        | ok offset' ↦
            let rest = chunk_loop size fuel (drop (length chunk) r) offset' s' in
            if eof then (ok offset', s') else rest
      ]

  -- ReadFileChunked, for a file that can be opened and read
  unfoldable pub read_file_chunked : Text → S → Result E (Unit {0}) × S
  read_file_chunked content s =
      let (looped, s') = chunk_loop chunk_size (length content + 1) content 0 s in
      elim looped [
        | err e ↦ (err e, s')
        | ok offset ↦ if offset == 0 then fn 0 [] true s' else (ok tt, s')
      ]
