-- ===== src/Utils/Chunks/Keeps.antt =====
-- ReadFileChunked of utils/fs.go, for calls that leave a part of the state as it is.
use mydrive.Base.{
  ℕ, zero, suc, ◌+◌, ◌≡◌, refl, ◌∙◌, [], ◌∷◌, Bool, true, Text, Result, length, drop, ◌==◌, nat_eq,
  Result-cases, Bool-cases, inl, inr,
}
use mydrive.Utils.Chunks.{chunk_size, read_buf, call_chunk, chunk_loop, read_file_chunked}

module _ {ℓ κ μ} {S : Type ℓ} {E : Type κ} {T : Type μ}
    (fn : ℕ → Text → Bool → S → Result E (Unit {0}) × S) (part : S → T)
    (kept : (offset : ℕ) (chunk : Text) (final : Bool) (s : S)
      → part (fn offset chunk final s).1 ≡ part s) where
  call_chunk-kept :
      (chunk : Text) (eof : Bool) (offset : ℕ) (s : S)
      → part (call_chunk fn chunk eof offset s).1 ≡ part s
  unfolding call_chunk
  call_chunk-kept [] eof offset s = refl
  call_chunk-kept (x ∷ b) eof offset s = elim (Result-cases (fn offset (x ∷ b) eof s).0) [
    | inl (u, e) ↦ rw (call_chunk, e) (kept offset (x ∷ b) eof s)
    | inr (y, e) ↦ rw (call_chunk, e) (kept offset (x ∷ b) eof s)
  ]

  chunk_loop-kept :
      (size fuel : ℕ) (r : Text) (offset : ℕ) (s : S)
      → part (chunk_loop fn size fuel r offset s).1 ≡ part s
  unfolding chunk_loop
  chunk_loop-kept size zero r offset s = refl
  chunk_loop-kept size (suc fuel) r offset s =
      let chunk = (read_buf size r).0 in
      let eof = (read_buf size r).1 in
      let s' = (call_chunk fn chunk eof offset s).1 in
      let first = call_chunk-kept chunk eof offset s in
      elim (Result-cases (call_chunk fn chunk eof offset s).0) [
        | inr (y, e) ↦ rw (chunk_loop, e) first
        | inl (n, e) ↦ elim (Bool-cases eof) [
          | inl k ↦ rw (chunk_loop, e, k) (rw k at first)
          | inr k ↦
              rw (chunk_loop, e, k)
                (rw k at (chunk_loop-kept size fuel (drop (length chunk) r) n s' ∙ first))
        ]
      ]

  pub read_file_chunked-kept :
      (content : Text) (s : S) → part (read_file_chunked fn content s).1 ≡ part s
  unfolding read_file_chunked
  read_file_chunked-kept content s =
      let fuel = length content + 1 in
      let s' = (chunk_loop fn chunk_size fuel content 0 s).1 in
      let looped = chunk_loop-kept chunk_size fuel content 0 s in
      elim (Result-cases (chunk_loop fn chunk_size fuel content 0 s).0) [
        | inr (y, e) ↦ rw (read_file_chunked, e) looped
        | inl (n, e) ↦ elim (Bool-cases (n == 0)) [
          | inl k ↦ rw (read_file_chunked, e, k) (kept 0 [] true s' ∙ looped)
          | inr k ↦ rw (read_file_chunked, e, k) looped
        ]
      ]
