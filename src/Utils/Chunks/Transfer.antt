-- ===== src/Utils/Chunks/Transfer.antt =====
-- utils/fs.go: the chunks that ReadFileChunked cuts a file into, and the file that WriteChunkAt
-- makes of them.
use mydrive.Base.{
  ℕ, zero, suc, ◌+◌, ◌%◌, ◌^◌, ◌≤◌, ◌<◌, ◌≡◌, ◌≢◌, refl, sym, ap, ◌∙◌, List, [], ◌∷◌, ◌++◌, Bool,
  true, false, Text, Result, ok, length, take, drop, nat_eq, arith, append-nil, append_assoc,
  length-append, length-take, length-drop, drop_all, ◌↔◌, All,
}
use native.Mathlib.Nat.{mod-eq_of_lt}
use mydrive.Utils.Content.{overwrite, overwrite-prefix}
use mydrive.Utils.Chunks.{chunk_size, read_buf, call_chunk, chunk_loop, read_file_chunked}

module _ {ℓ} {A : Type ℓ} where
  pub take-append-drop-length : (k : ℕ) (r : List A) → take k r ++ drop (length (take k r)) r ≡ r
  take-append-drop-length zero r = refl
  take-append-drop-length (suc k) [] = refl
  take-append-drop-length (suc k) (x ∷ r) = ap (λ l. x ∷ l) (take-append-drop-length k r)

  drop-drop : (n m : ℕ) (xs : List A) → drop m (drop n xs) ≡ drop (n + m) xs
  drop-drop zero m xs = ap (λ (k : ℕ). drop k xs) (omega arith)
  drop-drop (suc n) zero [] =
      let e : suc (n + 0) ≡ suc n + 0 = omega arith in ap (λ (k : ℕ). drop {A = A} k []) e
  drop-drop (suc n) (suc m) [] =
      let e : suc (n + suc m) ≡ suc n + suc m = omega arith in ap (λ (k : ℕ). drop {A = A} k []) e
  drop-drop (suc n) m (x ∷ xs) =
      let e : suc (n + m) ≡ suc n + m = omega arith in
      drop-drop n m xs ∙ ap (λ (k : ℕ). drop k (x ∷ xs)) e

-- The callback that writes each chunk at its offset into a file with some content.
abbrev pub write_chunk : ℕ → Text → Bool → Text → Result Text (Unit {0}) × Text
write_chunk offset chunk final content = (ok tt, overwrite content chunk offset)

call_chunk-write :
    (chunk a c : Text) (eof : Bool)
    → length a + length chunk < 2 ^ 64
    → call_chunk write_chunk chunk eof (length a) (a ++ c)
      ≡ (ok (length (a ++ chunk)), (a ++ chunk) ++ drop (length chunk) c)
unfolding call_chunk
call_chunk-write [] a c eof room = rw append-nil
call_chunk-write (x ∷ b) a c eof room =
    rw (overwrite-prefix a (x ∷ b) c, mod-eq_of_lt room, length-append a (x ∷ b))

module _ (size : ℕ) (positive : 0 < size) where
  -- The bytes that are left, written behind the part that is there already.
  chunk_loop-write :
      (fuel : ℕ) (r a c : Text)
      → length r < fuel
      → length a + length r < 2 ^ 64
      → chunk_loop write_chunk size fuel r (length a) (a ++ c)
        ≡ (ok (length (a ++ r)), (a ++ r) ++ drop (length r) c)
  unfolding chunk_loop read_buf
  chunk_loop-write zero r a c enough room = absurd (omega arith)
  chunk_loop-write (suc fuel) [] a c enough room = ground (arith, call_chunk-write [] a c true room)
  chunk_loop-write (suc fuel) (x ∷ r) a c enough room =
      let all = x ∷ r in
      let chunk = take size all in
      let n : ℕ = length chunk in
      let front : chunk ++ drop n all ≡ all = take-append-drop-length size all in
      let parts : n + length (drop n all) ≡ length all =
        sym (length-append chunk (drop n all)) ∙ ap length front in
      let some_bytes : 0 < n = omega (arith, length-take size all, positive) in
      let called = call_chunk-write chunk a c false (omega (arith, parts, room)) in
      let rest =
        chunk_loop-write fuel (drop n all) (a ++ chunk) (drop n c) (omega (arith, parts))
          (omega (arith, parts, length-append a chunk)) in
      let whole : (a ++ chunk) ++ drop n all ≡ a ++ all =
        append_assoc a chunk (drop n all) ∙ ap (λ t. a ++ t) front in
      let tail : drop (length (drop n all)) (drop n c) ≡ drop (length all) c =
        drop-drop n (length (drop n all)) c ∙ ap (λ (k : ℕ). drop k c) parts in
      ground (arith, called, rest, whole, tail)

-- A file of fewer than 2 ^ 64 bytes that is streamed in chunks, each written at its offset into a
-- file with some content, stands there in full, and what the old content had behind its length
-- stays.
pub read_file_chunked-write :
    (content old : Text)
    → length content < 2 ^ 64
    → read_file_chunked write_chunk content old ≡ (ok tt, content ++ drop (length content) old)
unfolding read_file_chunked
read_file_chunked-write [] old room =
    let looped = chunk_loop-write chunk_size (omega arith) 1 [] [] old (omega arith) room in
    let none : length {A = ℕ} [] + 1 ≡ 1 = omega arith in
    unfold overwrite in ground (arith, looped, none)
read_file_chunked-write (x ∷ b) old room =
    let content = x ∷ b in
    let looped =
      chunk_loop-write chunk_size (omega arith) (length content + 1) content [] old (omega arith)
        (omega arith) in
    ground (arith, looped)

-- A file of fewer than 2 ^ 64 bytes that is streamed in chunks is what the receiver ends with
-- exactly when the receiver's old file was not longer.
pub read_file_chunked-write_iff :
    (content old : Text)
    → length content < 2 ^ 64
    → ((read_file_chunked write_chunk content old).1 ≡ content) ↔ (length old ≤ length content)
read_file_chunked-write_iff content old room = rw (read_file_chunked-write content old room) (
  λ e. omega (
    arith,
    ap length e,
    length-append content (drop (length content) old),
    length-drop (length content) old,
  ),
  λ short. rw (drop_all (length content) old short) (append-nil content),
)

-- The callback that keeps the flags with which it is called.
abbrev pub keep_flag : ℕ → Text → Bool → List Bool → Result Text (Unit {0}) × List Bool
keep_flag offset chunk final flags = (ok tt, final ∷ flags)

abbrev pub AllFalse : List Bool → Type 0
AllFalse flags = All (λ f. f ≡ false) flags

chunk_loop-flags :
    (size : ℕ)
    → 0 < size
    → (fuel : ℕ) (r : Text) (offset : ℕ) (flags : List Bool) → length r < fuel
    → offset + length r < 2 ^ 64
    → AllFalse flags
    → ((chunk_loop keep_flag size fuel r offset flags).0 ≡ ok (offset + length r))
      × AllFalse (chunk_loop keep_flag size fuel r offset flags).1
unfolding chunk_loop read_buf call_chunk
chunk_loop-flags size positive zero r offset flags enough room h = absurd (omega arith)
chunk_loop-flags size positive (suc fuel) [] offset flags enough room h =
    (let e : offset ≡ offset + 0 = omega arith in ap ok e, h)
chunk_loop-flags zero positive (suc fuel) (x ∷ r) offset flags enough room h = absurd (omega arith)
chunk_loop-flags (suc size) positive (suc fuel) (x ∷ r) offset flags enough room h =
    let chunk = x ∷ take size r in
    let n : ℕ = length chunk in
    let front : chunk ++ drop n (x ∷ r) ≡ x ∷ r = take-append-drop-length (suc size) (x ∷ r) in
    let parts : n + length (drop n (x ∷ r)) ≡ length (x ∷ r) =
      sym (length-append chunk (drop n (x ∷ r))) ∙ ap length front in
    let next : (offset + n) % 2 ^ 64 ≡ offset + n = mod-eq_of_lt (omega (arith, parts, room)) in
    let (reached, kept) =
      chunk_loop-flags (suc size) positive fuel (drop n (x ∷ r)) ((offset + n) % 2 ^ 64)
        (false ∷ flags) (omega (arith, parts)) (omega (arith, parts, next)) (refl, h) in
    (reached ∙ ap ok (omega (arith, parts, next)), kept)

-- The final-chunk flag is never set while a file of one byte at least, and of fewer than 2 ^ 64,
-- is streamed: every call for a chunk of it has the flag off, and the transfer succeeds if the
-- calls do.
pub read_file_chunked-flags :
    (content : Text)
    → content ≢ []
    → length content < 2 ^ 64
    → ((read_file_chunked keep_flag content []).0 ≡ ok tt)
      × AllFalse (read_file_chunked keep_flag content []).1
unfolding read_file_chunked
read_file_chunked-flags [] h room = absurd (h refl)
read_file_chunked-flags (x ∷ b) h room =
    let (reached, kept) =
      chunk_loop-flags chunk_size (omega arith) (length (x ∷ b) + 1) (x ∷ b) 0 [] (omega arith)
        (omega arith) tt in
    ground (arith, reached, kept)
