-- ===== src/Utils/Chunks/Calls.antt =====
-- utils/fs.go: ReadFileChunked as a sequence of calls that is known beforehand.
use mydrive.Base.{
  ℕ, zero, suc, ◌+◌, ◌%◌, ◌^◌, ◌<◌, ◌≡◌, refl, sym, ap, ◌∙◌, List, [], ◌∷◌, ◌++◌, Bool, true, false,
  Text, Result, ok, err, length, take, drop, ◌==◌, nat_eq, if◌then◌else◌, arith, length-append,
  Result-cases, inl, inr,
}
use native.Mathlib.Nat.{mod-eq_of_lt}
use mydrive.Utils.Chunks.{chunk_size, read_buf, call_chunk, chunk_loop, read_file_chunked}
use mydrive.Utils.Chunks.Transfer.{take-append-drop-length}

-- The offset, the bytes and the final flag of a call.
abbrev pub Call : Type 0
Call = ℕ × Text × Bool

-- The calls for what is left of a file behind an offset, in chunks of a size.
abbrev pub calls_from : ℕ → ℕ → Text → ℕ → List Call
calls_from size zero r offset = []
calls_from size (suc fuel) [] offset = []
calls_from size (suc fuel) (x ∷ r) offset =
    let n : ℕ = length (take size (x ∷ r)) in
    (offset, take size (x ∷ r), false) ∷ calls_from size fuel (drop n (x ∷ r)) (offset + n)

-- The calls for a file: an empty one has one call, with no bytes, and it is the only final one.
abbrev pub calls_of : Text → List Call
calls_of [] = (0, [], true) ∷ []
calls_of (x ∷ r) = calls_from chunk_size (length (x ∷ r) + 1) (x ∷ r) 0

module _ {ℓ κ} {S : Type ℓ} {E : Type κ} (fn : ℕ → Text → Bool → S → Result E (Unit {0}) × S) where
  -- The calls in their order, up to the first that fails.
  abbrev pub run_calls : List Call → S → Result E (Unit {0}) × S
  run_calls [] s = (ok tt, s)
  run_calls ((offset, chunk, final) ∷ l) s =
      let (called, s') = fn offset chunk final s in
      let rest = run_calls l s' in elim called [ err e ↦ (err e, s') | ok _ ↦ rest ]

  abbrev reaching : ℕ → Result E (Unit {0}) × S → Result E ℕ × S
  reaching n (ok _, s) = (ok n, s)
  reaching n (err e, s) = (err e, s)

  chunk_loop-calls_from :
      (size : ℕ)
      → 0 < size
      → (fuel : ℕ) (r : Text) (offset : ℕ) (s : S) → length r < fuel
      → offset + length r < 2 ^ 64
      → chunk_loop fn size fuel r offset s
        ≡ reaching (offset + length r) (run_calls (calls_from size fuel r offset) s)
  unfolding chunk_loop read_buf call_chunk
  chunk_loop-calls_from size positive zero r offset s enough room = absurd (omega arith)
  chunk_loop-calls_from size positive (suc fuel) [] offset s enough room =
      let e : offset ≡ offset + 0 = omega arith in ap (λ (n : ℕ). (ok n, s)) e
  chunk_loop-calls_from zero positive (suc fuel) (x ∷ r) offset s enough room = absurd (omega arith)
  chunk_loop-calls_from (suc size) positive (suc fuel) (x ∷ r) offset s enough room =
      let chunk = x ∷ take size r in
      let n : ℕ = length chunk in
      let front : chunk ++ drop n (x ∷ r) ≡ x ∷ r = take-append-drop-length (suc size) (x ∷ r) in
      let parts : n + length (drop n (x ∷ r)) ≡ length (x ∷ r) =
        sym (length-append chunk (drop n (x ∷ r))) ∙ ap length front in
      let next : (offset + n) % 2 ^ 64 ≡ offset + n = mod-eq_of_lt (omega (arith, parts, room)) in
      let s' = (fn offset chunk false s).1 in
      let rest =
        chunk_loop-calls_from (suc size) positive fuel (drop n (x ∷ r)) (offset + n) s'
          (omega (arith, parts)) (omega (arith, parts, room)) in
      let total : (offset + n) + length (drop n (x ∷ r)) ≡ offset + length (x ∷ r) =
        omega (arith, parts) in
      elim (Result-cases (fn offset chunk false s).0) [
        | inr (e, failed) ↦ ground arith
        | inl (u, called) ↦ ground (arith, called, next, rest, total)
      ]

  -- What ReadFileChunked does behind its loop.
  abbrev finish : Result E ℕ × S → Result E (Unit {0}) × S
  finish o = elim o.0 [
    | err e ↦ (err e, o.1)
    | ok offset ↦ if offset == 0 then fn 0 [] true o.1 else (ok tt, o.1)
  ]

  finish-reaching : (n : ℕ) (ran : Result E (Unit {0}) × S) → 0 < n → finish (reaching n ran) ≡ ran
  finish-reaching n (err e, s) h = refl
  finish-reaching n (ok u, s) h = ground arith

  -- For a file of fewer than 2 ^ 64 bytes, ReadFileChunked calls its function for the chunks in
  -- their order, with their offsets, and stops at the first call that fails, with that error.
  pub read_file_chunked-run_calls :
      (content : Text) (s : S)
      → length content < 2 ^ 64
      → read_file_chunked fn content s ≡ run_calls (calls_of content) s
  unfolding read_file_chunked
  read_file_chunked-run_calls [] s room =
      let looped =
        chunk_loop-calls_from chunk_size (omega arith) 1 [] 0 s (omega arith) (omega arith) in
      ground (arith, looped)
  read_file_chunked-run_calls (x ∷ r) s room =
      ap finish (
        chunk_loop-calls_from chunk_size (omega arith) (length (x ∷ r) + 1) (x ∷ r) 0 s
          (omega arith) (omega arith))
      ∙ finish-reaching (0 + length (x ∷ r)) (run_calls (calls_of (x ∷ r)) s) (omega arith)
