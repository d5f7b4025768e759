-- ===== src/Tests/UtilsTests.antt =====
-- The theorems on chunks at concrete inputs.
use mydrive.Base.{◌≤◌, ◌≡◌, ◌↔◌, [], bytes, ok, length, arith, text_eq}
use mydrive.Utils.Chunks.{read_file_chunked}
use mydrive.Utils.Chunks.Transfer.{
  write_chunk, keep_flag, AllFalse, read_file_chunked-write, read_file_chunked-write_iff,
  read_file_chunked-flags,
}

read_file_chunked-write_run :
    read_file_chunked write_chunk (bytes "new") (bytes "older") ≡ (ok tt, bytes "newer")
read_file_chunked-write_run = read_file_chunked-write (bytes "new") (bytes "older") (omega arith)

read_file_chunked-write_iff_example :
    ((read_file_chunked write_chunk (bytes "new") (bytes "older")).1 ≡ bytes "new")
    ↔ (length (bytes "older") ≤ length (bytes "new"))
read_file_chunked-write_iff_example =
    read_file_chunked-write_iff (bytes "new") (bytes "older") (omega arith)

read_file_chunked-flags_run :
    ((read_file_chunked keep_flag (bytes "new") []).0 ≡ ok tt)
    × AllFalse (read_file_chunked keep_flag (bytes "new") []).1
read_file_chunked-flags_run =
    read_file_chunked-flags (bytes "new") (λ e. ground arith) (omega arith)
