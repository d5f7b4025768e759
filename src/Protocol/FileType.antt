-- ===== src/Protocol/FileType.antt =====
-- protocol/message.go: the type byte of a directory entry, and the flag of the last chunk.
use mydrive.Base.{ℕ}

abbrev pub regular_file : ℕ
regular_file = 0x01

abbrev pub directory : ℕ
directory = 0x02

abbrev pub symlink : ℕ
symlink = 0x04

abbrev pub other : ℕ
other = 0x06

abbrev pub flag_final_chunk : ℕ
flag_final_chunk = 0x01
