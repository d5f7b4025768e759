-- ===== src/Protocol/Msg.antt =====
-- protocol/message.go: the type byte of each message.
use mydrive.Base.{ℕ}

abbrev pub hello : ℕ
hello = 0x01

abbrev pub hello_ack : ℕ
hello_ack = 0x02

abbrev pub sync_init : ℕ
sync_init = 0x03

abbrev pub sync_init_ack : ℕ
sync_init_ack = 0x04

abbrev pub file_create : ℕ
file_create = 0x05

abbrev pub file_data : ℕ
file_data = 0x06

abbrev pub file_modify : ℕ
file_modify = 0x07

abbrev pub file_delete : ℕ
file_delete = 0x08

abbrev pub file_move : ℕ
file_move = 0x09

abbrev pub ack : ℕ
ack = 0x0A

abbrev pub sync_diff : ℕ
sync_diff = 0x0B

abbrev pub sync_apply : ℕ
sync_apply = 0x0C

abbrev pub ping : ℕ
ping = 0x0D

abbrev pub pong : ℕ
pong = 0x0E

abbrev pub error : ℕ
error = 0x0F
