-- ===== src/Cmd/FileData/Total.antt =====
-- The loop that receives the contents of the initial sync ends: each message takes bytes away.
use mydrive.Base.{
  ℕ, zero, suc, ◌+◌, ◌<◌, ◌≡◌, ◌≢◌, none, Text, ok, length, drop, length-drop, leb, ◌==◌, nat_eq,
  if◌then◌else◌, arith, Result-cases, Bool-cases, inl, inr,
}
use mydrive.Protocol.Msg
use mydrive.Protocol.Message.{Message}
use mydrive.Protocol.Json.{Codec}
use mydrive.Protocol.Codec.Bytes.{uint32}
use mydrive.Protocol.Codec.Frame.{read_full, decode_frame, header_size, byte_at}
use mydrive.Protocol.Codec.Safety.{decode_payload_of-drops}
use mydrive.Netlayer.Stream.{Conn}
use mydrive.Netlayer.Stream.Transfer.{read_message-eq-decode_frame}
use mydrive.Cmd.FileData.{Files, handle_file_data, receive_data}

length-read_full_ok :
    (n : ℕ) (r p : Text) → (read_full n r).0 ≡ ok p → length (read_full n r).1 + n ≡ length r
unfolding read_full
length-read_full_ok n r p h = elim (Bool-cases (leb n (length r))) [
  | inl e ↦ ground (arith, length-drop n r)
  | inr e ↦ absurd (ground arith)
]

module _ (j : Codec) where
  pub decode_frame_progress :
      (r : Text) (m : Message)
      → (decode_frame j r).0 ≡ ok m
      → length (decode_frame j r).1 < length r
  unfolding decode_frame
  decode_frame_progress r m h = elim (Result-cases (read_full header_size r).0) [
    | inl (b, e) ↦
        let rest = (read_full header_size r).1 in
        ground (
          arith,
          length-read_full_ok header_size r b e,
          decode_payload_of-drops j (byte_at 0 b) (uint32 (drop 1 b)) rest,
        )
    | inr (x, e) ↦ absurd (ground arith)
  ]

  -- With a round more than the connection has bytes, the loop ends, with the acknowledgement or with
  -- an error of the reading.
  pub receive_data_total :
      (fuel : ℕ) (d : Conn) (files : Files)
      → length d.input < fuel
      → (receive_data j fuel d files).0 ≢ none
  unfolding receive_data
  receive_data_total zero d files enough = absurd (omega arith)
  receive_data_total (suc fuel) d files enough =
      let read = read_message-eq-decode_frame j d in
      elim (Result-cases (decode_frame j d.input).0) [
        | inr (x, e) ↦ λ n. ground arith
        | inl (m, e) ↦ λ n.
            let files' =
              if m.msg_type == Msg.file_data then (handle_file_data m files).1 else files in
            let less = decode_frame_progress d.input m e in
            let rest =
              receive_data_total fuel (record d { input = (decode_frame j d.input).1 }) files'
                (omega arith) in
            ground (arith, rest)
      ]
