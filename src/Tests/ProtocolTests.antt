-- ===== src/Tests/ProtocolTests.antt =====
-- Runs of protocol/codec.go and netlayer/stream.go, and their theorems at concrete inputs.
use mydrive.Base.{
  ◌+◌, ◌≤◌, ◌≡◌, refl, [], ◌∷◌, ◌++◌, Text, bytes, ok, err, length, map, List, text_eq,
}
use mydrive.Protocol.Message.{Content, message_of, file_delete, ping}
use mydrive.Protocol.Json.{marshal_json, unmarshal_json}
use mydrive.Protocol.Codec.Bytes.{put_uint32, uint32}
use mydrive.Protocol.Codec.Parse.{
  frame_too_large, empty_payload, invalid_type, read_header, read_payload, eof, unexpected_eof,
  payload, parse_as, parse_message,
}
use mydrive.Protocol.Codec.Frame.{
  read_full, encode, decode_frame, decode_payload_of, header_size, max_frame_size,
}
use mydrive.Protocol.Codec.RoundTrip.{decode_frame-encode}
use mydrive.Protocol.Codec.Safety.{
  IsContent, decode_frame-IsContent, decode_frame-drops, length-encode,
}
use mydrive.Netlayer.Stream.{new_conn, read_message, write_message}
use mydrive.Netlayer.Stream.Transfer.{
  read_message-eq-decode_frame, write_all, read_all, read_all-write_all,
}
use mydrive.Tests.Codecs.{quoting, quoting-IsLawful}

abbrev deletion : Content
deletion = file_delete (bytes "a")

abbrev frame : Text
frame = 8 ∷ 0 ∷ 0 ∷ 0 ∷ 3 ∷ bytes "\"a\""

encode-deletion : encode quoting (message_of deletion) ≡ ok frame
unfolding encode payload marshal_json put_uint32
encode-deletion = refl

decode_frame-frame : (decode_frame quoting frame).0 ≡ ok (message_of deletion)
unfolding decode_frame decode_payload_of read_full uint32 parse_message parse_as unmarshal_json
decode_frame-frame = refl

bad_frames :
    (decode_frame quoting [] ≡ (err (read_header eof), []))
    × (decode_frame quoting (8 ∷ 0 ∷ []) ≡ (err (read_header unexpected_eof), []))
    × (decode_frame quoting (8 ∷ 0 ∷ 0 ∷ 0 ∷ 0 ∷ 7 ∷ []) ≡ (err (empty_payload 8), 7 ∷ []))
    × (decode_frame quoting (8 ∷ 0 ∷ 0 ∷ 0 ∷ 9 ∷ 7 ∷ []) ≡ (err (read_payload unexpected_eof), []))
    × (decode_frame quoting (8 ∷ 1 ∷ 0 ∷ 0 ∷ 1 ∷ 7 ∷ []) ≡ (err (frame_too_large 16777217), 7 ∷ []))
    × (decode_frame quoting (16 ∷ 0 ∷ 0 ∷ 0 ∷ 1 ∷ 7 ∷ []) ≡ (err (invalid_type 16), []))
unfolding decode_frame decode_payload_of read_full uint32 parse_message
bad_frames = (refl, refl, refl, refl, refl, refl)

decode_frame-encode_example :
    decode_frame quoting (frame ++ 7 ∷ []) ≡ (ok (message_of deletion), 7 ∷ [])
decode_frame-encode_example =
    decode_frame-encode quoting quoting-IsLawful deletion frame (7 ∷ []) tt encode-deletion

decode_frame-IsContent_example : IsContent (message_of deletion)
decode_frame-IsContent_example =
    decode_frame-IsContent quoting frame (message_of deletion) decode_frame-frame

decode_frame-drops_run :
    (length frame ≤ length (decode_frame quoting frame).1 + header_size + max_frame_size)
    × (length (decode_frame quoting frame).1 ≤ length frame)
decode_frame-drops_run = decode_frame-drops quoting frame

length-encode_run : (header_size ≤ length frame) × (length frame ≤ header_size + max_frame_size)
length-encode_run = length-encode quoting (message_of deletion) frame encode-deletion

read_message-eq-decode_frame_example : read_message quoting (new_conn frame) ≡ (
  (decode_frame quoting frame).0,
  record (new_conn frame) { input = (decode_frame quoting frame).1 },
)
unfolding new_conn
read_message-eq-decode_frame_example = read_message-eq-decode_frame quoting (new_conn frame)

abbrev talk : List Content
talk = deletion ∷ ping ∷ deletion ∷ []

abbrev sent : Text
sent = frame ++ (13 ∷ 0 ∷ 0 ∷ 0 ∷ 0 ∷ []) ++ frame

write_all-talk :
    write_all quoting talk (new_conn []) ≡ (ok tt, record (new_conn []) { output = sent })
unfolding write_all write_message encode payload marshal_json put_uint32 new_conn
write_all-talk = refl

read_all-write_all_example :
    read_all quoting 3 (new_conn sent) ≡ (ok (map message_of talk), new_conn [])
unfolding write_all write_message encode payload marshal_json put_uint32 new_conn
read_all-write_all_example =
    read_all-write_all quoting quoting-IsLawful talk (new_conn []) (new_conn sent) []
      (tt, (tt, (tt, tt))) refl refl refl
