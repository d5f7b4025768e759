-- ===== src/Protocol/Codec/Frame.antt =====
-- protocol/codec.go: Encode and DecodeFrame.
use mydrive.Base.{
  ℕ, ◌%◌, ◌^◌, ◌*◌, Bool, ◌&&◌, ◌||◌, not, [], ◌∷◌, ◌++◌, Text, Result, ok, err, length, take, drop,
  get_or, ltb, leb, ◌==◌, nat_eq, if◌then◌else◌,
}
use mydrive.Protocol.Msg
use mydrive.Protocol.Message.{Message, bare}
use mydrive.Protocol.Json.{Codec, marshal_json}
use mydrive.Protocol.Codec.Bytes.{put_uint32, uint32}
use mydrive.Protocol.Codec.Parse.{
  IoError, eof, unexpected_eof, Error, encode_payload, frame_too_large, read_header, read_payload,
  empty_payload, payload, parse_message,
}

abbrev pub header_size : ℕ
header_size = 5

abbrev pub max_frame_size : ℕ
max_frame_size = 16 * 1024 * 1024

-- PING and PONG are the types with no payload.
abbrev pub is_bare : ℕ → Bool
is_bare t = t == Msg.ping || t == Msg.pong

-- io.ReadFull for a buffer of n bytes.
unfoldable pub read_full : ℕ → Text → Result IoError Text × Text
read_full n r =
    if leb n (length r)
    then (ok (take n r), drop n r)
    else (err (if length r == 0 then eof else unexpected_eof), [])

-- b[i] of a buffer that is long enough
abbrev pub byte_at : ℕ → Text → ℕ
byte_at i b = get_or b i 0

module _ (j : Codec) where
  -- Encode
  unfoldable pub encode : Message → Result Error Text
  encode m =
      if is_bare m.msg_type
      then ok (m.msg_type ∷ put_uint32 0)
      else elim (marshal_json j (payload m)) [
        | err e ↦ err (encode_payload e)
        | ok p ↦
            if ltb max_frame_size (length p)
            then err (frame_too_large (length p))
            else ok (m.msg_type ∷ put_uint32 (length p % 2 ^ 32) ++ p)
      ]

  -- DecodeFrame behind its header: the tests on the length, and the payload.
  unfoldable pub decode_payload_of : ℕ → ℕ → Text → Result Error Message × Text
  decode_payload_of t n r =
      if ltb max_frame_size n
      then (err (frame_too_large n), r)
      else if n == 0 && not (t == Msg.ping) && not (t == Msg.pong)
      then (err (empty_payload t), r)
      else if ltb 0 n
      then (let (got, r') = read_full n r in
          elim got [ ok p ↦ (parse_message j t p, r') | err e ↦ (err (read_payload e), r') ])
      else (ok (bare t), r)

  -- DecodeFrame.
  unfoldable pub decode_frame : Text → Result Error Message × Text
  decode_frame r =
      let (got, r') = read_full header_size r in
      elim got [
        | err e ↦ (err (read_header e), r')
        | ok h ↦ decode_payload_of (byte_at 0 h) (uint32 (drop 1 h)) r'
      ]
