-- ===== src/Protocol/Codec/Safety.antt =====
-- protocol/codec.go against any stream, also one of a hostile peer: what DecodeFrame takes from it,
-- and which messages come out.
use mydrive.Base.{
  ℕ, ◌+◌, ◌≤◌, ◌%◌, ◌^◌, ◌≡◌, refl, some, ◌∷◌, Bool, true, false, ◌||◌, arith, Text, Result, ok,
  length, drop, length-append, length-drop, inl, inr, ltb, Bool-cases, ◌==◌, nat_eq, if◌then◌else◌,
  Result-cases,
}
use mydrive.Protocol.Msg
use mydrive.Protocol.Message.{
  Message, Content, bare, message_of, hello, hello_ack, sync_init, sync_init_ack, file_create,
  file_data, file_modify, file_delete, file_move, ack, sync_diff, sync_apply, error, ping, pong,
}
use mydrive.Protocol.Json.{
  Kind, hello_payload, hello_ack_payload, sync_tree, file_entry, file_data_chunk, path,
  file_move_data, ack_payload, error_payload, Value, Codec, marshal_json, unmarshal_json,
}
use mydrive.Protocol.Codec.Bytes.{put_uint32, uint32, length-put_uint32}
use mydrive.Protocol.Codec.Parse.{Error, payload, parse_as, parse_message}
use mydrive.Protocol.Codec.Frame.{
  read_full, encode, decode_frame, decode_payload_of, header_size, max_frame_size, byte_at,
}

-- Whether a message is the struct of some content: the field of its type is set, and no other.
abbrev pub IsContent : Message → Type 0
IsContent m = (c : Content) × (m ≡ message_of c)

-- Of a result that may be a message: it is the struct of a content.
abbrev Says : Result Error Message → Type 0
Says r = (m : Message) → r ≡ ok m → IsContent m

-- A test and what follows it: both branches say so, the first where the test holds.
infixr 20 ◌otherwise◌
◌otherwise◌ :
    {b : Bool} {x y : Result Error Message}
    → (b ≡ true → Says x)
    → Says y
    → Says (if b then x else y)
◌otherwise◌ {b = true} f g = f refl
◌otherwise◌ {b = false} f g = g

bare-IsContent :
    (t : ℕ) (m : Message)
    → (t == Msg.ping || t == Msg.pong) ≡ true
    → ◌≡◌ {A = Result Error Message} (ok (bare t)) (ok m)
    → IsContent m
bare-IsContent t m hit h = elim (Bool-cases (t == Msg.ping)) [
  | inl e ↦ (ping, ground arith)
  | inr e ↦ (pong, ground arith)
]

module _ (j : Codec) where
  parse_as-IsContent :
      (k : Kind) (con : Value k → Content) (b : Text) (m : Message)
      → parse_as j k b (λ v. message_of (con v)) ≡ ok m
      → IsContent m
  unfolding parse_as
  parse_as-IsContent k con b m h = elim (Result-cases (unmarshal_json j k b)) [
    | inl (v, e) ↦ (con v, ground arith)
    | inr (x, e) ↦ absurd (ground arith)
  ]

  -- A branch of the switch: at its type byte the message is built as the content's struct is.
  branch :
      (n : ℕ) (k : Kind) (con : Value k → Content) (field : ℕ → Value k → Message) (t : ℕ)
      (b : Text)
      → field n ≡ (λ v. message_of (con v))
      → (t == n) ≡ true
      → Says (parse_as j k b (field t))
  branch n k con field t b same hit m h =
      let t_eq : t ≡ n = ground arith in parse_as-IsContent k con b m (rw (← same, ← t_eq) h)

  parse_message-IsContent : (t : ℕ) (b : Text) → Says (parse_message j t b)
  unfolding parse_message
  parse_message-IsContent t b =
      branch Msg.hello hello_payload hello (λ n p. record (bare n) { hello = some p }) t b refl
      otherwise branch Msg.hello_ack hello_ack_payload hello_ack
          (λ n p. record (bare n) { hello_ack = some p }) t b refl
      otherwise branch Msg.sync_init sync_tree sync_init
          (λ n p. record (bare n) { sync_init = some p }) t b refl
      otherwise branch Msg.sync_init_ack sync_tree sync_init_ack
          (λ n p. record (bare n) { sync_init_ack = some p }) t b refl
      otherwise branch Msg.file_create file_entry file_create
          (λ n p. record (bare n) { file_create = some p }) t b refl
      otherwise branch Msg.file_data file_data_chunk file_data
          (λ n p. record (bare n) { file_data = some p }) t b refl
      otherwise branch Msg.file_modify file_entry file_modify
          (λ n p. record (bare n) { file_modify = some p }) t b refl
      otherwise branch Msg.file_delete path file_delete (λ n p. record (bare n) { file_delete = p })
          t b refl
      otherwise branch Msg.file_move file_move_data file_move
          (λ n p. record (bare n) { file_move = some p }) t b refl
      otherwise branch Msg.ack ack_payload ack (λ n p. record (bare n) { ack = some p }) t b refl
      otherwise branch Msg.sync_diff Kind.sync_diff sync_diff
          (λ n p. record (bare n) { sync_diff = some p }) t b refl
      otherwise branch Msg.sync_apply Kind.sync_apply sync_apply
          (λ n p. record (bare n) { sync_apply = some p }) t b refl
      otherwise branch Msg.error error_payload error (λ n p. record (bare n) { error = some p }) t b
          refl
      otherwise (λ hit m. bare-IsContent t m hit)
      otherwise (λ m h. absurd (ground arith))

  decode_payload_of-IsContent :
      (t n : ℕ) (r : Text) (m : Message) → (decode_payload_of j t n r).0 ≡ ok m → IsContent m
  unfolding decode_payload_of
  decode_payload_of-IsContent t n r m h = elim (Bool-cases (ltb 0 n)) [
    | inl some_bytes ↦ elim (Result-cases (read_full n r).0) [
      | inl (p, e) ↦ parse_message-IsContent t p m (ground arith)
      | inr (x, e) ↦ absurd (ground arith)
    ]
    | inr no_bytes ↦ bare-IsContent t m (ground arith) (ground arith)
  ]

  -- Whatever the stream, a message that DecodeFrame returns has the field of its type set and no
  -- other: the code may read that field without a test.
  pub decode_frame-IsContent : (r : Text) (m : Message) → (decode_frame j r).0 ≡ ok m → IsContent m
  unfolding decode_frame
  decode_frame-IsContent r m h = elim (Result-cases (read_full header_size r).0) [
    | inl (b, e) ↦
        decode_payload_of-IsContent (byte_at 0 b) (uint32 (drop 1 b)) (read_full header_size r).1 m
          (ground arith)
    | inr (x, e) ↦ absurd (ground arith)
  ]

  read_full-drops :
      (n : ℕ) (r : Text)
      → (length r ≤ length (read_full n r).1 + n) × (length (read_full n r).1 ≤ length r)
  unfolding read_full
  read_full-drops n r = ground (arith, length-drop n r)

  pub decode_payload_of-drops :
      (t n : ℕ) (r : Text)
      → (length r ≤ length (decode_payload_of j t n r).1 + max_frame_size)
        × (length (decode_payload_of j t n r).1 ≤ length r)
  unfolding decode_payload_of
  decode_payload_of-drops t n r = ground (arith, read_full-drops n r)

  -- Whatever the stream, and whether a message comes out or an error, DecodeFrame takes no more
  -- than a header and the largest payload from it, and never gives bytes back.
  pub decode_frame-drops :
      (r : Text)
      → (length r ≤ length (decode_frame j r).1 + header_size + max_frame_size)
        × (length (decode_frame j r).1 ≤ length r)
  unfolding decode_frame
  decode_frame-drops r =
      let r' = (read_full header_size r).1 in
      elim (Result-cases (read_full header_size r).0) [
        | inl (b, e) ↦ ground (
          arith,
          read_full-drops header_size r,
          decode_payload_of-drops (byte_at 0 b) (uint32 (drop 1 b)) r',
        )
        | inr (x, e) ↦ ground (arith, read_full-drops header_size r)
      ]

  -- A frame that Encode makes is a header and a payload of at most the largest size.
  pub length-encode :
      (m : Message) (b : Text)
      → encode j m ≡ ok b
      → (header_size ≤ length b) × (length b ≤ header_size + max_frame_size)
  unfolding encode
  length-encode m b h = elim (Result-cases (marshal_json j (payload m))) [
    | inl (p, e) ↦
        let word = put_uint32 (length p % 2 ^ 32) in
        ground (
          arith,
          length-append (m.msg_type ∷ word) p,
          length-put_uint32 (length p % 2 ^ 32),
          length-put_uint32 0,
        )
    | inr (x, e) ↦ ground (arith, length-put_uint32 0)
  ]
