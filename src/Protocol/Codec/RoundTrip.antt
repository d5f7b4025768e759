-- ===== src/Protocol/Codec/RoundTrip.antt =====
-- protocol/codec.go: what Encode writes, DecodeFrame reads back.
use mydrive.Base.{
  ℕ, ◌≤◌, ◌<◌, ◌%◌, ◌^◌, ◌≡◌, refl, sym, ap, ◌∙◌, some, ◌∷◌, ◌++◌, true, false, arith, Text, Result,
  ok, length, length-append, take-append, drop-append, append_assoc, inl, inr, ltb, Bool-cases,
  nat_eq, lt→ltb, le→leb, ltb-false, nat_beq_pos, Result-cases,
}
use native.Mathlib.Nat.{mod-eq_of_lt}
use mydrive.Protocol.Msg
use mydrive.Protocol.Message.{
  Message, Content, bare, message_of, hello, hello_ack, sync_init, sync_init_ack, file_create,
  file_data, file_modify, file_delete, file_move, ack, sync_diff, sync_apply, error, ping, pong,
}
use mydrive.Protocol.Json.{
  Kind, hello_payload, hello_ack_payload, sync_tree, file_entry, file_data_chunk, path,
  file_move_data, ack_payload, error_payload, Value, typed, Codec, IsLawful, marshal_json,
  unmarshal_json,
}
use mydrive.Protocol.Codec.Bytes.{put_uint32, uint32-put_uint32}
use mydrive.Protocol.Codec.Parse.{Error, payload, parse_as, parse_message}
use mydrive.Protocol.Codec.Frame.{
  read_full, encode, decode_frame, decode_payload_of, is_bare, header_size, max_frame_size,
}

-- Reading as many bytes as the front of the stream holds.
pub read_full-append : (a r : Text) → read_full (length a) (a ++ r) ≡ (ok a, r)
unfolding read_full
read_full-append a r = rw (
  le→leb (length a) (length (a ++ r)) (omega (arith, length-append a r)),
  take-append,
  drop-append,
)

read_full-header :
    (t n : ℕ) (r : Text)
    → read_full header_size (t ∷ put_uint32 n ++ r) ≡ (ok (t ∷ put_uint32 n), r)
unfolding put_uint32
read_full-header t n r = read_full-append (t ∷ put_uint32 n) r

bytes_of_ok : {a b : Text} → ◌≡◌ {A = Result Error Text} (ok a) (ok b) → b ≡ a
bytes_of_ok h = cc

module _ (j : Codec) where
  -- The frame of a payload that fits is read whole, and the rest is left.
  decode_payload-append :
      (t : ℕ) (p r : Text)
      → 0 < length p
      → length p ≤ max_frame_size
      → decode_payload_of j t (length p) (p ++ r) ≡ (parse_message j t p, r)
  unfolding decode_payload_of
  decode_payload-append t p r h k = rw (
    ltb-false max_frame_size (length p) k,
    lt→ltb 0 (length p) h,
    nat_beq_pos (length p) h,
    read_full-append p r,
    read_full-append p r,
  )

  -- A header is read whole.
  decode_frame-cons :
      (t n : ℕ) (r : Text)
      → n < 2 ^ 32
      → decode_frame j (t ∷ put_uint32 n ++ r) ≡ decode_payload_of j t n r
  unfolding decode_frame
  decode_frame-cons t n r h =
      rw (read_full-header t n r, decode_frame)
        (rw (uint32-put_uint32 n, mod-eq_of_lt h, read_full-header t n r))

  parse_as-marshal :
      IsLawful j
      → (k : Kind) (v : Value k) (b : Text) (field : Value k → Message) → j.IsPlain k v
      → marshal_json j (typed k (some v)) ≡ ok b
      → (parse_as j k b field ≡ ok (field v)) × (0 < length b)
  unfolding parse_as marshal_json unmarshal_json
  parse_as-marshal L k v b field plain h =
      let unmarshalled = λ (t : Text). L.unmarshal-marshal k v t plain in
      let nonempty = λ (t : Text). L.marshal-ne-nil (typed k (some v)) t in
      elim (Result-cases (j.marshal (typed k (some v)))) [
        | inl (t, e) ↦ ground (arith, unmarshalled t, nonempty t)
        | inr (x, e) ↦ ground arith
      ]

  -- The values of a content's payload that encoding/json keeps.
  abbrev pub IsPlain : Content → Type 0
  IsPlain (hello p) = j.IsPlain hello_payload p
  IsPlain (hello_ack p) = j.IsPlain hello_ack_payload p
  IsPlain (sync_init p) = j.IsPlain sync_tree p
  IsPlain (sync_init_ack p) = j.IsPlain sync_tree p
  IsPlain (file_create p) = j.IsPlain file_entry p
  IsPlain (file_data p) = j.IsPlain file_data_chunk p
  IsPlain (file_modify p) = j.IsPlain file_entry p
  IsPlain (file_delete p) = j.IsPlain path p
  IsPlain (file_move p) = j.IsPlain file_move_data p
  IsPlain (ack p) = j.IsPlain ack_payload p
  IsPlain (sync_diff p) = j.IsPlain Kind.sync_diff p
  IsPlain (sync_apply p) = j.IsPlain Kind.sync_apply p
  IsPlain (error p) = j.IsPlain error_payload p
  IsPlain ping = Unit
  IsPlain pong = Unit

  -- Encode writes the type, the length and the payload, if the payload fits into a frame.
  encode-eq-ok :
      (m : Message) (b : Text)
      → is_bare m.msg_type ≡ false
      → encode j m ≡ ok b
      → (p : Text) × (marshal_json j (payload m) ≡ ok p)
        × (length p ≤ max_frame_size)
        × (b ≡ m.msg_type ∷ put_uint32 (length p) ++ p)
  unfolding encode
  encode-eq-ok m b e h = elim (Result-cases (marshal_json j (payload m))) [
    | inl (p, q) ↦ elim (Bool-cases (ltb max_frame_size (length p))) [
      | inl big ↦ absurd (ground arith)
      | inr fits ↦
          let small : length p ≤ max_frame_size = ground arith in
          let word : length p % 2 ^ 32 ≡ length p = omega arith in
          (p, q, small, ground (arith, ap put_uint32 word))
    ]
    | inr (x, q) ↦ absurd (ground arith)
  ]

  -- A frame that encodes a payload of kind k is parsed by its type.
  decode_frame-encode_typed :
      IsLawful j
      → (k : Kind) (con : Value k → Content) (v : Value k) (b r : Text)
      → is_bare (message_of (con v)).msg_type ≡ false
      → payload (message_of (con v)) ≡ typed k (some v)
      → ((p : Text)
          → parse_message j (message_of (con v)).msg_type p
            ≡ parse_as j k p (λ x. message_of (con x)))
      → j.IsPlain k v
      → encode j (message_of (con v)) ≡ ok b
      → decode_frame j (b ++ r) ≡ (ok (message_of (con v)), r)
  decode_frame-encode_typed L k con v b r typed_byte holds parses plain h =
      let m = message_of (con v) in
      let (p, made, small, frame) = encode-eq-ok m b typed_byte h in
      let (parsed, some_bytes) =
        parse_as-marshal L k v p (λ x. message_of (con x)) plain
          (ap (marshal_json j) (sym holds) ∙ made) in
      rw (frame, append_assoc (m.msg_type ∷ put_uint32 (length p)) p r)
        (rw (
          decode_frame-cons m.msg_type (length p) (p ++ r) (omega arith),
          decode_payload-append m.msg_type p r some_bytes small,
          parses p,
          parsed,
        ))

  decode_frame-bare :
      (t : ℕ) (r : Text)
      → is_bare t ≡ true
      → decode_frame j (t ∷ put_uint32 0 ++ r) ≡ (ok (bare t), r)
  unfolding decode_payload_of
  decode_frame-bare t r h = rw (decode_frame-cons t 0 r (omega arith)) (ground arith)

  -- With a lawful codec, whatever Encode writes for a message of any kind with a plain payload,
  -- DecodeFrame reads back from the front of a stream, and leaves the bytes behind it.
  pub decode_frame-encode :
      IsLawful j
      → (c : Content) (b r : Text) → IsPlain c
      → encode j (message_of c) ≡ ok b
      → decode_frame j (b ++ r) ≡ (ok (message_of c), r)
  unfolding encode payload parse_message
  decode_frame-encode L (hello p) b r plain h =
      decode_frame-encode_typed L hello_payload hello p b r refl refl (λ x. refl) plain h
  decode_frame-encode L (hello_ack p) b r plain h =
      decode_frame-encode_typed L hello_ack_payload hello_ack p b r refl refl (λ x. refl) plain h
  decode_frame-encode L (sync_init p) b r plain h =
      decode_frame-encode_typed L sync_tree sync_init p b r refl refl (λ x. refl) plain h
  decode_frame-encode L (sync_init_ack p) b r plain h =
      decode_frame-encode_typed L sync_tree sync_init_ack p b r refl refl (λ x. refl) plain h
  decode_frame-encode L (file_create p) b r plain h =
      decode_frame-encode_typed L file_entry file_create p b r refl refl (λ x. refl) plain h
  decode_frame-encode L (file_data p) b r plain h =
      decode_frame-encode_typed L file_data_chunk file_data p b r refl refl (λ x. refl) plain h
  decode_frame-encode L (file_modify p) b r plain h =
      decode_frame-encode_typed L file_entry file_modify p b r refl refl (λ x. refl) plain h
  decode_frame-encode L (file_delete p) b r plain h =
      decode_frame-encode_typed L path file_delete p b r refl refl (λ x. refl) plain h
  decode_frame-encode L (file_move p) b r plain h =
      decode_frame-encode_typed L file_move_data file_move p b r refl refl (λ x. refl) plain h
  decode_frame-encode L (ack p) b r plain h =
      decode_frame-encode_typed L ack_payload ack p b r refl refl (λ x. refl) plain h
  decode_frame-encode L (sync_diff p) b r plain h =
      decode_frame-encode_typed L Kind.sync_diff sync_diff p b r refl refl (λ x. refl) plain h
  decode_frame-encode L (sync_apply p) b r plain h =
      decode_frame-encode_typed L Kind.sync_apply sync_apply p b r refl refl (λ x. refl) plain h
  decode_frame-encode L (error p) b r plain h =
      decode_frame-encode_typed L error_payload error p b r refl refl (λ x. refl) plain h
  decode_frame-encode L ping b r plain h = rw (bytes_of_ok h) (decode_frame-bare Msg.ping r refl)
  decode_frame-encode L pong b r plain h = rw (bytes_of_ok h) (decode_frame-bare Msg.pong r refl)
