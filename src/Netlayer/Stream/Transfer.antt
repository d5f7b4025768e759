-- ===== src/Netlayer/Stream/Transfer.antt =====
-- netlayer/stream.go: ReadMessage is DecodeFrame on the input, and a sequence of messages that is
-- written at one end is read at the other.
use mydrive.Base.{
  ℕ, zero, suc, ◌<◌, ◌≡◌, refl, sym, ◌∙◌, List, [], ◌∷◌, ◌++◌, arith, Text, Result, ok, err, length,
  drop, length-take, inl, inr, ltb, leb, Bool-cases, nat_eq, Result-cases, map, append_assoc,
  append-nil, All,
}
use mydrive.Protocol.Message.{Message, Content, message_of}
use mydrive.Protocol.Json.{Codec, IsLawful}
use mydrive.Protocol.Codec.Bytes.{uint32}
use mydrive.Protocol.Codec.Parse.{Error, decode_from_bytes, parse_message}
use mydrive.Protocol.Codec.Frame.{
  read_full, encode, decode_frame, decode_payload_of, header_size, byte_at,
}
use mydrive.Protocol.Codec.RoundTrip.{IsPlain, decode_frame-encode}
use mydrive.Netlayer.Stream.{Conn, WriteError, read_payload_of, read_message, write_message}

-- What is read for a buffer is as long as the buffer.
length-read_full : (n : ℕ) (r p : Text) → (read_full n r).0 ≡ ok p → length p ≡ n
unfolding read_full
length-read_full n r p h = elim (Bool-cases (leb n (length r))) [
  | inl e ↦ ground (arith, length-take n r)
  | inr e ↦ absurd (ground arith)
]

module _ (j : Codec) where
  decode_from_bytes-eq :
      (t : ℕ) (p : Text) → 0 < length p → decode_from_bytes j t p ≡ parse_message j t p
  unfolding decode_from_bytes
  decode_from_bytes-eq t [] h = absurd (omega arith)
  decode_from_bytes-eq t (x ∷ p) h = refl

  -- Reading from a stream, as a result and the connection afterwards.
  abbrev at_input : Conn → Result Error Message × Text → Result Error Message × Conn
  at_input c d = (d.0, record c { input = d.1 })

  read_payload_of-eq :
      (t n : ℕ) (c : Conn) → read_payload_of j t n c ≡ at_input c (decode_payload_of j t n c.input)
  unfolding read_payload_of decode_payload_of
  read_payload_of-eq t n c = elim (Bool-cases (ltb 0 n)) [
    | inl some_bytes ↦ elim (Result-cases (read_full n c.input).0) [
      | inl (p, e) ↦
          let len : length p ≡ n = length-read_full n c.input p e in
          ground (arith, decode_from_bytes-eq t p (ground arith))
      | inr (x, e) ↦ ground arith
    ]
    | inr no_bytes ↦ ground arith
  ]

  -- ReadMessage does to the input of a connection what DecodeFrame does to a stream: the same
  -- message or the same error, with the same bytes left.
  pub read_message-eq-decode_frame :
      (c : Conn)
      → read_message j c
        ≡ ((decode_frame j c.input).0, record c { input = (decode_frame j c.input).1 })
  unfolding read_message decode_frame
  read_message-eq-decode_frame c = elim (Result-cases (read_full header_size c.input).0) [
    | inl (b, e) ↦
        let r = (read_full header_size c.input).1 in
        ground
          (arith, read_payload_of-eq (byte_at 0 b) (uint32 (drop 1 b)) (record c { input = r }))
    | inr (x, e) ↦ ground arith
  ]

  -- One message after the other, up to the first that cannot be written.
  unfoldable pub write_all : List Content → Conn → Result WriteError (Unit {0}) × Conn
  write_all [] c = (ok tt, c)
  write_all (m ∷ ms) c =
      let (got, c') = write_message j (message_of m) c in
      elim got [ err e ↦ (err e, c') | ok _ ↦ write_all ms c' ]

  -- As many messages as are asked for, up to the first that cannot be read.
  unfoldable pub read_all : ℕ → Conn → Result Error (List Message) × Conn
  read_all zero c = (ok [], c)
  read_all (suc n) c =
      let (got, c') = read_message j c in
      elim got [
        | err e ↦ (err e, c')
        | ok m ↦
            let (rest, d) = read_all n c' in
            elim rest [ err e ↦ (err e, d) | ok ms ↦ (ok (m ∷ ms), d) ]
      ]

  write_message-ok :
      (m : Message) (c : Conn)
      → (write_message j m c).0 ≡ ok tt
      → (b : Text) × (encode j m ≡ ok b)
        × ((write_message j m c).1 ≡ record c { output = c.output ++ b })
  unfolding write_message
  write_message-ok m c h = elim (Result-cases (encode j m)) [
    | inl (b, e) ↦ (b, e, ground arith)
    | inr (x, e) ↦ absurd (ground arith)
  ]

  -- The bytes of a sequence of messages, as the peer will read them.
  Delivers : List Content → Text → Type 0
  Delivers ms b =
      (d : Conn) (r : Text)
      → d.input ≡ b ++ r
      → read_all (length ms) d ≡ (ok (map message_of ms), record d { input = r })

  Delivers-cons :
      IsLawful j
      → (m : Content) (ms : List Content) (b bs : Text) → IsPlain j m
      → encode j (message_of m) ≡ ok b
      → Delivers ms bs
      → Delivers (m ∷ ms) (b ++ bs)
  unfolding read_all Delivers
  Delivers-cons L m ms b bs plain made rest d r e =
      let front : decode_frame j d.input ≡ (ok (message_of m), bs ++ r) =
        rw (e, append_assoc b bs r) (decode_frame-encode j L m b (bs ++ r) plain made) in
      let d' = record d { input = bs ++ r } in
      let read : read_message j d ≡ (ok (message_of m), d') =
        read_message-eq-decode_frame d ∙ rw front in
      ground (arith, read, rest d' r refl)

  write_all-Delivers :
      IsLawful j
      → (ms : List Content) (c : Conn) → All (IsPlain j) ms
      → (write_all ms c).0 ≡ ok tt
      → (b : Text) × ((write_all ms c).1.output ≡ c.output ++ b) × Delivers ms b
  unfolding write_all read_all Delivers
  write_all-Delivers L [] c plain h = ([], sym (append-nil c.output), λ d r e. ground arith)
  write_all-Delivers L (m ∷ ms) c plain h =
      elim (Result-cases (write_message j (message_of m) c).0) [
        | inl (u, e) ↦
            let (b, made, wrote) = write_message-ok (message_of m) c e in
            let c' = record c { output = c.output ++ b } in
            let (bs, out, delivers) = write_all-Delivers L ms c' plain.1 (ground arith) in
            (
              b ++ bs,
              ground (arith, append_assoc c.output b bs),
              Delivers-cons L m ms b bs plain.0 made delivers,
            )
        | inr (x, e) ↦ absurd (ground arith)
      ]

  -- With a lawful codec and plain payloads, messages that were all written on a fresh connection
  -- arrive, when its peer reads as many from those bytes, in the same order and unchanged, and
  -- bytes behind them stay unread.
  pub read_all-write_all :
      IsLawful j
      → (ms : List Content) (c d : Conn) (r : Text) → All (IsPlain j) ms
      → c.output ≡ []
      → (write_all ms c).0 ≡ ok tt
      → d.input ≡ (write_all ms c).1.output ++ r
      → read_all (length ms) d ≡ (ok (map message_of ms), record d { input = r })
  unfolding Delivers
  read_all-write_all L ms c d r plain fresh sent e =
      let (b, out, delivers) = write_all-Delivers L ms c plain sent in
      delivers d r (rw (e, out, fresh))
