-- ===== src/Tests/Codecs.antt =====
-- An encoder for the tests, in the place of encoding/json: it writes paths in quotes, and has an
-- error for every other payload.
use mydrive.Base.{
  length, take, drop, take-append, drop-append, ◌≡◌, ◌≢◌, none, some, [], ◌∷◌, ◌++◌, arith, Text,
  bytes, Result, ok, err, reverse, reverse-append, reverse-reverse,
}
use mydrive.Protocol.Json.{
  Kind, Value, Payload, typed, path, hello_payload, hello_ack_payload, file_data_chunk, ack_payload,
  Codec, IsLawful,
}

abbrev pub quoted : Text → Text
quoted p = b'"' ∷ (p ++ b'"' ∷ [])

abbrev pub without_first : Text → Text
without_first [] = []
without_first (c ∷ t) = t

abbrev pub unquoted : Text → Text
unquoted t = reverse (without_first (reverse (without_first t)))

abbrev pub marshal : Payload → Result Text Text
marshal (typed path (some p)) = ok (quoted p)
marshal _ = err (bytes "unsupported")

abbrev pub unmarshal : (k : Kind) → Text → Result Text (Value k)
unmarshal path t = ok (unquoted t)
unmarshal _ t = err (bytes "unsupported")

unquoted-quoted : (p : Text) → unquoted (quoted p) ≡ p
unquoted-quoted p = rw (reverse-append p (b'"' ∷ [])) (reverse-reverse p)

abbrev pub quoting : Codec
quoting = record { marshal = marshal; unmarshal = unmarshal; IsPlain = λ k v. Unit {0} }

marshal-ne-nil : (p : Payload) (t : Text) → marshal p ≡ ok t → t ≢ []
marshal-ne-nil (typed path (some p)) t h = ground arith
marshal-ne-nil (typed path none) t h = absurd (ground arith)
marshal-ne-nil p t h = ground arith

unmarshal-marshal :
    (k : Kind) (v : Value k) (t : Text)
    → Unit {0}
    → marshal (typed k (some v)) ≡ ok t
    → unmarshal k t ≡ ok v
unmarshal-marshal path p t plain h =
    let t_eq : t ≡ quoted p = ground arith in rw (t_eq, unquoted-quoted p)
unmarshal-marshal k v t plain h = absurd (ground arith)

pub quoting-IsLawful : IsLawful quoting
quoting-IsLawful = record { marshal-ne-nil = marshal-ne-nil; unmarshal-marshal = unmarshal-marshal }

-- Another one, for the handshake: it does not read a HELLO.
abbrev pub marshal_ack : Payload → Result Text Text
marshal_ack (typed hello_payload (some p)) = ok (1 ∷ p.client_id)
marshal_ack (typed hello_ack_payload (some a)) = ok (a.status ∷ a.client_id ∷ a.server_id)
marshal_ack _ = err (bytes "unsupported")

abbrev pub unmarshal_ack : (k : Kind) → Text → Result Text (Value k)
unmarshal_ack hello_ack_payload (s ∷ c ∷ t) =
    ok (record { server_id = t; client_id = c; status = s })
unmarshal_ack _ t = err (bytes "unsupported")

abbrev pub IsAck : (k : Kind) → Value k → Type 0
IsAck hello_ack_payload a = Unit
IsAck _ v = ⊥

abbrev pub acking : Codec
acking = record { marshal = marshal_ack; unmarshal = unmarshal_ack; IsPlain = IsAck }

marshal_ack-ne-nil : (p : Payload) (t : Text) → marshal_ack p ≡ ok t → t ≢ []
marshal_ack-ne-nil (typed hello_payload (some p)) t h = ground arith
marshal_ack-ne-nil (typed hello_payload none) t h = absurd (ground arith)
marshal_ack-ne-nil (typed hello_ack_payload (some p)) t h = ground arith
marshal_ack-ne-nil (typed hello_ack_payload none) t h = absurd (ground arith)
marshal_ack-ne-nil p t h = ground arith

unmarshal_ack-marshal_ack :
    (k : Kind) (v : Value k) (t : Text)
    → IsAck k v
    → marshal_ack (typed k (some v)) ≡ ok t
    → unmarshal_ack k t ≡ ok v
unmarshal_ack-marshal_ack hello_ack_payload a t plain h =
    let t_eq : t ≡ a.status ∷ a.client_id ∷ a.server_id = ground arith in rw t_eq
unmarshal_ack-marshal_ack k v t plain h = absurd plain

pub acking-IsLawful : IsLawful acking
acking-IsLawful = record {
  marshal-ne-nil = marshal_ack-ne-nil;
  unmarshal-marshal = unmarshal_ack-marshal_ack;
}

-- One for chunks of files and acknowledgements.
abbrev pub marshal_chunk : Payload → Result Text Text
marshal_chunk (typed file_data_chunk (some c)) =
    ok (c.flags ∷ c.offset ∷ length c.path ∷ (c.path ++ c.bytes))
marshal_chunk (typed ack_payload (some a)) = ok (a.seq ∷ a.status ∷ [])
marshal_chunk _ = err (bytes "unsupported")

abbrev pub unmarshal_chunk : (k : Kind) → Text → Result Text (Value k)
unmarshal_chunk file_data_chunk (f ∷ o ∷ n ∷ t) =
    ok (record { path = take n t; flags = f; offset = o; bytes = drop n t })
unmarshal_chunk ack_payload (s ∷ t ∷ []) = ok (record { seq = s; status = t })
unmarshal_chunk _ t = err (bytes "unsupported")

abbrev pub IsChunk : (k : Kind) → Value k → Type 0
IsChunk file_data_chunk c = Unit
IsChunk ack_payload a = Unit
IsChunk _ v = ⊥

abbrev pub chunking : Codec
chunking = record { marshal = marshal_chunk; unmarshal = unmarshal_chunk; IsPlain = IsChunk }

marshal_chunk-ne-nil : (p : Payload) (t : Text) → marshal_chunk p ≡ ok t → t ≢ []
marshal_chunk-ne-nil (typed file_data_chunk (some c)) t h = ground arith
marshal_chunk-ne-nil (typed file_data_chunk none) t h = absurd (ground arith)
marshal_chunk-ne-nil (typed ack_payload (some c)) t h = ground arith
marshal_chunk-ne-nil (typed ack_payload none) t h = absurd (ground arith)
marshal_chunk-ne-nil p t h = ground arith

unmarshal_chunk-marshal_chunk :
    (k : Kind) (v : Value k) (t : Text)
    → IsChunk k v
    → marshal_chunk (typed k (some v)) ≡ ok t
    → unmarshal_chunk k t ≡ ok v
unmarshal_chunk-marshal_chunk file_data_chunk c t plain h =
    let t_eq : t ≡ c.flags ∷ c.offset ∷ length c.path ∷ (c.path ++ c.bytes) = ground arith in
    rw (t_eq, take-append c.path c.bytes, drop-append c.path c.bytes)
unmarshal_chunk-marshal_chunk ack_payload a t plain h =
    let t_eq : t ≡ a.seq ∷ a.status ∷ [] = ground arith in rw t_eq
unmarshal_chunk-marshal_chunk k v t plain h = absurd plain

pub chunking-IsLawful : IsLawful chunking
chunking-IsLawful = record {
  marshal-ne-nil = marshal_chunk-ne-nil;
  unmarshal-marshal = unmarshal_chunk-marshal_chunk;
}
