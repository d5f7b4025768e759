-- ===== src/Netlayer/Client/Backoff.antt =====
-- netlayer/client.go: how long Connect waits between its attempts, and how it ends.
use mydrive.Base.{
  ℕ, zero, suc, ◌*◌, ◌^◌, ◌≤◌, ◌≡◌, refl, ap, ◌∙◌, none, some, List, [], ◌∷◌, ◌++◌, true, Text,
  arith, min, replicate, All,
}
use native.Mathlib.Nat.{pow-suc}
use mydrive.Netlayer.Stream.{new_conn}
use mydrive.Netlayer.Client.{
  Client, Attempt, cancelled, dialled, refused, refused_cancelled, connected, second, next_delay,
  connect_loop, connect, Connecting,
}

-- The wait after a number of failed attempts: it doubles from one second up to the limit.
abbrev pub backoff : ℕ → ℕ → ℕ
backoff max_delay k = min (second * 2 ^ k) max_delay

-- The first waits of that kind.
abbrev pub backoffs : ℕ → ℕ → ℕ → List ℕ
backoffs max_delay k zero = []
backoffs max_delay k (suc n) = backoff max_delay k ∷ backoffs max_delay (suc k) n

next_delay-backoff :
    (max_delay k : ℕ) → next_delay max_delay (backoff max_delay k) ≡ backoff max_delay (suc k)
unfolding next_delay
next_delay-backoff max_delay k = ground (arith, pow-suc 2 k)

abbrev arrived : Text → Client → List ℕ → Connecting
arrived input c waits = record {
  client = record c { conn = some (new_conn input) };
  result = connected;
  waits = waits;
}

connect_loop-refused :
    (n k : ℕ) (input : Text) (rest : List Attempt) (c : Client)
    → c.reconnect ≡ true
    → connect_loop (backoff c.max_delay k) (replicate n refused ++ dialled input ∷ rest) c
      ≡ arrived input c (backoffs c.max_delay k n)
unfolding connect_loop
connect_loop-refused zero k input rest c h = refl
connect_loop-refused (suc n) k input rest c h =
    rw (next_delay-backoff c.max_delay k, connect_loop-refused n (suc k) input rest c h, h)

-- For a client that reconnects, with a limit of one second at least: after any number of refusals
-- a successful dialling connects it, and the waits before it were one second, two seconds and so
-- on, doubling up to the limit.
pub connect-refused :
    (n : ℕ) (input : Text) (rest : List Attempt) (c : Client)
    → c.reconnect ≡ true
    → second ≤ c.max_delay
    → connect (replicate n refused ++ dialled input ∷ rest) c ≡ record {
      client = record c { conn = some (new_conn input) };
      result = connected;
      waits = backoffs c.max_delay 0 n;
    }
unfolding connect
connect-refused n input rest c h room =
    let first : second ≡ backoff c.max_delay 0 = omega arith in
    ap
      (λ (d : ℕ).
        connect_loop d (replicate n refused ++ dialled input ∷ rest) (record c { conn = none }))
      first
    ∙ connect_loop-refused n 0 input rest (record c { conn = none }) h

connect_loop_waits :
    (attempts : List Attempt) (delay : ℕ) (c : Client)
    → second ≤ delay
    → delay ≤ c.max_delay
    → All (λ w. (second ≤ w) × (w ≤ c.max_delay)) (connect_loop delay attempts c).waits
unfolding connect_loop next_delay
connect_loop_waits [] delay c low high = tt
connect_loop_waits (cancelled ∷ attempts) delay c low high = tt
connect_loop_waits (dialled input ∷ attempts) delay c low high = tt
connect_loop_waits (refused_cancelled ∷ attempts) delay c low high = ground arith
connect_loop_waits (refused ∷ attempts) delay c low high = ground (
  arith,
  connect_loop_waits attempts (delay * 2) c (omega arith),
  connect_loop_waits attempts c.max_delay c (omega arith) (omega arith),
)

-- Whatever the network does, each wait is of one second at least and of the limit at most.
pub connect_waits :
    (attempts : List Attempt) (c : Client)
    → second ≤ c.max_delay
    → All (λ w. (second ≤ w) × (w ≤ c.max_delay)) (connect attempts c).waits
unfolding connect
connect_waits attempts c room =
    connect_loop_waits attempts second (record c { conn = none }) (omega arith) room
