-- ===== src/Netlayer/Server/Registry.antt =====
-- netlayer/server.go: the registry of clients over the connections and disconnections of a run.
use mydrive.Base.{
  ℕ, ◌+◌, ◌^◌, ◌<◌, ◌≡◌, ◌≢◌, refl, ◌∙◌, none, some, List, [], ◌∷◌, Text, arith, nat_eq, length,
}
use native.Mathlib.Nat.{mod-eq_of_lt}
use mydrive.Base.Dict
use mydrive.Base.Dict.{Dict, NodupKeys, insert-NodupKeys, erase-NodupKeys, get-insert, get-erase}
use mydrive.Netlayer.Server.{
  Server, ClientSession, new_server, new_session, accept, disconnect, get_client,
}

-- Each session stands under its own identifier.
abbrev pub HasIds : Dict ℕ ClientSession → Type 0
HasIds [] = Unit
HasIds ((k, session) ∷ m) = (session.id ≡ k) × HasIds m

-- Identifiers that were given out lie below the next one.
abbrev pub AllBelow : ℕ → Dict ℕ ClientSession → Type 0
AllBelow n [] = Unit
AllBelow n ((k, session) ∷ m) = (0 < k) × (k < n) × AllBelow n m

pub record IsValid (s : Server) : Type 0 where
  pub nodup : NodupKeys s.clients
  pub ids : HasIds s.clients
  pub fresh : AllBelow s.next_id s.clients
  pub positive : 0 < s.next_id

-- What happens to the registry in a run.
pub data Step : Server → Server → Type 0 where
  accepted : (input : Text) (s : Server) → s.next_id + 1 < 2 ^ 32 → Step s (accept input s)
  disconnected : (session : ClientSession) (s : Server) → Step s (disconnect session s).1

pub data Reach (s : Server) : Server → Type 0 where
  here : Reach s s
  next : {t u : Server} → Reach s t → Step t u → Reach s u

pub new_server-IsValid : (addr : Text) → IsValid (new_server addr)
unfolding new_server
new_server-IsValid addr = record { nodup = tt; ids = tt; fresh = tt; positive = omega arith }

AllBelow-absent : (n : ℕ) (m : Dict ℕ ClientSession) → AllBelow n m → Dict.get m n ≡ none
unfolding Dict.get
AllBelow-absent n [] h = refl
AllBelow-absent n ((k, session) ∷ m) h = ground (arith, AllBelow-absent n m h.2)

AllBelow-insert :
    (n : ℕ) (m : Dict ℕ ClientSession) (session : ClientSession)
    → 0 < n
    → AllBelow n m
    → AllBelow (n + 1) (Dict.insert m n session)
unfolding Dict.insert
AllBelow-insert n [] session p h = ground arith
AllBelow-insert n ((k, x) ∷ m) session p h = ground (arith, AllBelow-insert n m session p h.2)

AllBelow-erase : (n k : ℕ) (m : Dict ℕ ClientSession) → AllBelow n m → AllBelow n (Dict.erase m k)
unfolding Dict.erase
AllBelow-erase n k [] h = tt
AllBelow-erase n k ((i, x) ∷ m) h = ground (arith, AllBelow-erase n k m h.2)

HasIds-insert :
    (n : ℕ) (m : Dict ℕ ClientSession) (session : ClientSession)
    → session.id ≡ n
    → HasIds m
    → HasIds (Dict.insert m n session)
unfolding Dict.insert
HasIds-insert n [] session p h = ground arith
HasIds-insert n ((k, x) ∷ m) session p h = ground (arith, HasIds-insert n m session p h.1)

HasIds-erase : (k : ℕ) (m : Dict ℕ ClientSession) → HasIds m → HasIds (Dict.erase m k)
unfolding Dict.erase
HasIds-erase k [] h = tt
HasIds-erase k ((i, x) ∷ m) h = ground (arith, HasIds-erase k m h.1)

Step-IsValid : {s t : Server} → Step s t → IsValid s → IsValid t
unfolding accept disconnect
Step-IsValid (accepted input s room) h = record {
  nodup = insert-NodupKeys s.clients s.next_id (new_session s.next_id input) h.nodup;
  ids = HasIds-insert s.next_id s.clients (new_session s.next_id input) refl h.ids;
  fresh =
      rw (mod-eq_of_lt room)
        (AllBelow-insert s.next_id s.clients (new_session s.next_id input) h.positive h.fresh);
  positive = rw (mod-eq_of_lt room) (omega arith);
}
Step-IsValid (disconnected session s) h = record {
  nodup = erase-NodupKeys s.clients session.id h.nodup;
  ids = HasIds-erase session.id s.clients h.ids;
  fresh = AllBelow-erase s.next_id session.id s.clients h.fresh;
  positive = h.positive;
}

-- Over any run of connections and disconnections the registry stays valid: no identifier stands
-- twice, each session stands under its own, and the next one is taken by nobody. The run is one
-- of fewer than 2 ^ 32 connections.
pub Reach-IsValid : {s t : Server} → Reach s t → IsValid s → IsValid t
Reach-IsValid here h = h
Reach-IsValid (next r step) h = Step-IsValid step (Reach-IsValid r h)

-- In a valid registry a new client never takes the place of one that is connected: its identifier
-- was free, and every other session stays as it was.
pub get_client-accept :
    (input : Text) (s : Server) (id : ℕ)
    → IsValid s
    → (get_client s.next_id s ≡ none)
      × (get_client s.next_id (accept input s) ≡ some (new_session s.next_id input))
      × (id ≢ s.next_id → get_client id (accept input s) ≡ get_client id s)
unfolding get_client accept
get_client-accept input s id h = (
  AllBelow-absent s.next_id s.clients h.fresh,
  ground (arith, get-insert s.clients s.next_id (new_session s.next_id input) s.next_id),
  λ ne. ground (arith, get-insert s.clients s.next_id (new_session s.next_id input) id),
)

-- Connections one after the other.
pub accept_all : List Text → Server → Server
accept_all [] s = s
accept_all (input ∷ inputs) s = accept_all inputs (accept input s)

length-insert_absent :
    (m : Dict ℕ ClientSession) (k : ℕ) (session : ClientSession)
    → Dict.get m k ≡ none
    → length (Dict.insert m k session) ≡ length m + 1
unfolding Dict.get Dict.insert
length-insert_absent [] k session h = omega arith
length-insert_absent ((i, x) ∷ m) k session h = ground (arith, length-insert_absent m k session)

length-accept_all :
    (inputs : List Text) (s : Server)
    → IsValid s
    → s.next_id + length inputs < 2 ^ 32
    → length (accept_all inputs s).clients ≡ length s.clients + length inputs
unfolding accept_all
length-accept_all [] s h room = omega arith
length-accept_all (input ∷ inputs) s h room =
    let s' = accept input s in
    let one : length s'.clients ≡ length s.clients + 1 =
      unfold accept in
      length-insert_absent s.clients s.next_id (new_session s.next_id input)
        (AllBelow-absent s.next_id s.clients h.fresh) in
    let id : s'.next_id ≡ s.next_id + 1 = unfold accept in mod-eq_of_lt (omega arith) in
    omega (
      arith,
      one,
      length-accept_all inputs s' (Step-IsValid (accepted input s (omega arith)) h) (omega arith),
    )

-- A new server turns no connection away: after any number of them, below that of the identifiers,
-- as many clients are connected.
pub length-accept_all_new :
    (addr : Text) (inputs : List Text)
    → length inputs + 1 < 2 ^ 32
    → length (accept_all inputs (new_server addr)).clients ≡ length inputs
length-accept_all_new addr inputs room =
    length-accept_all inputs (new_server addr) (new_server-IsValid addr)
      (unfold new_server in omega arith)
    ∙ (unfold new_server in omega arith)
