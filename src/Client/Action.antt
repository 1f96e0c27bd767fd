-- ===== src/Client/Action.antt =====
-- client.rs: the client's state, the outcomes of a request, and actions on them.
use ads_rs.Prelude.{
  ℕ, Bool, true, false, ◌&&◌, ◌||◌, ltb, List, [], ◌∷◌, ◌==◌, if◌then◌else◌, take, ◌≡◌, refl,
}
use ads_rs.Wire.{Bytes}
use ads_rs.Errors.{Error, IoError, Result, ok, err, panic}
use ads_rs.NetId.{AmsAddr, local, bytes_eq, addr_eq}
use ads_rs.Client.Header.{AdsHeader}

-- What the thread that made a request meets: a write to the socket that fails after so many bytes, a
-- response that the reader thread sent, an error that it sent at its end, a response channel that was
-- closed, or the timeout.
pub data Arrival : Type 0 where
  write_failed : ℕ → IoError → Arrival
  received : AdsHeader → Bytes → Arrival
  failed : Error → Arrival
  disconnected : Arrival
  timed_out : Arrival

-- The state of `Client` that its operations read or change. `pending` holds the keys of the map of
-- active requests, `sent` what was written to the socket for each request, the newest first, and
-- `arrivals` what the requests to come will meet.
pub record Client : Type 0 where
  pub source : AmsAddr
  pub invoke_id : ℕ
  pub pending : List ℕ
  pub notif_handles : List (AmsAddr × ℕ)
  pub sent : List Bytes
  pub arrivals : List Arrival

-- What is written of the bytes of a request that meets this.
abbrev pub written : Arrival → Bytes → Bytes
written (write_failed n e) bytes = take n bytes
written (received h payload) bytes = bytes
written (failed e) bytes = bytes
written disconnected bytes = bytes
written timed_out bytes = bytes

-- A request that finds nothing more to meet finds its channel closed.
abbrev pub next_arrival : List Arrival → Arrival
next_arrival [] = disconnected
next_arrival (a ∷ as') = a

abbrev pub later_arrivals : List Arrival → List Arrival
later_arrivals [] = []
later_arrivals (a ∷ as') = as'

-- A method of `Client` or of a wrapper: it may fail or panic, and leaves the state.
abbrev pub Action : Type 0 → Type 0
Action A = Client → Result A × Client

abbrev pub pure : {A : Type 0} → A → Action A
pure a c = (ok a, c)

abbrev pub lift : {A : Type 0} → Result A → Action A
lift r c = (r, c)

abbrev run_next : {A B : Type 0} → Result A → (A → Action B) → Action B
run_next (ok a) f c = f a c
run_next (err e) f c = (err e, c)
run_next panic f c = (panic, c)

-- `let _ = …`: an error is ignored, and a panic is none.
unfoldable pub ignored : {A : Type 0} → Result A × Client → Result (Unit {0}) × Client
ignored (ok a, c) = (ok tt, c)
ignored (err e, c) = (ok tt, c)
ignored (panic, c) = (panic, c)

pub ignored-keeps : {A : Type 0} (m : Result A × Client) → (ignored m).1 ≡ m.1
unfolding ignored
ignored-keeps (ok a, c) = refl
ignored-keeps (err e, c) = refl
ignored-keeps (panic, c) = refl

infixl 5 ◌>>=◌ ◌>>◌
abbrev pub ◌>>=◌ : {A B : Type 0} → Action A → (A → Action B) → Action B
◌>>=◌ m f c = run_next (m c).0 f (m c).1

abbrev pub ◌>>◌ : {B : Type 0} → Action (Unit {0}) → Action B → Action B
m >> k = m >>= λ _. k

-- The map of active requests and the set of handles are kept in the order in which the source's
-- `BTreeMap` and `BTreeSet` keep and iterate them.
unfoldable pub remove_id : ℕ → List ℕ → List ℕ
remove_id id [] = []
remove_id id (k ∷ ks) = let rest = remove_id id ks in if k == id then rest else k ∷ rest

unfoldable pub insert_id : ℕ → List ℕ → List ℕ
insert_id id [] = id ∷ []
insert_id id (k ∷ ks) =
    let later = insert_id id ks in
    if k == id then k ∷ ks else if ltb id k then id ∷ k ∷ ks else k ∷ later

unfoldable pub mem_id : ℕ → List ℕ → Bool
mem_id id [] = false
mem_id id (k ∷ ks) = if k == id then true else mem_id id ks

abbrev pub HandleKey : Type 0
HandleKey = AmsAddr × ℕ

unfoldable pub key_eq : HandleKey → HandleKey → Bool
unfolding addr_eq
key_eq a b = addr_eq a.0 b.0 && a.1 == b.1

unfoldable pub remove_key : HandleKey → List HandleKey → List HandleKey
unfolding key_eq
remove_key key [] = []
remove_key key (k ∷ ks) = let rest = remove_key key ks in if key_eq k key then rest else k ∷ rest

-- The order of byte arrays.
unfoldable pub bytes_lt : Bytes → Bytes → Bool
bytes_lt [] [] = false
bytes_lt [] (b ∷ bs) = true
bytes_lt (a ∷ as') [] = false
bytes_lt (a ∷ as') (b ∷ bs) = ltb a b || a == b && bytes_lt as' bs

-- The order of addresses and then handles.
unfoldable pub key_lt : HandleKey → HandleKey → Bool
unfolding bytes_lt bytes_eq
key_lt a b =
    bytes_lt a.0.netid.octets b.0.netid.octets
    || bytes_eq a.0.netid.octets b.0.netid.octets
      && (ltb a.0.port b.0.port || a.0.port == b.0.port && ltb a.1 b.1)

unfoldable pub insert_key : HandleKey → List HandleKey → List HandleKey
unfolding key_eq key_lt
insert_key key [] = key ∷ []
insert_key key (k ∷ ks) =
    let later = insert_key key ks in
    if key_eq k key then k ∷ ks else if key_lt key k then key ∷ k ∷ ks else k ∷ later

unfoldable pub mem_key : HandleKey → List HandleKey → Bool
unfolding key_eq
mem_key key [] = false
mem_key key (k ∷ ks) = if key_eq k key then true else mem_key key ks

-- `Client::device`: the local NetID stands for the client's own.
unfoldable pub device : Client → AmsAddr → AmsAddr
unfolding bytes_eq local
device c addr =
    if bytes_eq addr.netid.octets local.octets
    then record { netid = c.source.netid; port = addr.port }
    else addr
