-- ===== src/Demo/Webhook.antt =====
-- examples/pubsub/async-kafka/mock-webhook/main.go: the handlers of the webhook, which share the last
-- message under a mutex. A request is a thread; every access to what is shared is a step of its own.
pub mod Spec
pub mod Mutex
pub mod Invariant
pub mod Refines
pub mod Progress
use pucora_ce.Base.{ℕ, ◌<◌, String, Bool, true, false, List, [], ◌∷◌, ◌≡◌, Option, none, some}
use pucora_ce.Base.{if◌then◌else◌, ◌==◌}
use pucora_ce.Base.Json.{Fields}
use pucora_ce.Base.Result.{Result, ok, err}

-- `lastMsg`, `none` for the nil map, and whether `mu` is locked.
pub record Store : Type 0 where
  pub locked : Bool
  pub last_msg : Option Fields

-- A request by its path, with what the decoder makes of the body: the JSON null gives a nil map.
pub data Request : Type 0 where
  health last : Request
  ingest : Result (Option Fields) → Request

pub data Reply : Type 0 where
  done_ok not_found : Reply
  bad_request : String → Reply
  encoded : Option Fields → Reply

-- Where a handler stands.
pub data Pc : Type 0 where
  called : Request → Pc
  -- `/ingest`, before `mu.Lock()`, before the assignment, and before `mu.Unlock()`
  storing : Option Fields → Pc
  writing : Option Fields → Pc
  written : Pc
  -- `/last`, before `mu.Lock()`, before the test for nil, before the encoding, and before the
  -- deferred `mu.Unlock()`
  loading testing encoding : Pc
  answered : Reply → Pc
  returned : Reply → Pc

-- The accesses that the others can see: a message is stored, or an answer to `/last` is settled.
pub data Op : Type 0 where
  put : Option Fields → Op
  get : Reply → Op

-- One step of one handler, with the access that it makes.
pub data Move (m : Store) : Pc → Option Op → Store → Pc → Type 0 where
  healthy : Move m (called health) none m (returned done_ok)
  undecoded : (e : String) → Move m (called (ingest (err e))) none m (returned (bad_request e))
  decoded : (b : Option Fields) → Move m (called (ingest (ok b))) none m (storing b)
  lock_store :
      (b : Option Fields)
      → m.locked ≡ false
      → Move m (storing b) none (record m { locked = true }) (writing b)
  store :
      (b : Option Fields) → Move m (writing b) (some (put b)) (record m { last_msg = b }) written
  unlock_store : Move m written none (record m { locked = false }) (returned done_ok)
  asked : Move m (called last) none m loading
  lock_load : m.locked ≡ false → Move m loading none (record m { locked = true }) testing
  absent : m.last_msg ≡ none → Move m testing (some (get not_found)) m (answered not_found)
  present : (b : Fields) → m.last_msg ≡ some b → Move m testing none m encoding
  encode :
      (o : Option Fields)
      → m.last_msg ≡ o
      → Move m encoding (some (get (encoded o))) m (answered (encoded o))
  unlock_load : (r : Reply) → Move m (answered r) none (record m { locked = false }) (returned r)

pub record System : Type 0 where
  pub mem : Store
  pub pc : ℕ → Pc

unfoldable pub assign : (ℕ → Pc) → ℕ → Pc → ℕ → Pc
assign f i p j = if i == j then p else f j

-- Any of the first `n` threads moves.
pub data Step (n : ℕ) (s : System) : Option Op → System → Type 0 where
  pick :
      (i : ℕ) {l : Option Op} {m : Store} {p : Pc}
      → i < n
      → Move s.mem (s.pc i) l m p
      → Step n s l (record { mem = m; pc = assign s.pc i p })

abbrev pub start : (ℕ → Request) → System
start requests = record {
  mem = record { locked = false; last_msg = none };
  pc = λ i. called (requests i);
}

abbrev pub logged : Option Op → List Op → List Op
logged none h = h
logged (some op) h = op ∷ h

-- What is reachable, with the accesses so far, the latest first.
pub data Reach (n : ℕ) (requests : ℕ → Request) : List Op → System → Type 0 where
  here : Reach n requests [] (start requests)
  next :
      {h : List Op} {s t : System} {l : Option Op}
      → Reach n requests h s
      → Step n s l t
      → Reach n requests (logged l h) t

-- The steps from one state on until `u`.
pub data Until (n : ℕ) (u : System) : System → Type 0 where
  now : Until n u u
  after : {s t : System} {l : Option Op} → Step n s l t → Until n u t → Until n u s
