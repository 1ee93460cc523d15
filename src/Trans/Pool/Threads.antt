-- ===== src/Trans/Pool/Threads.antt =====
-- Threads that share one `NoncePool` of src/trans.rs, in any order. A step is what a thread does under
-- the lock of the pool, or one exchange with a server; between steps the lock is free.
use acme_lib.Prelude.{ℕ, zero, suc, String, Option, none, some, List, [], ◌∷◌, ◌++◌, ◌≡◌}
use acme_lib.Crates.{Crates}
use acme_lib.Trans.Pool.Queue.{prepend}
use acme_lib.Trans.Pool.{push_nonce}

-- The queue under the lock, and for the statements the nonces that responses brought, and those that
-- signed requests were sent with.
pub record Shared : Type 0 where
  pub pool : List String
  pub issued : List String
  pub sent : List String

-- Where a thread stands in `do_call`.
pub data Pc (C : Crates) : Type 0 where
  idle : Pc C  -- before `get_nonce`, or outside of `do_call`
  missed : Pc C  -- the lock of `get_nonce` is free again, the pool was empty
  holding : String → Pc C  -- `get_nonce` gave a nonce
  answered : C.Response → Pc C  -- before `extract_nonce`

-- The body of `extract_nonce`, on the queue.
abbrev pub keep_nonce : Option String → List String → List String
keep_nonce none pool = pool
keep_nonce (some nonce) pool = push_nonce pool nonce

module _ (C : Crates) where
  abbrev pub nonce_of : C.Response → Option String
  nonce_of res = C.header res "replay-nonce"

  -- A server answers with any response.
  pub data Move (m : Shared) : Pc C → Shared → Pc C → Type 0 where
    reuse :
        {nonce : String} {rest : List String}
        → m.pool ≡ nonce ∷ rest
        → Move m idle (record m { pool = rest }) (holding nonce)
    miss : m.pool ≡ [] → Move m idle m missed
    fetch :
        {nonce : String} (res : C.Response)
        → nonce_of res ≡ some nonce
        → Move m missed (record m { issued = nonce ∷ m.issued }) (holding nonce)
    fetch_fails : (res : C.Response) → nonce_of res ≡ none → Move m missed m idle
    sign_fails : {nonce : String} → Move m (holding nonce) m idle
    post :
        {nonce : String} (res : C.Response)
        → Move m
            (holding nonce)
            (record m { issued = prepend (nonce_of res) m.issued; sent = nonce ∷ m.sent })
            (answered res)
    keep :
        {res : C.Response}
        → Move m (answered res) (record m { pool = keep_nonce (nonce_of res) m.pool }) idle

  pub record System : Type 0 where
    pub shared : Shared
    pub threads : List (Pc C)

  pub data Step (s : System) : System → Type 0 where
    pick :
        (before after : List (Pc C)) {p q : Pc C} {m : Shared}
        → s.threads ≡ before ++ p ∷ after
        → Move s.shared p m q
        → Step s (record { shared = m; threads = before ++ q ∷ after })

  abbrev pub all_idle : ℕ → List (Pc C)
  all_idle zero = []
  all_idle (suc n) = idle ∷ all_idle n

  abbrev pub init : ℕ → System
  init n = record { shared = record { pool = []; issued = []; sent = [] }; threads = all_idle n }

  pub data Reach (n : ℕ) : System → Type 0 where
    start : Reach n (init n)
    later : {s t : System} → Reach n s → Step s t → Reach n t
