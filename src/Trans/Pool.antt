-- ===== src/Trans/Pool.antt =====
-- `NoncePool` of src/trans.rs.
pub mod Queue
pub mod Once
pub mod Threads
pub mod Safety
pub mod Sequential
use acme_lib.Prelude.{
  ℕ, String, Option, none, some, List, [], ◌∷◌, ◌++◌, length, arith, ◌≡◌, ◌≢◌, ltb, ◌=ᵇ◌,
  if◌then◌else◌,
}
use acme_lib.Crates.{Crates}
use acme_lib.Outcome.{Outcome, ok, or_problem}
use acme_lib.Persist.{Persist}
use acme_lib.World.{NoncePool, World, Act, lift, pure, ◌>>=◌, ◌>>◌}
use acme_lib.Req.{req_head, req_expect_header}

-- `NoncePool::new`
abbrev pub new_pool : String → NoncePool
new_pool nonce_url = record { nonce_url = nonce_url; pool = [] }

-- `VecDeque::pop_front`, of which the popped value is dropped.
abbrev pub drop_front : List String → List String
drop_front [] = []
drop_front (n ∷ ns) = ns

-- `push_back`, and `pop_front` above ten.
unfoldable pub push_nonce : List String → String → List String
push_nonce pool nonce =
    let longer = pool ++ nonce ∷ [] in if ltb 10 (length longer) then drop_front longer else longer

abbrev pub update_pool : (ℕ → NoncePool) → ℕ → List String → ℕ → NoncePool
update_pool pools p ns q = if p =ᵇ q then record (pools q) { pool = ns } else pools q

pub update_pool_self :
    (pools : ℕ → NoncePool) (p : ℕ) (ns : List String) → (update_pool pools p ns p).pool ≡ ns
update_pool_self pools p ns = ground arith

pub update_pool_ne :
    (pools : ℕ → NoncePool) (p q : ℕ) (ns : List String)
    → p ≢ q
    → update_pool pools p ns q ≡ pools q
update_pool_ne pools p q ns h = ground arith

module _ {C : Crates} {P : Persist C} (p : ℕ) where
  abbrev pub write_pool : List String → World C P → World C P
  write_pool ns w = record w { pools = update_pool w.pools p ns }

  abbrev pub add_nonce : Option String → Act C P Unit
  add_nonce none w = (ok tt, w)
  add_nonce (some nonce) w = (ok tt, write_pool (push_nonce (w.pools p).pool nonce) w)

  -- `NoncePool::extract_nonce`
  unfoldable pub extract_nonce : C.Response → Act C P Unit
  extract_nonce res = add_nonce (C.header res "replay-nonce")

  -- The request for a new nonce.
  unfoldable pub fetch_nonce : Act C P String
  fetch_nonce w =
      (do
        res ← req_head (w.pools p).nonce_url
        lift (or_problem (req_expect_header C res "replay-nonce")))
        w

  abbrev pub take_nonce : List String → Act C P String
  take_nonce [] w = fetch_nonce w
  take_nonce (nonce ∷ rest) w = (ok nonce, write_pool rest w)

  -- `NoncePool::get_nonce`
  unfoldable pub get_nonce : Act C P String
  get_nonce w = take_nonce (w.pools p).pool w
