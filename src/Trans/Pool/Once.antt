-- ===== src/Trans/Pool/Once.antt =====
-- On `get_nonce` and `extract_nonce` of src/trans.rs: how often a nonce is handed out.
use acme_lib.Prelude.{
  ℕ, ◌+◌, ◌≤◌, ◌≡◌, refl, ap, String, Option, none, some, List, [], ◌∷◌, ◌++◌, ◌==◌, if◌then◌else◌,
  arith,
}
use acme_lib.Crates.{Crates}
use acme_lib.Outcome.{Outcome, ok, err, panic, out_of_fuel, or_problem}
use acme_lib.Persist.{Persist}
use acme_lib.World.{World, Event, exchange, slept, Act, ◌>>=◌}
use acme_lib.Req.{req_post, req_expect_header, header_or_problem, send, post_request, head_request}
use acme_lib.Trans.Pool.{
  push_nonce, drop_front, add_nonce, extract_nonce, fetch_nonce, take_nonce, get_nonce,
  update_pool_self,
}
use acme_lib.Trans.Pool.Queue.{nonces_of, prepend}

abbrev pub count : String → List String → ℕ
count n [] = 0
count n (x ∷ xs) = (if n == x then 1 else 0) + count n xs

count-append : (n : String) (xs ys : List String) → count n (xs ++ ys) ≡ count n xs + count n ys
count-append n [] ys = omega arith
count-append n (x ∷ xs) ys = omega (arith, count-append n xs ys)

count-drop_front : (n : String) (xs : List String) → count n (drop_front xs) ≤ count n xs
count-drop_front n [] = omega arith
count-drop_front n (x ∷ xs) = omega arith

pub count-push_nonce :
    (n x : String) (xs : List String) → count n (push_nonce xs x) ≤ count n xs + count n (x ∷ [])
unfolding push_nonce
count-push_nonce n x xs =
    ground (arith, count-append n xs (x ∷ []), count-drop_front n (xs ++ x ∷ []))

-- What a thread does with the pool: it posts and keeps the nonce of the response, or it takes a nonce.
pub data PoolStep : Type 0 where
  post : (url body : String) → PoolStep
  take : PoolStep

abbrev pub responses_of : {C : Crates} → List (Event C) → List C.Response
responses_of [] = []
responses_of (exchange req res ∷ es) = res ∷ responses_of es
responses_of (slept millis ∷ es) = responses_of es

-- The nonces of all responses so far.
abbrev pub received : {C : Crates} {P : Persist C} → World C P → List String
received {C} w = nonces_of C (responses_of w.trace)

abbrev value_of : {C : Crates} {A : Type 0} → Outcome C A → Option A
value_of (ok a) = some a
value_of (err e) = none
value_of (panic s) = none
value_of out_of_fuel = none

pub count-prepend :
    (n : String) (o : Option String) (xs : List String)
    → count n (prepend o xs) ≡ count n (prepend o []) + count n xs
count-prepend n none xs = omega arith
count-prepend n (some x) xs = omega arith

value_of-header :
    (C : Crates) (name : String) (o : Option String)
    → value_of (or_problem {C = C} (header_or_problem C name o)) ≡ o
value_of-header C name none = refl
value_of-header C name (some v) = refl

module _ {C : Crates} {P : Persist C} (p : ℕ) where
  unfoldable pub post_and_keep : String → String → Act C P Unit
  post_and_keep url body = do res ← req_post url body; extract_nonce p res

  unfoldable pub after_steps : List PoolStep → World C P → World C P
  after_steps [] w = w
  after_steps (post url body ∷ steps) w = after_steps steps (post_and_keep url body w).1
  after_steps (take ∷ steps) w = after_steps steps (get_nonce p w).1

  -- The nonces that the steps take, in their order.
  unfoldable pub handed_out : List PoolStep → World C P → List String
  handed_out [] w = []
  handed_out (post url body ∷ steps) w = handed_out steps (post_and_keep url body w).1
  handed_out (take ∷ steps) w =
      prepend (value_of (get_nonce p w).0) (handed_out steps (get_nonce p w).1)

  add_nonce-count :
      (n : String) (o : Option String) (w : World C P)
      → count n ((add_nonce p o w).1.pools p).pool
        ≤ count n (w.pools p).pool + count n (prepend o [])
  add_nonce-count n none w = omega arith
  add_nonce-count n (some x) w = omega (
    arith,
    ap (count n) (update_pool_self w.pools p (push_nonce (w.pools p).pool x)),
    count-push_nonce n x (w.pools p).pool,
  )

  add_nonce-trace : (o : Option String) (w : World C P) → (add_nonce p o w).1.trace ≡ w.trace
  add_nonce-trace none w = refl
  add_nonce-trace (some x) w = refl

  post_and_keep-count :
      (n url body : String) (w : World C P)
      → count n ((post_and_keep url body w).1.pools p).pool + count n (received w)
        ≤ count n (w.pools p).pool + count n (received (post_and_keep url body w).1)
  unfolding post_and_keep ◌>>=◌ send extract_nonce
  post_and_keep-count n url body w = omega (
    arith,
    add_nonce-count n nonce w1,
    ap (λ t. count n (nonces_of C (responses_of t))) (add_nonce-trace nonce w1),
    count-prepend n nonce (received w),
  )
    where
      res : C.Response
      res = (C.call_request (post_request url body) w.net).0

      nonce : Option String
      nonce = C.header res "replay-nonce"

      w1 : World C P
      w1 = record w {
        net = (C.call_request (post_request url body) w.net).1;
        trace = exchange (post_request url body) res ∷ w.trace;
      }

  take_nonce-count :
      (n : String) (ns : List String) (w : World C P)
      → (w.pools p).pool ≡ ns
      → count n (prepend (value_of (take_nonce p ns w).0) [])
          + count n ((take_nonce p ns w).1.pools p).pool
          + count n (received w)
        ≤ count n ns + count n (received (take_nonce p ns w).1)
  unfolding fetch_nonce ◌>>=◌ send req_expect_header
  take_nonce-count n [] w e = omega (
    arith,
    ap (λ o. count n (prepend o [])) (value_of-header C "replay-nonce" nonce),
    count-prepend n nonce (received w),
    ap (count n) e,
  )
    where
      nonce : Option String
      nonce = C.header (C.call_request (head_request (w.pools p).nonce_url) w.net).0 "replay-nonce"
  take_nonce-count n (x ∷ rest) w e = omega (arith, ap (count n) (update_pool_self w.pools p rest))

  -- Whatever the steps on a pool and whatever the servers answer: how often a nonce is handed out, and how
  -- often it is then in the pool, is no more than it was in the pool before, and than responses brought it
  -- in the meantime.
  pub handed_out-count :
      (n : String) (steps : List PoolStep) (w : World C P)
      → count n (handed_out steps w)
          + count n ((after_steps steps w).pools p).pool
          + count n (received w)
        ≤ count n (w.pools p).pool + count n (received (after_steps steps w))
  unfolding handed_out after_steps get_nonce
  handed_out-count n [] w = omega arith
  handed_out-count n (post url body ∷ steps) w = omega (
    arith,
    handed_out-count n steps (post_and_keep url body w).1,
    post_and_keep-count n url body w,
  )
  handed_out-count n (take ∷ steps) w = omega (
    arith,
    handed_out-count n steps (get_nonce p w).1,
    take_nonce-count n (w.pools p).pool w refl,
    count-prepend n (value_of (get_nonce p w).0) (handed_out steps (get_nonce p w).1),
  )
