-- ===== src/Client/PoolBounds.antt =====
-- On programs and the nonce pools of src/trans.rs: how many nonces a pool holds.
use acme_lib.Prelude.{
  ℕ, ◌≤◌, ap, String, Option, none, some, List, ◌=ᵇ◌, if◌then◌else◌, arith, length,
}
use acme_lib.Crates.{Crates}
use acme_lib.Persist.{Persist}
use acme_lib.World.{NoncePool, World, get, put, draw, sleep}
use acme_lib.World.Keeps.{Keeps}
use acme_lib.Req.{send}
use acme_lib.Trans.Pool.{update_pool, new_pool, add_nonce, extract_nonce}
use acme_lib.Trans.Pool.Safety.{length-push_nonce}
use acme_lib.Dir.{alloc_pool}
use acme_lib.Client.{Op, run_all}
use acme_lib.Client.Frame.{Basics}
use acme_lib.Client.Keeps.{run_all_Keeps}

pub record IsBounded {C : Crates} {P : Persist C} (w : World C P) : Type 0 where
  pub at_pool : (p : ℕ) → length (w.pools p).pool ≤ 10

length-update_pool :
    (pools : ℕ → NoncePool) (p : ℕ) (ns : List String) (q : ℕ)
    → length ns ≤ 10
    → length (pools q).pool ≤ 10
    → length (update_pool pools p ns q).pool ≤ 10
length-update_pool pools p ns q h k = ground arith

length-alloc_pool :
    (pools : ℕ → NoncePool) (p : ℕ) (url : String) (q : ℕ)
    → length (pools q).pool ≤ 10
    → length (if p =ᵇ q then new_pool url else pools q).pool ≤ 10
length-alloc_pool pools p url q k = ground arith

module _ {C : Crates} {P : Persist C} where
  add_nonce-IsBounded : (p : ℕ) (o : Option String) → Keeps {P = P} IsBounded (add_nonce p o)
  add_nonce-IsBounded p none = record { at = λ w h. h }
  add_nonce-IsBounded p (some n) = record {
    at = λ w h. record {
      at_pool = λ q.
          length-update_pool w.pools p _ q (length-push_nonce (w.pools p).pool n (h.at_pool p))
            (h.at_pool q);
    };
  }

  IsBounded-basics : Basics {P = P} IsBounded
  unfolding send sleep get put draw alloc_pool extract_nonce
  IsBounded-basics = record {
    basic_get = λ url. record { at = λ w h. record { at_pool = h.at_pool } };
    basic_head = λ url. record { at = λ w h. record { at_pool = h.at_pool } };
    basic_post = λ url body signed. record { at = λ w h. record { at_pool = h.at_pool } };
    basic_sleep = λ millis. record { at = λ w h. record { at_pool = h.at_pool } };
    basic_load = λ k. record { at = λ w h. record { at_pool = h.at_pool } };
    basic_store = λ k v. record { at = λ w h. record { at_pool = h.at_pool } };
    basic_draw = λ A f. record { at = λ w h. record { at_pool = h.at_pool } };
    basic_extract = λ p res. add_nonce-IsBounded p (C.header res "replay-nonce");
    basic_pop = λ p nonce rest w e h. record {
      at_pool = λ q.
          length-update_pool w.pools p rest q (omega (arith, ap length e, h.at_pool p))
            (h.at_pool q);
    };
    basic_alloc = λ url. record {
      at = λ w h. record {
        at_pool = λ q. length-alloc_pool w.pools w.next_pool url q (h.at_pool q);
      };
    };
  }

  -- From a world in which no pool holds more than ten nonces, every sequence of calls of the library's
  -- methods, whatever the servers answer and whichever calls fail, leads to such a world.
  pub run_all-IsBounded :
      (fuel : ℕ) (ops : List (Op C)) (w : World C P) → IsBounded w → IsBounded (run_all fuel ops w)
  run_all-IsBounded = run_all_Keeps IsBounded-basics
