-- ===== src/Trans/Pool/Safety.antt =====
-- What no order of the threads of Trans/Pool/Threads can break.
use acme_lib.Prelude.{
  ◌-◌, ℕ, zero, suc, ◌+◌, ◌≤◌, ◌≡◌, refl, ap, String, Option, none, some, List, [], ◌∷◌, ◌++◌,
  length, length-append, arith,
}
use acme_lib.Crates.{Crates}
use acme_lib.Trans.Pool.{push_nonce, drop_front}
use acme_lib.Trans.Pool.Queue.{prepend}
use acme_lib.Trans.Pool.Once.{count, count-push_nonce, count-prepend}
use acme_lib.Trans.Pool.Threads.{
  Shared, Pc, idle, missed, holding, answered, keep_nonce, nonce_of, Move, reuse, miss, fetch,
  fetch_fails, sign_fails, post, keep, System, pick, all_idle, Reach, start, later,
}

count-keep_nonce :
    (x : String) (o : Option String) (pool : List String)
    → count x (keep_nonce o pool) ≤ count x pool + count x (prepend o [])
count-keep_nonce x none pool = omega arith
count-keep_nonce x (some nonce) pool = count-push_nonce x nonce pool

module _ (C : Crates) (x : String) where
  -- How often a thread is about to use the nonce, or to put it into the pool.
  abbrev pub held : Pc C → ℕ
  held idle = 0
  held missed = 0
  held (holding nonce) = count x (nonce ∷ [])
  held (answered res) = count x (prepend (nonce_of C res) [])

  abbrev pub held_by_all : List (Pc C) → ℕ
  held_by_all [] = 0
  held_by_all (p ∷ ps) = held p + held_by_all ps

  held_by_all-append :
      (ps qs : List (Pc C)) → held_by_all (ps ++ qs) ≡ held_by_all ps + held_by_all qs
  held_by_all-append [] qs = omega arith
  held_by_all-append (p ∷ ps) qs = omega (arith, held_by_all-append ps qs)

  held_by_all-all_idle : (n : ℕ) → held_by_all (all_idle C n) ≡ 0
  held_by_all-all_idle zero = refl
  held_by_all-all_idle (suc n) = omega (arith, held_by_all-all_idle n)

  -- Wherever the nonce is, a response has brought it.
  Move-count :
      {m n : Shared} {p q : Pc C}
      → Move C m p n q
      → count x n.sent + count x n.pool + held q + count x m.issued
        ≤ count x m.sent + count x m.pool + held p + count x n.issued
  Move-count {m} (reuse e) = omega (arith, ap (count x) e)
  Move-count (miss e) = omega arith
  Move-count (fetch res e) = omega arith
  Move-count (fetch_fails res e) = omega arith
  Move-count sign_fails = omega arith
  Move-count {m} (post res) = omega (arith, count-prepend x (nonce_of C res) m.issued)
  Move-count {m} (keep {res}) = omega (arith, count-keep_nonce x (nonce_of C res) m.pool)

  -- In whatever order any number of threads use one pool, and whatever the servers answer: how often a
  -- nonce was sent, is in the pool, and is held by a thread is together no more than how often responses
  -- brought it.
  pub Reach-counts :
      (n : ℕ) (s : System C)
      → Reach C n s
      → count x s.shared.sent + count x s.shared.pool + held_by_all s.threads
        ≤ count x s.shared.issued
  Reach-counts n s start = omega (arith, held_by_all-all_idle n)
  Reach-counts n _ (later {s} r (pick before after {p} {q} e move)) = omega (
    arith,
    Reach-counts n s r,
    ap held_by_all e,
    held_by_all-append before (p ∷ after),
    held_by_all-append before (q ∷ after),
    Move-count move,
  )

length-drop_front : (ns : List String) → length (drop_front ns) ≡ length ns - 1
length-drop_front [] = omega arith
length-drop_front (n ∷ ns) = omega arith

pub length-push_nonce :
    (ns : List String) (n : String) → length ns ≤ 10 → length (push_nonce ns n) ≤ 10
unfolding push_nonce
length-push_nonce ns n h =
    ground (arith, length-append ns (n ∷ []), length-drop_front (ns ++ n ∷ []))

length-keep_nonce :
    (o : Option String) (pool : List String) → length pool ≤ 10 → length (keep_nonce o pool) ≤ 10
length-keep_nonce none pool h = h
length-keep_nonce (some nonce) pool h = length-push_nonce pool nonce h

Move-length :
    {C : Crates} {m n : Shared} {p q : Pc C}
    → Move C m p n q
    → length m.pool ≤ 10
    → length n.pool ≤ 10
Move-length (reuse e) h = omega (arith, ap length e)
Move-length (miss e) h = h
Move-length (fetch res e) h = h
Move-length (fetch_fails res e) h = h
Move-length sign_fails h = h
Move-length (post res) h = h
Move-length {C} {m} (keep {res}) h = length-keep_nonce (nonce_of C res) m.pool h

-- In whatever order any number of threads use one pool, it holds at most ten nonces.
pub Reach-length : {C : Crates} (n : ℕ) (s : System C) → Reach C n s → length s.shared.pool ≤ 10
Reach-length n s start = omega arith
Reach-length n _ (later {s} r (pick before after e move)) = Move-length move (Reach-length n s r)
