-- ===== src/Trans/Pool/Sequential.antt =====
-- On `do_call` of src/trans.rs as one of the threads of Trans/Pool/Threads.
use acme_lib.Trans.Pool.{
  push_nonce, add_nonce, extract_nonce, fetch_nonce, take_nonce, get_nonce, update_pool_self,
}
use mathlib.Core.List.{append_assoc}
use acme_lib.Prelude.{
  ◌⊎◌, inl, inr, ℕ, zero, suc, ◌++◌, ◌≡◌, refl, ap, sym, subst, ◌∙◌, String, Option, none, some,
  List, [], ◌∷◌,
}
use acme_lib.Json.{Json}
use acme_lib.Crates.{Crates}
use acme_lib.Outcome.{ok, or_problem, ok-injective}
use acme_lib.Persist.{Persist}
use acme_lib.World.{exchange, World, Act, NoncePool, Event, draw, repeat, again, ◌>>=◌}
use acme_lib.World.Keeps.{Keeps, Keeps-lift, Keeps-bind}
use acme_lib.Trans.Written.{WrittenWith, jws_with_kid-WrittenWith}
use acme_lib.World.Values.{Returns, bind-then-ok, lift-world}
use acme_lib.Req.{
  req_post, req_expect_header, header_or_problem, send, head_request, post_request,
  req_handle_error,
}
use acme_lib.Acc.Key.{AcmeKey}
use acme_lib.Jwt.{JwsProtected}
use acme_lib.Trans.{Transport, judge, attempt, do_call, call, jws_with, jws_with_kid, jws_with_jwk}
use acme_lib.Trans.Pool.Queue.{prepend}
use acme_lib.Trans.Pool.Once.{received}
use acme_lib.Trans.Pool.Threads.{
  Shared, Pc, idle, holding, keep_nonce, Move, reuse, miss, fetch, post, keep, pick, Reach, later,
}

-- The steps of one thread that no other thread comes between.
pub data Runs (C : Crates) : Shared → Pc C → Shared → Pc C → Type 0 where
  stay : {m : Shared} {p : Pc C} → Runs C m p m p
  move : {m n o : Shared} {p q r : Pc C} → Move C m p n q → Runs C n q o r → Runs C m p o r

Runs-append :
    {C : Crates} {m n o : Shared} {p q r : Pc C} → Runs C m p n q → Runs C n q o r → Runs C m p o r
Runs-append stay s = s
Runs-append (move step rest) s = move step (Runs-append rest s)

header-eq-ok :
    (C : Crates) (name : String) (o : Option String) {v : String}
    → or_problem {C = C} (header_or_problem C name o) ≡ ok v
    → o ≡ some v
header-eq-ok C name none e = cc
header-eq-ok C name (some u) e = ap some (ok-injective {C = C} e)

module _ {C : Crates} {P : Persist C} (p : ℕ) where
  -- What the threads share, of a world in which the nonces were sent.
  abbrev pub shared : List String → World C P → Shared
  shared sent w = record { pool = (w.pools p).pool; issued = received w; sent = sent }

  -- Pools and trace are those.
  abbrev IsSame : (ℕ → NoncePool) → List (Event C) → World C P → Type 0
  IsSame pools trace v = (v.pools ≡ pools) × (v.trace ≡ trace)

  shared-same :
      (sent : List String) (w v : World C P)
      → IsSame w.pools w.trace v
      → shared sent v ≡ shared sent w
  shared-same sent w v (a, b) = cc

  take-Runs :
      (sent ns : List String) (nonce : String) (w : World C P)
      → (w.pools p).pool ≡ ns
      → (take_nonce p ns w).0 ≡ ok nonce
      → Runs C (shared sent w) idle (shared sent (take_nonce p ns w).1) (holding nonce)
  unfolding fetch_nonce ◌>>=◌ send req_expect_header
  take-Runs sent [] nonce w e h =
      subst (λ s. Runs C (shared sent w) idle s (holding nonce))
        (ap (λ o. record { pool = (w.pools p).pool; issued = prepend o (received w); sent = sent })
          (sym brought))
        (move (miss e) (move (fetch res brought) stay))
    where
      res : C.Response
      res = (C.call_request (head_request (w.pools p).nonce_url) w.net).0

      brought : C.header res "replay-nonce" ≡ some nonce
      brought = header-eq-ok C "replay-nonce" (C.header res "replay-nonce") h
  take-Runs sent (n ∷ rest) nonce w e h =
      subst (λ s. Runs C (shared sent w) idle s (holding nonce))
        (ap (λ q. record { pool = q; issued = received w; sent = sent })
          (sym (update_pool_self w.pools p rest)))
        (subst
          (λ x.
            Runs C (shared sent w) idle (record { pool = rest; issued = received w; sent = sent })
              (holding x))
          (ok-injective {C = C} h) (move (reuse e) stay))

  add_nonce-shared :
      (sent : List String) (o : Option String) (v : World C P)
      → shared sent (add_nonce p o v).1
        ≡ record { pool = keep_nonce o (v.pools p).pool; issued = received v; sent = sent }
  add_nonce-shared sent none v = refl
  add_nonce-shared sent (some n) v =
      ap (λ q. record { pool = q; issued = received v; sent = sent })
        (update_pool_self v.pools p (push_nonce (v.pools p).pool n))

  post-Runs :
      (sent : List String) (nonce url text : String) (w : World C P) (res : C.Response)
      → (req_post url text w).0 ≡ ok res
      → Runs C
          (shared sent w)
          (holding nonce)
          (shared (nonce ∷ sent) (extract_nonce p res (req_post url text w).1).1)
          idle
  unfolding send extract_nonce
  post-Runs sent nonce url text w res h =
      subst (λ s. Runs C (shared sent w) (holding nonce) s idle)
        (sym (
          add_nonce-shared (nonce ∷ sent) (C.header res "replay-nonce") (req_post url text w).1
          ∙ ap
              (λ (r : C.Response). record {
                pool = keep_nonce (C.header res "replay-nonce") (w.pools p).pool;
                issued = prepend (C.header r "replay-nonce") (received w);
                sent = nonce ∷ sent;
              })
              (ok-injective {C = C} h)))
        (move (post res) (move keep stay))

  -- Signing draws random numbers, and does nothing else.
  draw-IsSame :
      (pools : ℕ → NoncePool) (trace : List (Event C)) {A : Type 0} (f : C.Entropy → A × C.Entropy)
      → Keeps (IsSame pools trace) (draw f)
  unfolding draw
  draw-IsSame pools trace f = record { at = λ w h. h }

  jws_with-IsSame :
      (pools : ℕ → NoncePool) (trace : List (Event C)) (h : JwsProtected) (k : AcmeKey C) (b : Json)
      → Keeps (IsSame pools trace) (jws_with h k b)
  unfolding jws_with
  jws_with-IsSame pools trace h k b = search (Keeps-lift, Keeps-bind, draw-IsSame) depth 12

  jws_with_kid-IsSame :
      (pools : ℕ → NoncePool) (trace : List (Event C)) (url nonce : String) (k : AcmeKey C)
      (b : Json)
      → Keeps (IsSame pools trace) (jws_with_kid url nonce k b)
  unfolding jws_with_kid
  jws_with_kid-IsSame pools trace url nonce k b = search (Keeps-lift, Keeps-bind, jws_with-IsSame)

  jws_with_jwk-IsSame :
      (pools : ℕ → NoncePool) (trace : List (Event C)) (url nonce : String) (k : AcmeKey C)
      (b : Json)
      → Keeps (IsSame pools trace) (jws_with_jwk url nonce k b)
  unfolding jws_with_jwk
  jws_with_jwk-IsSame pools trace url nonce k b = search (Keeps-lift, Keeps-bind, jws_with-IsSame)

-- A thread that runs alone for a while, among others.
Runs-Reach :
    {C : Crates} (k : ℕ) (before after : List (Pc C)) {m n : Shared} {p q : Pc C}
    → Runs C m p n q
    → Reach C k (record { shared = m; threads = before ++ p ∷ after })
    → Reach C k (record { shared = n; threads = before ++ q ∷ after })
Runs-Reach k before after stay r = r
Runs-Reach k before after (move step rest) r =
    Runs-Reach k before after rest (later r (pick before after refl step))

module _ {C : Crates} where
  -- No event, or a request for a new nonce.
  abbrev IsFetch : List (Event C) → Type 0
  IsFetch events =
      (events ≡ [])
      ⊎ ((nonce_url : String) × (res : C.Response) × (events
            ≡ exchange (head_request nonce_url) res ∷ []))

  -- Since `base` there was one POST to the URL for each nonce, the last nonce first, with a body that was
  -- made with the nonce, and before each one request for a new nonce at most.
  abbrev pub Rounds :
      (String → String → Type 0) → String → List String → List (Event C) → List (Event C) → Type 0
  Rounds Made url [] base trace = trace ≡ base
  Rounds Made url (nonce ∷ used) base trace =
      (text : String) × (res : C.Response) × (fetches : List (Event C)) × (before : List (Event C))
      × Made nonce text
      × IsFetch fetches
      × (trace ≡ exchange (post_request url text) res ∷ (fetches ++ before))
      × Rounds Made url used base before

  Rounds-append :
      (Made : String → String → Type 0) (url : String) (used first : List String)
      (base middle trace : List (Event C))
      → Rounds Made url used middle trace
      → Rounds Made url first base middle
      → Rounds Made url (used ++ first) base trace
  Rounds-append Made url [] first base middle trace same h =
      subst (Rounds Made url first base) (sym same) h
  Rounds-append Made url (nonce ∷ used) first base middle trace
        (text, res, fetches, before, made, is_fetch, e, rest) h =
      (
        text,
        res,
        fetches,
        before,
        made,
        is_fetch,
        e,
        Rounds-append Made url used first base middle before rest h,
      )

module _ {C : Crates} {P : Persist C} (p : ℕ) where
  take-IsFetch :
      (ns : List String) (w : World C P)
      → (fetches : List (Event C)) × IsFetch fetches
        × ((take_nonce p ns w).1.trace ≡ fetches ++ w.trace)
  unfolding fetch_nonce ◌>>=◌ send
  take-IsFetch [] w =
      let request = head_request (w.pools p).nonce_url in
      let res = (C.call_request request w.net).0 in
      (exchange request res ∷ [], inr ((w.pools p).nonce_url, res, refl), refl)
  take-IsFetch (n ∷ rest) w = ([], inl refl, refl)

  posted-trace :
      (url text : String) (w : World C P) (res : C.Response)
      → (req_post url text w).0 ≡ ok res
      → (extract_nonce p res (req_post url text w).1).1.trace
        ≡ exchange (post_request url text) res ∷ w.trace
  unfolding send extract_nonce
  posted-trace url text w res h =
      kept (C.header res "replay-nonce")
      ∙ ap (λ (r : C.Response). exchange (post_request url text) r ∷ w.trace)
          (ok-injective {C = C} h)
    where
      kept :
          (o : Option String)
          → (add_nonce p o (req_post url text w).1).1.trace ≡ (req_post url text w).1.trace
      kept none = refl
      kept (some n) = refl

module _ {C : Crates} {P : Persist C} (t : Transport C) (url : String) (b : Json)
    (make_body : String → String → AcmeKey C → Json → Act C P String)
    (signs : (pools : ℕ → NoncePool) (trace : List (Event C)) (nonce : String)
      → Keeps (IsSame t.nonce_pool pools trace) (make_body url nonce t.acme_key b))
    (Made : String → String → Type 0)
    (makes : (nonce : String) → Returns (Made nonce) (make_body url nonce t.acme_key b)) where
  -- A round uses one nonce.
  attempt-Runs :
      (sent : List String) (w : World C P) (o : Option C.Response)
      → (attempt t url b make_body w).0 ≡ ok o
      → (nonce : String) × Rounds Made url
          (nonce ∷ [])
          w.trace
          (attempt t url b make_body w).1.trace
        × Runs C
            (shared t.nonce_pool sent w)
            idle
            (shared t.nonce_pool (nonce ∷ sent) (attempt t url b make_body w).1)
            idle
  unfolding attempt get_nonce
  attempt-Runs sent w o h =
      let (nonce, e1, p1, h1) = bind-then-ok _ _ w h in
      let (signed, e2, p2, h2) = bind-then-ok _ _ _ h1 in
      let (res, e3, p3, h3) = bind-then-ok _ _ _ h2 in
      let (u, e4, p4, h4) = bind-then-ok _ _ _ h3 in
      let w1 = (take_nonce t.nonce_pool (w.pools t.nonce_pool).pool w).1 in
      let w2 = (make_body url nonce t.acme_key b w1).1 in
      let taken = take-Runs t.nonce_pool sent (w.pools t.nonce_pool).pool nonce w refl e1 in
      let kept = (signs w1.pools w1.trace nonce).at w1 (refl, refl) in
      let same = shared-same t.nonce_pool sent w1 w2 kept in
      let (fetches, is_fetch, fetched) = take-IsFetch t.nonce_pool (w.pools t.nonce_pool).pool w in
      let posted = post-Runs t.nonce_pool sent nonce url signed w2 res e3 in
      let ends =
        ap (λ r. r.1) (p1 ∙ p2 ∙ p3 ∙ p4) ∙ lift-world (judge C (req_handle_error C res)) _ in
      (
        nonce,
        (
          signed,
          res,
          fetches,
          w.trace,
          (makes nonce).at w1 signed e2,
          is_fetch,
          ap (λ (v : World C P). v.trace) ends
              ∙ posted-trace t.nonce_pool url signed w2 res e3
              ∙ ap (λ l. exchange (post_request url signed) res ∷ l) (kept.1 ∙ fetched),
          refl,
        ),
        subst
            (λ v.
              Runs C (shared t.nonce_pool sent w) idle (shared t.nonce_pool (nonce ∷ sent) v) idle)
            (sym ends)
            (Runs-append taken (
              subst
                (λ s.
                  Runs C s (holding nonce)
                    (shared t.nonce_pool (nonce ∷ sent)
                      (extract_nonce t.nonce_pool res (req_post url signed w2).1).1)
                    idle)
                same posted)),
      )

  -- So does each round of the loop.
  do_call-Runs :
      (fuel : ℕ) (sent : List String) (w : World C P) (res : C.Response)
      → (do_call t url b fuel make_body w).0 ≡ ok res
      → (used : List String) × Rounds Made url used w.trace
          (do_call t url b fuel make_body w).1.trace
        × Runs C
            (shared t.nonce_pool sent w)
            idle
            (shared t.nonce_pool (used ++ sent) (do_call t url b fuel make_body w).1)
            idle
  unfolding do_call repeat
  do_call-Runs zero sent w res h = cc
  do_call-Runs (suc fuel) sent w res h =
      let (o, e, p, h1) =
        bind-then-ok (attempt t url b make_body)
          (λ o. again o (repeat fuel (attempt t url b make_body))) w h in
      let (nonce, round, runs) = attempt-Runs sent w o e in
      let v = (attempt t url b make_body w).1 in
      let (used, rounds, rest) =
        next_round o (nonce ∷ sent) v h1 (λ g. do_call-Runs fuel (nonce ∷ sent) v res g) in
      (
        used ++ nonce ∷ [],
        subst (Rounds Made url (used ++ nonce ∷ []) w.trace) (ap (λ r. r.1.trace) (sym p))
            (Rounds-append Made url used (nonce ∷ []) w.trace v.trace _ rounds round),
        subst {A = List String × World C P}
            (λ (l, v'). Runs C (shared t.nonce_pool sent w) idle (shared t.nonce_pool l v') idle)
            (λ i. (sym (append_assoc used (nonce ∷ []) sent) i, sym (ap (λ r. r.1) p) i))
            (Runs-append runs rest),
      )
    where
      next_round :
          (o : Option C.Response) (sent : List String) (v : World C P)
          → (again o (repeat fuel (attempt t url b make_body)) v).0 ≡ ok res
          → ((repeat fuel (attempt t url b make_body) v).0 ≡ ok res
              → (used : List String) × Rounds Made url used v.trace
                  (repeat fuel (attempt t url b make_body) v).1.trace
                × Runs C
                    (shared t.nonce_pool sent v)
                    idle
                    (shared t.nonce_pool
                      (used ++ sent)
                      (repeat fuel (attempt t url b make_body) v).1)
                    idle)
          → (used : List String) × Rounds Made url used v.trace
              (again o (repeat fuel (attempt t url b make_body)) v).1.trace
            × Runs C
                (shared t.nonce_pool sent v)
                idle
                (shared t.nonce_pool
                  (used ++ sent)
                  (again o (repeat fuel (attempt t url b make_body)) v).1)
                idle
      next_round none sent v g more = more g
      next_round (some found) sent v g more = ([], refl, stay)

module _ {C : Crates} {P : Persist C} where
  -- A call of one of the threads that comes back with a response, on a pool that nothing else uses
  -- meanwhile, is a sequence of the steps of that thread, from before `get_nonce` to there again, and so it
  -- leads from a reachable system to a reachable one. The nonces that the steps send are those of the POSTs
  -- that the call has added to the trace: each is signed for its nonce, in the name of the key's account.
  pub call-Reach :
      (n fuel : ℕ) (before after : List (Pc C)) (t : Transport C) (url : String) (b : Json)
      (sent : List String) (w : World C P) (res : C.Response)
      → Reach C n (record { shared = shared t.nonce_pool sent w; threads = before ++ idle ∷ after })
      → (call t url b fuel w).0 ≡ ok res
      → (used : List String) × Rounds
          (WrittenWith C t.acme_key url b)
          url
          used
          w.trace
          (call t url b fuel w).1.trace
        × Runs C
            (shared t.nonce_pool sent w)
            idle
            (shared t.nonce_pool (used ++ sent) (call t url b fuel w).1)
            idle
        × Reach C n (record {
          shared = shared t.nonce_pool (used ++ sent) (call t url b fuel w).1;
          threads = before ++ idle ∷ after;
        })
  unfolding call
  call-Reach n fuel before after t url b sent w res r h =
      let (used, rounds, runs) =
        do_call-Runs t url b jws_with_kid
          (λ pools trace nonce. jws_with_kid-IsSame t.nonce_pool pools trace url nonce t.acme_key b)
          (WrittenWith C t.acme_key url b)
          (λ nonce. jws_with_kid-WrittenWith url nonce t.acme_key b) fuel sent w res h in
      (used, rounds, runs, Runs-Reach n before after runs r)
