-- ===== src/Trans/Pool/Queue.antt =====
-- On `extract_nonce` of src/trans.rs: the pool as an abstract queue.
use mathlib.Core.List.{foldl, append-nil, append_assoc}
use acme_lib.Prelude.{
  ℕ, zero, suc, ◌+◌, ◌-◌, ◌≤◌, ◌<◌, ◌≡◌, refl, ap, sym, ◌∙◌, String, Option, none, some, List, [],
  ◌∷◌, ◌++◌, inl, inr, ltb, Bool-cases, ltb→lt, ltb→le, arith, length, drop, length-append,
  length-drop, drop-append,
}
use acme_lib.Crates.{Crates}
use acme_lib.Persist.{Persist}
use acme_lib.World.{World}
use acme_lib.Trans.Pool.{push_nonce, drop_front, add_nonce, extract_nonce, update_pool_self}

-- The last `n` elements.
abbrev pub keep_last {ℓ} : {A : Type ℓ} → ℕ → List A → List A
keep_last n xs = drop (length xs - n) xs

drop_front-drop : (n : ℕ) (xs : List String) → drop_front (drop n xs) ≡ drop (suc n) xs
drop_front-drop zero [] = refl
drop_front-drop zero (x ∷ xs) = refl
drop_front-drop (suc n) [] = refl
drop_front-drop (suc n) (x ∷ xs) = drop_front-drop n xs

keep_last_short : (xs : List String) → length xs ≤ 10 → keep_last 10 xs ≡ xs
keep_last_short xs h = let e : length xs - 10 ≡ 0 = omega arith in rw e refl

push_nonce-keep_last :
    (xs : List String) (nonce : String)
    → push_nonce (keep_last 10 xs) nonce ≡ keep_last 10 (xs ++ nonce ∷ [])
unfolding push_nonce
push_nonce-keep_last xs nonce = elim (Bool-cases (ltb 10 (length longer))) [
  | inl full ↦ rw full (
      ap drop_front joined
      ∙ drop_front-drop k (xs ++ nonce ∷ [])
      ∙ ap (λ j. drop j (xs ++ nonce ∷ [])) (one_more (ltb→lt 10 (length longer) full)))
  | inr room ↦
      rw room
        (joined ∙ ap (λ j. drop j (xs ++ nonce ∷ [])) (no_more (ltb→le 10 (length longer) room)))
]
  where
    k : ℕ
    k = length xs - 10

    longer : List String
    longer = keep_last 10 xs ++ nonce ∷ []

    joined : longer ≡ drop k (xs ++ nonce ∷ [])
    joined = sym (drop-append k xs (nonce ∷ []) (omega arith))

    length-longer : length longer ≡ length xs - k + 1
    length-longer =
        omega (arith, length-append (keep_last 10 xs) (nonce ∷ []), length-drop (length xs - 10) xs)

    one_more : 10 < length longer → suc k ≡ length (xs ++ nonce ∷ []) - 10
    one_more h = omega (arith, length-longer, length-append xs (nonce ∷ []))

    no_more : length longer ≤ 10 → k ≡ length (xs ++ nonce ∷ []) - 10
    no_more h = omega (arith, length-longer, length-append xs (nonce ∷ []))

push_all-keep_last :
    (xs ns : List String) → foldl push_nonce (keep_last 10 xs) ns ≡ keep_last 10 (xs ++ ns)
push_all-keep_last xs [] = rw append-nil refl
push_all-keep_last xs (n ∷ ns) =
    ap (λ p. foldl push_nonce p ns) (push_nonce-keep_last xs n)
    ∙ push_all-keep_last (xs ++ n ∷ []) ns
    ∙ ap (keep_last 10) (append_assoc xs (n ∷ []) ns)

abbrev pub prepend : Option String → List String → List String
prepend none ns = ns
prepend (some n) ns = n ∷ ns

-- The nonces that responses bring, in their order.
abbrev pub nonces_of : (C : Crates) → List C.Response → List String
nonces_of C [] = []
nonces_of C (res ∷ rest) = prepend (C.header res "replay-nonce") (nonces_of C rest)

module _ {C : Crates} {P : Persist C} (p : ℕ) where
  unfoldable pub extract_all : List C.Response → World C P → World C P
  extract_all [] w = w
  extract_all (res ∷ rest) w = extract_all rest (extract_nonce p res w).1

  add_nonce-foldl :
      (o : Option String) (w : World C P) (ns : List String)
      → foldl push_nonce ((add_nonce p o w).1.pools p).pool ns
        ≡ foldl push_nonce (w.pools p).pool (prepend o ns)
  add_nonce-foldl none w ns = refl
  add_nonce-foldl (some n) w ns =
      ap (λ q. foldl push_nonce q ns) (update_pool_self w.pools p (push_nonce (w.pools p).pool n))

  extract_all-foldl :
      (responses : List C.Response) (w : World C P)
      → ((extract_all responses w).pools p).pool
        ≡ foldl push_nonce (w.pools p).pool (nonces_of C responses)
  unfolding extract_all extract_nonce
  extract_all-foldl [] w = refl
  extract_all-foldl (res ∷ rest) w =
      extract_all-foldl rest (extract_nonce p res w).1
      ∙ add_nonce-foldl (C.header res "replay-nonce") w (nonces_of C rest)

  -- From a pool of at most ten nonces, after any responses the pool holds the last ten of its own
  -- nonces and theirs, oldest first.
  pub extract_all-keep_last :
      (responses : List C.Response) (w : World C P)
      → length (w.pools p).pool ≤ 10
      → ((extract_all responses w).pools p).pool
        ≡ keep_last 10 ((w.pools p).pool ++ nonces_of C responses)
  extract_all-keep_last responses w h =
      extract_all-foldl responses w
      ∙ ap (λ q. foldl push_nonce q (nonces_of C responses))
          (sym (keep_last_short (w.pools p).pool h))
      ∙ push_all-keep_last (w.pools p).pool (nonces_of C responses)
