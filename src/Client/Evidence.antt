-- ===== src/Client/Evidence.antt =====
-- On the responses that the signed requests of src/trans.rs hand on, and the exchanges they come from.
use acme_lib.Client.Frame.{quiet_of, Basics, get_nonce-Keeps, jws_with_kid-Keeps}
use acme_lib.Prelude.{
  ℕ, ◌≡◌, ap, sym, subst, ◌∙◌, String, true, Option, none, some, List, ◌∷◌, ◌++◌,
}
use acme_lib.Json.{Json}
use acme_lib.Crates.{Crates, Request}
use acme_lib.Outcome.{ok, ok-injective}
use acme_lib.Persist.{Persist}
use acme_lib.World.{World, Event, exchange, slept, get, put, draw, sleep}
use acme_lib.World.{Act}
use acme_lib.World.Values.{Returns}
use acme_lib.Trans.Written.{WrittenFor, jws_with_kid-WrittenFor}
use acme_lib.World.Keeps.{Keeps}
use acme_lib.World.Leads.{Leads, Round, Leads-lift, Leads-bind, Leads-keeps, Leads-repeat}
use acme_lib.Req.{send, req_post, post_request, req_handle_error}
use acme_lib.Trans.{Transport, judge, attempt, do_call, call}
use acme_lib.Trans.Retry.{judge-eq-ok, judge-eq-some}
use acme_lib.Trans.Pool.{add_nonce, extract_nonce}
use acme_lib.Dir.{alloc_pool}

-- Both the value and the world are as they should be.
Leads-returns :
    {C : Crates} {P : Persist C} {A : Type 0} {I : World C P → Type 0} {Q : A → Type 0}
    {m : Act C P A}
    → Returns Q m
    → Keeps I m
    → Leads I m (λ a w. Q a × I w)
Leads-returns h k = record { at = λ w a i e. (h.at w a e, k.at w i) }

module _ {C : Crates} {P : Persist C} (base : List (Event C)) where
  -- What was seen before is still in the trace.
  abbrev pub Extends : World C P → Type 0
  Extends w = (later : List (Event C)) × (w.trace ≡ later ++ base)

  -- The newest event is the response to a POST, sent after `base`, whose body carries the payload, signed for
  -- the URL in the name of the key's account.
  abbrev pub Newest : Transport C → String → Json → C.Response → World C P → Type 0
  Newest t url payload res w =
      (signed : String) × (later : List (Event C)) × WrittenFor C t.acme_key url payload signed
      × (w.trace ≡ exchange (post_request url signed) res ∷ later ++ base)

  pub Newest-Extends :
      (t : Transport C) (url : String) (payload : Json) (res : C.Response) (w : World C P)
      → Newest t url payload res w
      → Extends w
  Newest-Extends t url payload res w (signed, later, written, e) =
      (exchange (post_request url signed) res ∷ later, e)

  send-Extends : (req : Request) → Keeps Extends (send req)
  unfolding send
  send-Extends req = record {
    at = λ w (later, e). (
      exchange req (C.call_request req w.net).0 ∷ later,
      ap (λ l. exchange req (C.call_request req w.net).0 ∷ l) e,
    );
  }

  -- Nonces leave the trace as it is.
  pub extract_nonce-trace :
      (I : List (Event C) → Type 0) (p : ℕ) (res : C.Response)
      → Keeps {P = P} (λ w. I w.trace) (extract_nonce p res)
  unfolding extract_nonce
  extract_nonce-trace I p res = adds (C.header res "replay-nonce")
    where
      adds : (o : Option String) → Keeps {P = P} (λ w. I w.trace) (add_nonce p o)
      adds none = record { at = λ w h. h }
      adds (some n) = record { at = λ w h. h }

  pub Extends-basics : Basics Extends
  unfolding sleep get put draw alloc_pool
  Extends-basics = record {
    basic_get = λ url. send-Extends _;
    basic_head = λ url. send-Extends _;
    basic_post = λ url text signed. send-Extends _;
    basic_sleep = λ millis. record {
      at = λ w (later, e). (slept millis ∷ later, ap (λ l. slept millis ∷ l) e);
    };
    basic_load = λ k. record { at = λ w h. h };
    basic_store = λ k v. record { at = λ w h. h };
    basic_draw = λ A f. record { at = λ w h. h };
    basic_extract =
        λ p res. extract_nonce-trace (λ t. (later : List (Event C)) × (t ≡ later ++ base)) p res;
    basic_pop = λ p nonce rest w e h. h;
    basic_alloc = λ url. record { at = λ w h. h };
  }

module _ {C : Crates} {P : Persist C} (base : List (Event C)) (t : Transport C) (url : String)
    (payload : Json) where
  req_post-Newest :
      (text : String)
      → WrittenFor C t.acme_key url payload text
      → Leads {P = P} (Extends base) (req_post url text) (Newest base t url payload)
  unfolding send
  req_post-Newest text written = record {
    at = λ w res (later, e) r. (
      text,
      later,
      written,
      ap
            (λ l.
              exchange (post_request url text) (C.call_request (post_request url text) w.net).0 ∷ l)
            e
          ∙ ap (λ (x : C.Response). exchange (post_request url text) x ∷ later ++ base)
              (ok-injective {C = C} r),
    );
  }

  judge-found :
      (res : C.Response) (o : Option C.Response) (w : World C P)
      → Newest base t url payload res w
      → judge C (req_handle_error C res) ≡ ok o
      → Round (Extends base) (λ r v. Newest base t url payload r v × (C.is_ok r ≡ true)) o w
  judge-found res none w h e = Newest-Extends base t url payload res w h
  judge-found res (some found) w h e =
      (subst (λ r. Newest base t url payload r w) (sym (judge-eq-some res e)) h, judge-eq-ok res e)

  pub call-Newest :
      (fuel : ℕ)
      → Leads {P = P}
          (Extends base)
          (call t url payload fuel)
          (λ res w. Newest base t url payload res w × (C.is_ok res ≡ true))
  unfolding call do_call attempt
  call-Newest fuel = Leads-repeat fuel _ (
      Leads-bind (λ _. Extends base)
        (Leads-keeps (get_nonce-Keeps (quiet_of (Extends-basics base)) t.nonce_pool))
        λ nonce.
          Leads-bind (λ text w. WrittenFor C t.acme_key url payload text × Extends base w)
            (Leads-returns (jws_with_kid-WrittenFor url nonce t.acme_key payload)
              (jws_with_kid-Keeps (quiet_of (Extends-basics base)) url nonce t.acme_key payload))
            λ signed.
              Leads-bind (Newest base t url payload)
                (record {
                  at = λ w res (written, before) e.
                      (req_post-Newest signed written).at w res before e;
                })
                λ res.
                  Leads-bind (λ _. Newest base t url payload res)
                    (Leads-keeps (
                      extract_nonce-trace base
                        (λ l.
                          (s : String) × (later : List (Event C)) × WrittenFor C t.acme_key url
                            payload s
                          × (l ≡ exchange (post_request url s) res ∷ later ++ base))
                        t.nonce_pool res))
                    λ _. Leads-lift _ (λ o w. judge-found res o w))
