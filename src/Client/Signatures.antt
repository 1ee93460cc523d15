-- ===== src/Client/Signatures.antt =====
-- On programs and the bodies that they post: src/trans.rs.
use acme_lib.Prelude.{
  ℕ, ◌≢◌, ◌⊎◌, inl, inr, String, ◌≡◌, refl, Option, none, some, List, [], ◌∷◌, Bytes, length,
}
use acme_lib.Json.{Json}
use native.Mathlib.Decide.{ℕ_discrete}
use acme_lib.Crates.{Crates, Method}
use acme_lib.Persist.{Persist}
use acme_lib.World.{World, Event, exchange, slept, get, put, draw, sleep}
use acme_lib.World.Keeps.{Keeps}
use acme_lib.Req.{send}
use acme_lib.Acc.Key.{AcmeKey}
use acme_lib.Jwt.{JwsProtected, protected_json}
use acme_lib.Trans.Pool.{add_nonce, extract_nonce}
use acme_lib.Trans.Written.{Written, Names, SignedFor}
use acme_lib.Trans.Signed.{Reader, server_reads, server_reads-written}
use acme_lib.Dir.{alloc_pool}
use acme_lib.Client.{Op, run_all}
use acme_lib.Client.Frame.{Basics}
use acme_lib.Client.Keeps.{run_all_Keeps}

module _ {C : Crates} (reader : Reader C) where
  -- The text is one that the server reads as signed by a key, under a header that is for the URL.
  abbrev pub IsReadFor : String → String → Type 0
  IsReadFor url text =
      (key : AcmeKey C) × (header : JwsProtected) × Names C key url header
      × (body : Bytes) × (server_reads reader (C.public_key key.private_key) text
          ≡ some (protected_json header, body))

  -- The text is signed by a key, under a header that is for the URL, but a number of the signature is not
  -- of 32 bytes: openssl leaves out leading zeros.
  abbrev IsShortFor : String → String → Type 0
  IsShortFor url text =
      (key : AcmeKey C) × (header : JwsProtected) × (payload : Json) × Names C key url header
      × (written : Written C header key payload text) × ((length written.r ≢ 32)
          ⊎ (length written.s ≢ 32))

  abbrev PostIsRead : Method → String → Option String → Type 0
  PostIsRead Method.post url payload =
      (text : String) × (payload ≡ some text) × (IsReadFor url text ⊎ IsShortFor url text)
  PostIsRead _ url payload = Unit

  abbrev AllRead : List (Event C) → Type 0
  AllRead [] = Unit
  AllRead (exchange req res ∷ es) = PostIsRead req.method req.url req.payload × AllRead es
  AllRead (slept n ∷ es) = AllRead es

  signed-cases :
      (url text : String) → SignedFor C url text → IsReadFor url text ⊎ IsShortFor url text
  signed-cases url text (key, header, payload, names, written) =
      elim (ℕ_discrete (length written.r) 32) [
        | no short ↦ inr (key, header, payload, names, written, inl short)
        | yes r_full ↦ elim (ℕ_discrete (length written.s) 32) [
          | no short ↦ inr (key, header, payload, names, written, inr short)
          | yes s_full ↦ inl (
            key,
            header,
            names,
            _,
            server_reads-written reader header key written.pro_json written.pay_json text written.r
                written.s written.entropy written.writes_header written.signs written.writes_body
                r_full s_full,
          )
        ]
      ]

module _ {C : Crates} {P : Persist C} (reader : Reader C) where
  abbrev pub ReadTrace : World C P → Type 0
  ReadTrace w = AllRead reader w.trace

  add_nonce-ReadTrace : (p : ℕ) (o : Option String) → Keeps ReadTrace (add_nonce p o)
  add_nonce-ReadTrace p none = record { at = λ w h. h }
  add_nonce-ReadTrace p (some n) = record { at = λ w h. h }

  read_basics : Basics ReadTrace
  unfolding send sleep get put draw alloc_pool extract_nonce
  read_basics = record {
    basic_get = λ url. record { at = λ w h. (tt, h) };
    basic_head = λ url. record { at = λ w h. (tt, h) };
    basic_post = λ url text signed. record {
      at = λ w h. ((text, refl, signed-cases reader url text signed), h);
    };
    basic_sleep = λ millis. record { at = λ w h. h };
    basic_load = λ k. record { at = λ w h. h };
    basic_store = λ k v. record { at = λ w h. h };
    basic_draw = λ A f. record { at = λ w h. h };
    basic_extract = λ p res. add_nonce-ReadTrace p (C.header res "replay-nonce");
    basic_pop = λ p nonce rest w e h. h;
    basic_alloc = λ url. record { at = λ w h. h };
  }

  -- When every POST so far had a body that is signed by a key, under a header that is for the URL of the
  -- request and says whose key it is, by the account's URL or by the key itself, and that a server with the
  -- public key reads as such, or else has a number in its signature that is not of 32 bytes, then so has
  -- every POST after any sequence of calls.
  pub run_all-ReadTrace :
      (fuel : ℕ) (ops : List (Op C)) (w : World C P) → ReadTrace w → ReadTrace (run_all fuel ops w)
  run_all-ReadTrace fuel ops w h = run_all_Keeps (read_basics) fuel ops w h
