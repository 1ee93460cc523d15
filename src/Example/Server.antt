-- ===== src/Example/Server.antt =====
-- What a server does for the clients of src/dir.rs, src/acc/mod.rs, src/order/mod.rs and
-- src/order/auth.rs: the resources of RFC 8555, and answers to what accounts post to them.
use acme_lib.Prelude.{ℕ, ◌<◌, ◌≡◌, ◌⊎◌, String, true, false, some, List, [], ◌∷◌, inr}
use acme_lib.Api.{
  account_json, order_json, finalize_json, empty_string_json, empty_object_json, ApiDirectory,
  ApiAccount, ApiOrder, ApiAuth, ApiChallenge, domains, is_status_ready, is_status_valid,
  is_status_processing, is_auth_pending, is_auth_valid, find_http_challenge,
}
use acme_lib.Crates.{Crates, Request}
use acme_lib.Outcome.{ok}
use acme_lib.World.Fine.{IsSome}
use acme_lib.Req.{get_request, read_json}
use acme_lib.Trans.Written.{SignedFor}
use acme_lib.Client.Patience.{IsPatient}
use acme_lib.Client.Liveness.{IsChallenge}
use acme_lib.Json.{Json}
use acme_lib.Acc.Key.{AcmeKey}
use acme_lib.Acc.{order_request}
use acme_lib.Dir.{account_request}
use acme_lib.Client.Responsive.{ShowsBy, IsResponsive, Shows, reply_to, net_after}

-- Which keys are of accounts, by their ids, which resources the server has behind which URLs, and after which requests an order is final.
pub record Site (C : Crates) : Type 1 where
  pub HasAccount : AcmeKey C → Type 0
  pub OrderAt : String → ApiOrder → Type 0
  pub AuthAt : String → Type 0
  pub ChallengeAt : String → Type 0
  pub CertAt : String → Type 0
  pub Final : String → C.Net → Type 0

-- What clients post: registrations, and, in the name of an account, orders and requests to their resources.
pub data Resource {C : Crates} (S : Site C) (directory : ApiDirectory) (key : AcmeKey C)
    (url : String) (payload : Json) : Type 0 where
  to_accounts :
      (email : String)
      → url ≡ directory.new_account
      → payload ≡ account_json (account_request email)
      → Resource S directory key url payload
  to_orders :
      (name : String) (names : List String)
      → S.HasAccount key
      → url ≡ directory.new_order
      → payload ≡ order_json (order_request name names)
      → Resource S directory key url payload
  to_order :
      (o : ApiOrder)
      → S.HasAccount key
      → S.OrderAt url o
      → payload ≡ empty_string_json
      → Resource S directory key url payload
  to_finalize :
      (order_url csr : String) (o : ApiOrder)
      → S.HasAccount key
      → S.OrderAt order_url o
      → url ≡ o.finalize
      → payload ≡ finalize_json (record { csr = csr })
      → Resource S directory key url payload
  to_auth :
      S.HasAccount key
      → S.AuthAt url
      → payload ≡ empty_string_json
      → Resource S directory key url payload
  to_challenge :
      S.HasAccount key
      → S.ChallengeAt url
      → payload ≡ empty_object_json
      → Resource S directory key url payload
  to_cert :
      S.HasAccount key
      → S.CertAt url
      → payload ≡ empty_string_json
      → Resource S directory key url payload

-- A predicate on all URLs of a list.
abbrev pub All : (String → Type 0) → List String → Type 0
All Q [] = Unit
All Q (x ∷ xs) = Q x × All Q xs

-- The account has a URL, and is shown.
abbrev pub ShowsAccount : (C : Crates) → C.Response → Type 0
ShowsAccount C res =
    IsSome (C.header res "location")
    × (a : ApiAccount) × (read_json C C.account_from_str res ≡ ok a)

abbrev pub ShowsDirectory : (C : Crates) → ApiDirectory → C.Response → Type 0
ShowsDirectory C directory res =
    (C.is_ok res ≡ true) × (read_json C C.directory_from_str res ≡ ok directory)

abbrev pub ShowsText : (C : Crates) → C.Response → Type 0
ShowsText C res = (text : String) × (C.into_string res ≡ inr text)

module _ {C : Crates} (S : Site C) where
  -- The order that the response shows is one at the URL.
  abbrev pub ShowsOrder : String → C.Response → Type 0
  ShowsOrder url res = (o : ApiOrder) × (read_json C C.order_from_str res ≡ ok o) × S.OrderAt url o

  -- A new order has a URL, and the response shows it.
  abbrev pub ShowsNewOrder : C.Response → Type 0
  ShowsNewOrder res =
      (order_url : String) × (C.header res "location" ≡ some order_url) × ShowsOrder order_url res

  -- The authorization is pending or valid, and has an HTTP challenge.
  abbrev pub ShowsAuth : C.Response → Type 0
  ShowsAuth res =
      (a : ApiAuth) × (read_json C C.auth_from_str res ≡ ok a)
      × ((is_auth_pending a ≡ true) ⊎ (is_auth_valid a ≡ true))
      × (c : ApiChallenge) × (find_http_challenge a ≡ some c)
      × S.ChallengeAt c.url

  -- A final order is valid and has a certificate, or is in processing.
  abbrev pub Ends : ApiOrder → Type 0
  Ends o =
      (is_status_processing o ≡ true)
      ⊎ ((is_status_valid o ≡ true) × (url : String) × (o.certificate ≡ some url) × S.CertAt url)

module _ {C : Crates} (S : Site C) where
  -- The order that the response shows is final.
  abbrev pub ShowsEnd : String → C.Response → Type 0
  ShowsEnd url res =
      (o : ApiOrder) × (read_json C C.order_from_str res ≡ ok o) × S.OrderAt url o × Ends S o

-- The server's URL for nonces.
abbrev pub IsNonceUrl : ApiDirectory → String → Type 0
IsNonceUrl directory url = url ≡ directory.new_nonce

abbrev pub Any : (C : Crates) → C.Net → Type 0
Any C net = Unit

pub record IsAcmeServer (C : Crates) (S : Site C) (url : String) (directory : ApiDirectory)
    : Type 0 where
  pub responsive : IsResponsive C (IsNonceUrl directory) (Resource S directory)
  pub has_directory :
      (net : C.Net) → ShowsDirectory C directory (C.call_request (get_request url) net).0
  pub makes_accounts :
      (key : AcmeKey C) (payload : Json)
      → ShowsBy C (Any C) key directory.new_account payload (λ res.
        ShowsAccount C res
        × ((location : String)
            → C.header res "location" ≡ some location
            → S.HasAccount (record key { key_id = some location })))
  pub makes_orders : Shows C (Any C) directory.new_order (ShowsNewOrder S)
  pub orders_have_names :
      (order_url : String) (o : ApiOrder)
      → S.OrderAt order_url o
      → (name : String) × (names : List String) × (domains o ≡ name ∷ names)
  pub orders_have_auths :
      (order_url : String) (o : ApiOrder)
      → S.OrderAt order_url o
      → (auth : String) × (auths : List String) × (o.authorizations ≡ some (auth ∷ auths))
        × All S.AuthAt (auth ∷ auths)
  pub shows_orders :
      (order_url : String) (o : ApiOrder)
      → S.OrderAt order_url o
      → Shows C (Any C) order_url (ShowsOrder S order_url)
  pub shows_auths : (auth : String) → S.AuthAt auth → Shows C (Any C) auth (ShowsAuth S)
  pub shows_challenges :
      (challenge : String) → S.ChallengeAt challenge → Shows C (Any C) challenge (IsChallenge C)
  pub finalizes :
      (order_url : String) (o : ApiOrder) (text : String) (net : C.Net)
      → S.OrderAt order_url o
      → SignedFor C o.finalize text
      → C.is_ok (reply_to C o.finalize text net) ≡ true
      → S.Final order_url (net_after C o.finalize text net)
  pub stays_final :
      (order_url : String) (req : Request) (net : C.Net)
      → S.Final order_url net
      → S.Final order_url (C.call_request req net).1
  pub ends_orders :
      (order_url : String) (o : ApiOrder)
      → S.OrderAt order_url o
      → Shows C (S.Final order_url) order_url (ShowsEnd S order_url)
  pub gives_certs : (cert : String) → S.CertAt cert → Shows C (Any C) cert (ShowsText C)

-- An order that is neither ready nor valid takes from the rank too.
pub record IsPrompt (C : Crates) (rank : C.Net → ℕ) : Type 0 where
  pub patient : IsPatient C rank
  pub unready_costs :
      (url text : String) (net : C.Net) (o : ApiOrder)
      → read_json C C.order_from_str (reply_to C url text net) ≡ ok o
      → is_status_ready o ≡ false
      → is_status_valid o ≡ false
      → rank (net_after C url text net) < rank net
