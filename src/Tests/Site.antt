-- ===== src/Tests/Site.antt =====
-- The example of src/lib.rs against a server that leaves orders and authorizations pending for a while.
use acme_lib.Example.Server.{Site}
use acme_lib.Prelude.{ℕ, zero, suc, ◌<◌, ◌≡◌, ◌⊎◌, String, ◌==◌, some, [], ◌∷◌, if◌then◌else◌}
use acme_lib.Crates.{Crates, Request}
use acme_lib.Persist.Memory.{memory_persist}
use acme_lib.World.{World}
use acme_lib.Acc.{Account}
use acme_lib.Json.{Json}
use acme_lib.Tests.Example.{pem_crates}
use acme_lib.Tests.Fixtures.{Answer, answer, an_order, an_account, a_directory}

-- The network is the number of pending answers that are left; a finalization leaves none.
abbrev serve : Request → ℕ → Answer × ℕ
serve req zero = (answer "n" "valid", zero)
serve req (suc n) =
    if req.url == "https://ca/finalize"
    then (answer "n" "valid", zero)
    else (answer "n" "pending", n)

abbrev site_crates : Crates
site_crates = record pem_crates { Net = ℕ; call_request = serve }

-- Every answer is one of the two.
abbrev Serves : (Answer × ℕ) → ℕ → Type 0
Serves r n = ((r.0 ≡ answer "n" "valid") × (r.1 ≡ 0)) ⊎ ((r.0 ≡ answer "n" "pending") × (r.1 < n))

abbrev a_site : Site site_crates
a_site = record {
  HasAccount = λ key. (kid : String) × (key.key_id ≡ some kid);
  OrderAt = λ url o. (status : String) × (o ≡ an_order status);
  AuthAt = λ url. Unit;
  ChallengeAt = λ url. Unit;
  CertAt = λ url. Unit;
  Final = λ url n. n ≡ 0;
}

abbrev starting : World site_crates (memory_persist site_crates)
starting = record {
  net = 5;
  entropy = 0;
  pools = λ p. record { nonce_url = a_directory.new_nonce; pool = [] };
  next_pool = 1;
  store = [];
  trace = [];
}

abbrev the_account : Account site_crates
the_account = record {
  inner = record {
    transport = record {
      acme_key = record { private_key = 75 ∷ []; key_id = some "https://ca/account/1" };
      nonce_pool = 0;
    };
    contact_email = "foo@bar.com";
    api_account = an_account;
    api_directory = a_directory;
  };
}
