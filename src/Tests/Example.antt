-- ===== src/Tests/Example.antt =====
-- A run of the example of src/lib.rs.
use mathlib.Core.Option.{some-injective}
use acme_lib.Prelude.{sym, some, [], ◌∷◌}
use acme_lib.Crates.{Crates}
use acme_lib.Persist.Memory.{memory_persist}
use acme_lib.World.{World}
use acme_lib.Std.{as_bytes}
use acme_lib.Acc.{Account}
use acme_lib.Order.Saved.{PemIsText}
use acme_lib.Tests.Fixtures.{test_crates, answer, an_account, a_directory}

abbrev pub pem_crates : Crates
pem_crates = record test_crates { private_key_to_pem_pkcs8 = λ k. some (as_bytes "KEY") }

-- The directory, a nonce, the account, the order, its authorization, the challenge, the authorization
-- again, the order twice, the finalization, the order, and the certificate.
abbrev whole_run : World pem_crates (memory_persist pem_crates)
whole_run = record {
  net =
      answer "" "directory"
      ∷ answer "n1" ""
      ∷ answer "n2" "valid"
      ∷ answer "n3" "pending"
      ∷ answer "n4" "pending"
      ∷ answer "n5" "{}"
      ∷ answer "n6" "valid"
      ∷ answer "n7" "ready"
      ∷ answer "n8" "{}"
      ∷ answer "n9" "valid"
      ∷ answer "n10" "CERT"
      ∷ [];
  entropy = 0;
  pools = λ p. record { nonce_url = ""; pool = [] };
  next_pool = 1;
  store = [];
  trace = [];
}

pub pem_crates-PemIsText : PemIsText pem_crates
pem_crates-PemIsText k pem e = ("KEY", sym (some-injective _ _ e))

abbrev later_account : Account pem_crates
later_account = record {
  inner = record {
    transport = record {
      acme_key = record { private_key = 75 ∷ []; key_id = some "https://ca/account/1" };
      nonce_pool = 0;
    };
    contact_email = "foo@bar.com";
    api_account = an_account;
    api_directory = a_directory;
  };
}
