-- ===== src/Client/Termination/Steps.antt =====
-- Lemmas on fuel: the persistence, the pools and the conversions of results.
use acme_lib.Prelude.{ℕ, ◌≢◌, String, ◌⊎◌, List, arith, Bytes}
use acme_lib.Crates.{Crates}
use acme_lib.Outcome.{Outcome, out_of_fuel, or_io, or_other}
use acme_lib.Persist.{Persist, PersistKey}
use acme_lib.World.{get, put}
use acme_lib.World.Ends.{Ends}
use acme_lib.Acc.Key.{key_from_pem}
use acme_lib.Dir.{alloc_pool}
use acme_lib.Order.{Order, first_domain, cert_order_if_valid}
use acme_lib.Client.Patience.{IsPatient, IsTotal}
use acme_lib.Client.Termination.Calls.{rank_of, level_basics}

pub or_io-settles :
    {C : Crates} {A : Type 0} (r : C.IoError ⊎ A) → ◌≢◌ {A = Outcome C A} (or_io r) out_of_fuel
or_io-settles r = ground arith

pub or_other-settles :
    {C : Crates} {A : Type 0} (f : C.SslError → String) (r : C.SslError ⊎ A)
    → ◌≢◌ {A = Outcome C A} (or_other f r) out_of_fuel
or_other-settles f r = ground arith

pub key_from_pem-settles :
    {C : Crates} (pem : Bytes) → ◌≢◌ {A = Outcome C _} (key_from_pem pem) out_of_fuel
unfolding key_from_pem
key_from_pem-settles pem = ground arith

pub first_domain-settles :
    {C : Crates} (ds : List String) → ◌≢◌ {A = Outcome C String} (first_domain ds) out_of_fuel
first_domain-settles ds = ground arith

pub cert_order_if_valid-settles :
    {C : Crates} (k : C.PrivateKey) (o : Order C) → cert_order_if_valid k o ≢ out_of_fuel
unfolding cert_order_if_valid
cert_order_if_valid-settles k o = ground arith

module _ {C : Crates} {P : Persist C} (rank : C.Net → ℕ) (patient : IsPatient C rank)
    (total : IsTotal P) (n : ℕ) where
  pub get-Ends : (k : PersistKey) → Ends {P = P} (rank_of rank patient) n (get k)
  unfolding get
  get-Ends k = record {
    settles = λ w h. total.get_returns k w.store;
    level = λ j. (level_basics rank patient j).basic_load k;
  }

  pub put-Ends : (k : PersistKey) (v : Bytes) → Ends {P = P} (rank_of rank patient) n (put k v)
  unfolding put
  put-Ends k v = record {
    settles = λ w h. total.put_returns k v w.store;
    level = λ j. (level_basics rank patient j).basic_store k v;
  }

  pub alloc_pool-Ends : (url : String) → Ends {P = P} (rank_of rank patient) n (alloc_pool url)
  unfolding alloc_pool
  alloc_pool-Ends url = record {
    settles = λ w h p. cc;
    level = λ j. (level_basics rank patient j).basic_alloc url;
  }
