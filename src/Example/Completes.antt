-- ===== src/Example/Completes.antt =====
-- On `request_cert` in the documentation of src/lib.rs, from the directory to the saved certificate.
use acme_lib.Crates.{Crates}
use acme_lib.Persist.{Persist}
use acme_lib.World.{World}
use acme_lib.World.Fine.{Fine}
