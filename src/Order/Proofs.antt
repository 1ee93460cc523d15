-- ===== src/Order/Proofs.antt =====
-- On `http_proof` and `dns_proof` of src/order/auth.rs.
use acme_lib.Prelude.{◌≡◌, refl, ap, ◌∙◌, ◌<>◌, true}
use acme_lib.Std.{as_bytes}
use acme_lib.Crates.{Crates}
use acme_lib.Outcome.{Outcome, ok, err, panic, out_of_fuel, ◌>>=ᵒ◌, expect_ok}
use acme_lib.Req.{base64url}
use acme_lib.Jwt.{jwk_of, thumb_of, thumb_json}
use acme_lib.Order.Auth.{Challenge, Marker, key_authorization, http_proof, dns_proof}

module _ {C : Crates} {B D E : Type 0} (h : D → Outcome C E) where
  one_step : (n : Outcome C B) (k : B → D) → (n >>=ᵒ λ b. h (k b)) ≡ (n >>=ᵒ (λ b. ok (k b)) >>=ᵒ h)
  one_step (ok b) k = refl
  one_step (err e) k = refl
  one_step (panic s) k = refl
  one_step out_of_fuel k = refl

  two_steps :
      {A : Type 0} (m : Outcome C A) (n : A → Outcome C B) (k : B → D)
      → (m >>=ᵒ λ a. n a >>=ᵒ λ b. h (k b)) ≡ (m >>=ᵒ (λ a. n a >>=ᵒ λ b. ok (k b)) >>=ᵒ h)
  two_steps (ok a) n k = one_step (n a) k
  two_steps (err e) n k = refl
  two_steps (panic s) n k = refl
  two_steps out_of_fuel n k = refl

-- A challenge over DNS and one over HTTP with the same token, for accounts with the same key, agree: the
-- proof over DNS is the encoded digest of the one over HTTP, and if either fails, so does the other, in the
-- same way.
pub dns_proof-http_proof :
    {C : Crates} (c : Challenge C Marker.dns) (d : Challenge C Marker.http)
    → c.api_challenge.token ≡ d.api_challenge.token
    → c.inner.transport.acme_key ≡ d.inner.transport.acme_key
    → dns_proof c ≡ (http_proof d >>=ᵒ λ p. ok (base64url C (C.sha256 (as_bytes p))))
unfolding dns_proof http_proof key_authorization
dns_proof-http_proof {C} c d tokens keys =
    ap (λ t. key_authorization t c.inner.transport.acme_key true) tokens
    ∙ ap (λ k. key_authorization d.api_challenge.token k true) keys
    ∙ two_steps (λ p. ok (base64url C (C.sha256 (as_bytes p))))
        (jwk_of C d.inner.transport.acme_key)
        (λ jwk. expect_ok "jwk_thumb" (C.to_string (thumb_json (thumb_of jwk))))
        (λ s. d.api_challenge.token <> "." <> base64url C (C.sha256 (as_bytes s)))
