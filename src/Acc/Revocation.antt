-- ===== src/Acc/Revocation.antt =====
-- On the codes of `RevocationReason` in src/acc/mod.rs.
use acme_lib.Prelude.{ℕ, zero, suc, ◌≡◌, refl, Option, none, some}
use acme_lib.Acc.{
  RevocationReason, reason_code, unspecified, key_compromise, ca_compromise, affiliation_changed,
  superseded, cessation_of_operation, certificate_hold, remove_from_crl, privilege_withdrawn,
  aa_compromise,
}

-- The reason that RFC 5280 gives a code.
abbrev pub rfc_reason : ℕ → Option RevocationReason
rfc_reason zero = some unspecified
rfc_reason (suc zero) = some key_compromise
rfc_reason (suc (suc zero)) = some ca_compromise
rfc_reason (suc (suc (suc zero))) = some affiliation_changed
rfc_reason (suc (suc (suc (suc zero)))) = some superseded
rfc_reason (suc (suc (suc (suc (suc zero))))) = some cessation_of_operation
rfc_reason (suc (suc (suc (suc (suc (suc zero)))))) = some certificate_hold
rfc_reason (suc (suc (suc (suc (suc (suc (suc zero))))))) = none
rfc_reason (suc (suc (suc (suc (suc (suc (suc (suc zero)))))))) = some remove_from_crl
rfc_reason (suc (suc (suc (suc (suc (suc (suc (suc (suc zero))))))))) = some privilege_withdrawn
rfc_reason (suc (suc (suc (suc (suc (suc (suc (suc (suc (suc zero)))))))))) = some aa_compromise
rfc_reason _ = none

-- The code of a reason is read back as the reason by the table of RFC 5280, so that no two reasons
-- share a code and none has the code 7, which the RFC leaves unused.
pub rfc_reason-reason_code : (r : RevocationReason) → rfc_reason (reason_code r) ≡ some r
unfolding reason_code
rfc_reason-reason_code unspecified = refl
rfc_reason-reason_code key_compromise = refl
rfc_reason-reason_code ca_compromise = refl
rfc_reason-reason_code affiliation_changed = refl
rfc_reason-reason_code superseded = refl
rfc_reason-reason_code cessation_of_operation = refl
rfc_reason-reason_code certificate_hold = refl
rfc_reason-reason_code remove_from_crl = refl
rfc_reason-reason_code privilege_withdrawn = refl
rfc_reason-reason_code aa_compromise = refl
