-- ===== src/Cert/Days.antt =====
-- On `Certificate::valid_days_left` of src/cert.rs: what the number of days says.
use acme_lib.Prelude.{
  ℕ, ◌+◌, ◌-◌, ◌*◌, ◌/◌, ◌≤◌, ◌<◌, ◌≡◌, refl, some, ℤ, pos, negsuc, ◌⊎◌, inl, inr, arith, leb,
  if◌then◌else◌, Bool-cases, subst,
}
use acme_lib.Std.{as_bytes}
use acme_lib.Crates.{Crates}
use acme_lib.Outcome.{ok, expect, >>=ᵒ-eq-ok, expect-eq-ok, ok-injective}
use native.Mathlib.Decide.{dec_lt}
use acme_lib.Cert.{Certificate, parse_date, valid_days_left}

-- What the crate `time` says of its values: `at` is the nanosecond of a point in time, a duration has the
-- nanoseconds between two points, and `num_days` is the number of its whole days, rounded towards zero.
pub record IsTime (C : Crates) (at : C.Tm → ℕ) : Type 0 where
  pub nanos : C.Duration → ℤ
  pub minus_later : (a b : C.Tm) → at b ≤ at a → nanos (C.minus_tm a b) ≡ pos (at a - at b)
  pub minus_earlier : (a b : C.Tm) → at a < at b → nanos (C.minus_tm a b) ≡ negsuc (at b - at a - 1)
  pub days_of_pos :
      (d : C.Duration) (n : ℕ) → nanos d ≡ pos n → C.num_days d ≡ pos (n / 86400000000000)
  pub days_of_negsuc :
      (d : C.Duration) (n : ℕ)
      → nanos d ≡ negsuc n
      → C.num_days d
        ≡ (if leb 86400000000000 (n + 1) then negsuc ((n + 1) / 86400000000000 - 1) else pos 0)

-- A count of whole days: a day that is left makes it positive, and an expired certificate makes it
-- negative only after a whole day.
abbrev pub Counts : ℤ → ℕ → ℕ → Type 0
Counts (pos d) expiry now =
    (now + 86400000000000 * d ≤ expiry) × (expiry < now + 86400000000000 * d + 86400000000000)
    ⊎ ((d ≡ 0) × (expiry < now) × (now < expiry + 86400000000000))
Counts (negsuc d) expiry now =
    (expiry + 86400000000000 * (d + 1) ≤ now) × (now < expiry + 86400000000000 * (d + 2))

later-Counts : (e n : ℕ) → n ≤ e → Counts (pos ((e - n) / 86400000000000)) e n
later-Counts e n h = inl (omega arith, omega arith)

earlier-Counts :
    (e n : ℕ)
    → e < n
    → Counts
        (if leb 86400000000000 (n - e - 1 + 1)
          then negsuc ((n - e - 1 + 1) / 86400000000000 - 1)
          else pos 0)
        e
        n
earlier-Counts e n h = elim (Bool-cases (leb 86400000000000 (n - e - 1 + 1))) [
  | inl whole ↦ rw whole (ground arith, ground arith)
  | inr part ↦ rw part (inr (refl, h, ground arith))
]

module _ {C : Crates} (at : C.Tm → ℕ) (time : IsTime C at) where
  num_days-Counts : (a b : C.Tm) → Counts (C.num_days (C.minus_tm a b)) (at a) (at b)
  num_days-Counts a b = elim (dec_lt (at a) (at b)) [
    | yes earlier ↦
        rw (time.days_of_negsuc (C.minus_tm a b) (at b - at a - 1) (time.minus_earlier a b earlier))
          (earlier-Counts (at a) (at b) earlier)
    | no not_earlier ↦
        let later : at b ≤ at a = omega arith in
        rw (time.days_of_pos (C.minus_tm a b) (at a - at b) (time.minus_later a b later))
          (later-Counts (at a) (at b) later)
  ]

  -- If `time` counts the nanoseconds between points in time and the whole days in them, then the days that are
  -- returned are those between now and the date that the certificate gives as its end: `d` days when at
  -- least `d` and less than `d + 1` days are left, a negative number from a whole day after the end on, and
  -- zero on the day before the end and on the day after it.
  pub valid_days_left-Counts :
      (cert : Certificate) (now : C.Tm) (days : ℤ)
      → valid_days_left C cert now ≡ ok days
      → (x509 : C.X509) × (expires : C.Tm) × (C.x509_from_pem (as_bytes cert.certificate)
          ≡ some x509)
        × (C.strptime (C.not_after x509) "%h %e %H:%M:%S %Y %Z" ≡ some expires)
        × Counts days (at expires) (at now)
  unfolding valid_days_left parse_date
  valid_days_left-Counts cert now days h =
      let (x509, e1, h1) =
        >>=ᵒ-eq-ok (expect "from_pem" (C.x509_from_pem (as_bytes cert.certificate))) _ h in
      let (expires, e2, h2) =
        >>=ᵒ-eq-ok (expect "strptime" (C.strptime (C.not_after x509) "%h %e %H:%M:%S %Y %Z")) _
          h1 in
      (
        x509,
        expires,
        expect-eq-ok "from_pem" _ e1,
        expect-eq-ok "strptime" _ e2,
        subst (λ z. Counts z (at expires) (at now)) (ok-injective h2) (num_days-Counts expires now),
      )
