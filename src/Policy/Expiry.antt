-- ===== src/Policy/Expiry.antt =====
-- policy-utils/src/expiry.rs: the time point at which a certificate expires.
use veracruz.Base.{ℕ, ltb, if◌then◌else◌, Result, ok, err}
use veracruz.Policy.Principal.{PolicyError, certificate_format_error}

pub record Timepoint : Type 0 where
  pub year : ℕ
  pub month : ℕ
  pub day : ℕ
  pub hour : ℕ
  pub minute : ℕ

-- `Timepoint::new`; the errors' texts end with the number in the source.
unfoldable pub new : ℕ → ℕ → ℕ → ℕ → ℕ → Result PolicyError Timepoint
new year month day hour minute =
    if ltb 59 minute
    then err (certificate_format_error "invalid expiry minute")
    else if ltb 23 hour
    then err (certificate_format_error "invalid expiry hour")
    else if ltb 31 day
    then err (certificate_format_error "invalid expiry day")
    else if ltb 12 month
    then err (certificate_format_error "invalid expiry month")
    else ok (record { year = year; month = month; day = day; hour = hour; minute = minute })
