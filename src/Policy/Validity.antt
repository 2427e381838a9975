-- ===== src/Policy/Validity.antt =====
-- What a valid policy promises.
use veracruz.Base.{
  ℕ, ◌≡◌, ◌↔◌, true, false, List, [], ◌∷◌, ◌++◌, ok, arith, ends_with, String, string_eq, ◌≤◌,
}
use veracruz.Policy.Principal.{Identity, assert_identity_valid}
use veracruz.Policy.Contract
use veracruz.Policy.Contract.{Policy, ids, member}
use veracruz.Policy.Expiry
use veracruz.Policy.Expiry.{Timepoint}

-- Every certificate ends as PEM does.
abbrev pub AllPem : List Identity → Type 0
AllPem [] = Unit
AllPem (i ∷ is) = (ends_with i.certificate "-----END CERTIFICATE-----" ≡ true) × AllPem is

-- No client id stands in a list, or twice among the identities.
abbrev pub AllNew : List ℕ → List Identity → Type 0
AllNew seen [] = Unit
AllNew seen (i ∷ is) = (member i.id seen ≡ false) × AllNew (seen ++ (i.id ∷ [])) is

assert_identities_iff :
    (seen : List ℕ) (is : List Identity)
    → (Contract.assert_identities seen is ≡ ok tt) ↔ (AllPem is × AllNew seen is)
unfolding Contract.assert_identities assert_identity_valid
assert_identities_iff seen [] = ground arith
assert_identities_iff seen (i ∷ is) = ground (arith, assert_identities_iff (seen ++ (i.id ∷ [])) is)

check_certificate-member :
    (cert : String) (is : List Identity) (id : ℕ)
    → Contract.check_certificate cert is ≡ ok id
    → member id (ids is) ≡ true
unfolding Contract.check_certificate ids member
check_certificate-member cert (i ∷ is) id h = ground (arith, check_certificate-member cert is id)
check_certificate-member cert [] id h = ground arith

-- Every client that is recognised by its certificate may request the shutdown: its id is in the
-- list of the expected shutdown sources. This holds of every identity of the policy, also of one
-- without the right to request the result, to which the comment of `expected_shutdown_list` limits
-- it.
pub check_client_id-expected_shutdown_list :
    (cert : String) (policy : Policy) (id : ℕ)
    → Contract.check_client_id cert policy ≡ ok id
    → member id (Contract.expected_shutdown_list policy) ≡ true
unfolding Contract.check_client_id Contract.expected_shutdown_list
check_client_id-expected_shutdown_list cert policy id h =
    check_certificate-member cert policy.identities id h

-- A time point is made exactly where minute, hour, day and month are at most 59, 23, 31 and 12, and
-- then it holds the numbers that were given; a day or a month 0 is accepted.
pub new_iff :
    (year month day hour minute : ℕ) (t : Timepoint)
    → (Expiry.new year month day hour minute ≡ ok t) ↔ (
        ((minute ≤ 59) × (hour ≤ 23) × (day ≤ 31) × (month ≤ 12))
        × (t ≡ record { year = year; month = month; day = day; hour = hour; minute = minute }))
unfolding Expiry.new
new_iff year month day hour minute t = ground arith

-- `assert_valid` accepts a policy exactly where each certificate ends with the end line of PEM and
-- no client id occurs twice. Nothing else of a certificate is checked, and nothing of the
-- ciphersuite: the checks that the comments of the source promise are under `cfg(features =
-- "std")`, which no build sets.
pub assert_valid_iff :
    (policy : Policy)
    → (Contract.assert_valid policy ≡ ok tt)
      ↔ (AllPem policy.identities × AllNew [] policy.identities)
unfolding Contract.assert_valid
assert_valid_iff policy = assert_identities_iff [] policy.identities
