-- ===== src/Session/Context.antt =====
-- session-manager/src/session_context.rs and error.rs, and `lookup_ciphersuite` of
-- veracruz-utils/src/lib.rs.
use veracruz.Base.{
  ◌>>=◌, ◌>>◌, none, some, ℕ, ok, err, Option, String, Result, Exec, pure, lift, gets, modify,
  ok_or, [], ◌∷◌, List, ◌==◌, if◌then◌else◌, drop,
}
use veracruz.Vfs.Impl.{Bytes}
use veracruz.Policy.Principal.{Identity, FileRights}
use veracruz.Policy.Contract.{Policy}
use veracruz.Session.Tls.{Tls}

pub data SessionManagerError : Type 0 where
  tls_error : SessionManagerError
  tls_unspecified_error : SessionManagerError
  tls_invalid_ciphersuite_error : String → SessionManagerError
  tls_unsupported_cyphersuite_error : ℕ → SessionManagerError
  io_error : SessionManagerError
  mbedtls_unspecified_error : SessionManagerError
  webpki_error : SessionManagerError
  peer_certificate_error : SessionManagerError
  invalid_length_error : String → ℕ → SessionManagerError
  empty_role_error : ℕ → SessionManagerError
  no_certificate_error : SessionManagerError
  invalid_state_error : SessionManagerError

-- `Identity<Certificate>`
pub record CertifiedPrincipal : Type 0 where
  pub certificate : Bytes
  pub id : ℕ
  pub file_rights : List FileRights

module _ ⦃t : Tls⦄ where
  pub record SessionContext : Type 0 where
    pub server_config_builder : Option t.ConfigBuilder
    pub server_config : Option t.ServerConfig
    pub policy : Option Policy
    pub principals : Option (List CertifiedPrincipal)
    pub server_private_key : Bytes
    pub server_public_key : Bytes

  abbrev pub ContextExec : Type 0 → Type 0
  ContextExec A = Exec SessionManagerError SessionContext A

  unfoldable pub convert_cert_buffer : String → Result SessionManagerError Bytes
  convert_cert_buffer cert_string = elim (t.certs cert_string) [
    | none ↦ err tls_unspecified_error
    | some [] ↦ err no_certificate_error
    | some (cert ∷ certs) ↦ ok cert
  ]

  unfoldable pub find_suite : ℕ → List t.SupportedCipherSuite → Option t.SupportedCipherSuite
  find_suite wanted [] = none
  find_suite wanted (s ∷ ss) = if t.suite s == wanted then some s else find_suite wanted ss

  unfoldable pub lookup_ciphersuite : String → Option t.SupportedCipherSuite
  unfolding find_suite
  lookup_ciphersuite suite_string = elim (t.lookup_value suite_string) [
    | none ↦ none
    | some wanted ↦ find_suite wanted t.all_cipher_suites
  ]

  unfoldable pub new : Result SessionManagerError SessionContext
  new = elim t.generate_ec [
    | none ↦ err mbedtls_unspecified_error
    | some (public_der, private_der) ↦ ok (record {
      server_config_builder = none;
      server_config = none;
      policy = none;
      principals = none;
      server_private_key = private_der;
      server_public_key = drop 23 public_der;
    })
  ]

  -- The loop over the identities: the store of the certificates, and the principals.
  unfoldable pub add_identities :
      List Identity → t.RootCertStore → ContextExec (t.RootCertStore × List CertifiedPrincipal)
  add_identities [] root_cert_store = pure (root_cert_store, [])
  add_identities (identity ∷ identities) root_cert_store = do
    cert ← lift (convert_cert_buffer identity.certificate)
    store ← ok_or webpki_error (t.add cert root_cert_store)
    (full, principals) ← add_identities identities store
    pure (
      full,
      record { certificate = cert; id = identity.id; file_rights = identity.file_rights }
          ∷ principals,
    )

  unfoldable pub set_policy : Policy → ContextExec Unit
  set_policy policy = do
    (root_cert_store, principals) ← add_identities policy.identities t.empty_store
    suite ←
        ok_or (tls_invalid_ciphersuite_error policy.ciphersuite)
          (lookup_ciphersuite policy.ciphersuite)
    builder ← ok_or tls_error (t.builder suite root_cert_store)
    modify (λ c. record c {
      server_config_builder = some builder;
      principals = some principals;
      policy = some policy;
    })

  -- The builder is taken out, also where there is an error.
  unfoldable pub set_cert_chain : List Bytes → ContextExec Unit
  set_cert_chain cert_chain = do
    config_builder_option ← gets (λ c. c.server_config_builder)
    modify (λ c. record c { server_config_builder = none })
    config_builder ← ok_or invalid_state_error config_builder_option
    key ← gets (λ c. c.server_private_key)
    config ← ok_or tls_error (t.with_single_cert config_builder cert_chain key)
    modify (λ c. record c { server_config = some config })

  unfoldable pub server_config_of : SessionContext → Result SessionManagerError t.ServerConfig
  server_config_of c = elim c.server_config [
    | none ↦ err invalid_state_error
    | some config ↦ ok config
  ]

  unfoldable pub principals_of :
      SessionContext → Result SessionManagerError (List CertifiedPrincipal)
  principals_of c = elim c.principals [
    | none ↦ err invalid_state_error
    | some principals ↦ ok principals
  ]
