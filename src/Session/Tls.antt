-- ===== src/Session/Tls.antt =====
-- What session-manager takes from rustls, rustls_pemfile, webpki and mbedtls, as the parameter `Tls`.
use veracruz.Base.{ℕ, Bool, Option, String, List}
use veracruz.Vfs.Impl.{Bytes}

pub record Tls : Type 1 where
  pub SupportedCipherSuite : Type 0
  pub RootCertStore : Type 0
  -- a builder that has everything but the certificate of the server
  pub ConfigBuilder : Type 0
  pub ServerConfig : Type 0
  pub ServerConnection : Type 0
  -- `rustls_pemfile::certs`
  pub certs : String → Option (List Bytes)
  -- `CipherSuite::lookup_value`, `ALL_CIPHER_SUITES` and `suite()`
  pub lookup_value : String → Option ℕ
  pub all_cipher_suites : List SupportedCipherSuite
  pub suite : SupportedCipherSuite → ℕ
  pub empty_store : RootCertStore
  pub add : Bytes → RootCertStore → Option RootCertStore
  -- the calls from `builder()` to `with_client_cert_verifier`
  pub builder : SupportedCipherSuite → RootCertStore → Option ConfigBuilder
  pub with_single_cert : ConfigBuilder → List Bytes → Bytes → Option ServerConfig
  pub new_connection : ServerConfig → Option ServerConnection
  -- takes some bytes from the front of the input and leaves the others
  pub read_tls : ServerConnection → Bytes → Option Bytes × ServerConnection
  pub process_new_packets : ServerConnection → Bool × ServerConnection
  -- false is an error other than `WouldBlock`
  pub read_to_end : ServerConnection → Bool × (Bytes × ServerConnection)
  pub peer_certificates : ServerConnection → Option (List Bytes)
  pub wants_write : ServerConnection → Bool
  pub write_tls : ServerConnection → Option Bytes × ServerConnection
  pub write_all : Bytes → ServerConnection → Bool × ServerConnection
  pub is_handshaking : ServerConnection → Bool
  -- `Pk::generate_ec` with `getrandom`: the public and the private key in DER
  pub generate_ec : Option (Bytes × Bytes)
  -- `csr::generate_csr`
  pub generate_csr : Bytes → Option Bytes
