-- ===== src/Session/Connection.antt =====
-- session-manager/src/session.rs, and `create_session` of session_context.rs.
use veracruz.Base.{
  ◌>>=◌, ◌>>◌, none, some, ℕ, zero, suc, ok, err, abort, Bool, true, false, not, Option, Result,
  Exec, pure, fail, fail_if, panic, gets, ok_or, [], ◌∷◌, List, ◌==◌, if◌then◌else◌, length,
}
use veracruz.Vfs.Impl.{Bytes}
use veracruz.Session.Tls.{Tls}
use veracruz.Session.Context.{
  SessionContext, CertifiedPrincipal, SessionManagerError, tls_error, io_error,
  peer_certificate_error, invalid_length_error, server_config_of, principals_of,
}

-- `Certificate` is compared by its bytes.
unfoldable pub same_bytes : Bytes → Bytes → Bool
same_bytes [] [] = true
same_bytes (a ∷ as') (b ∷ bs) = if a == b then same_bytes as' bs else false
same_bytes _ _ = false

-- The loop over the principals: the last one with the certificate counts.
unfoldable pub find_client : Bytes → List CertifiedPrincipal → ℕ → ℕ
find_client cert [] client_id = client_id
find_client cert (p ∷ ps) client_id =
    find_client cert ps (if same_bytes p.certificate cert then p.id else client_id)

module _ ⦃t : Tls⦄ where
  pub record Session : Type 0 where
    pub tls_connection : t.ServerConnection
    pub principals : List CertifiedPrincipal

  abbrev pub SessionExec : Type 0 → Type 0
  SessionExec A = Exec SessionManagerError Session A

  -- A call of the connection that gives a value or an error, and one that may fail.
  unfoldable pub on_connection :
      {A : Type 0} → (t.ServerConnection → A × t.ServerConnection) → SessionExec A
  on_connection call s =
      let (a, c) = call s.tls_connection in (ok a, record s { tls_connection = c })

  unfoldable pub process_packets : SessionExec Unit
  process_packets = do
    processed ← on_connection t.process_new_packets
    fail_if (not processed) tls_error

  unfoldable pub create_session : SessionContext → Result SessionManagerError Session
  create_session context = elim (server_config_of context) [
    | err e ↦ err e
    | abort ↦ abort
    | ok config ↦ elim (principals_of context) [
      | err e ↦ err e
      | abort ↦ abort
      | ok principals ↦ elim (t.new_connection config) [
        | none ↦ err tls_error
        | some connection ↦ ok (record { tls_connection = connection; principals = principals })
      ]
    ]
  ]

  -- The loop over the input that is left, on fuel. Without progress it does not end.
  unfoldable pub send_from : ℕ → Bytes → SessionExec Unit
  send_from fuel [] = pure tt
  send_from zero (b ∷ input) = panic
  send_from (suc fuel) (b ∷ input) = do
    left ← on_connection (λ c. t.read_tls c (b ∷ input))
    slice ← ok_or io_error left
    process_packets
    send_from fuel slice

  unfoldable pub send_tls_data : Bytes → SessionExec Unit
  unfolding send_from
  send_tls_data input = send_from (length input) input

  unfoldable pub return_data : Bytes → SessionExec Unit
  return_data input = do written ← on_connection (t.write_all input); fail_if (not written) io_error

  unfoldable pub read_tls_data : SessionExec (Option Bytes)
  read_tls_data s =
      if t.wants_write s.tls_connection
      then (do
        written ← on_connection t.write_tls
        output ← ok_or io_error written
        pure (some output))
          s
      else (ok none, s)

  -- There must be exactly one certificate.
  unfoldable pub identify : List Bytes → SessionExec ℕ
  identify (cert ∷ []) = gets (λ s. find_client cert s.principals 0)
  identify _ = fail (invalid_length_error "peer_certs" 1)

  unfoldable pub with_client : Bytes → SessionExec (Option (ℕ × Bytes))
  with_client [] = pure none
  with_client (b ∷ received) = do
    presented ← gets (λ s. t.peer_certificates s.tls_connection)
    peer_certs ← ok_or peer_certificate_error presented
    client_id ← identify peer_certs
    pure (some (client_id, b ∷ received))

  unfoldable pub read_plaintext_data : SessionExec (Option (ℕ × Bytes))
  read_plaintext_data = do
    (readable, received_buffer) ←
        on_connection (λ c. let (r, (bytes, c')) = t.read_to_end c in ((r, bytes), c'))
    fail_if (not readable) io_error
    process_packets
    with_client received_buffer

  unfoldable pub read_tls_needed : Session → Bool
  read_tls_needed s = t.wants_write s.tls_connection

  unfoldable pub is_authenticated : Session → Bool
  is_authenticated s = not (t.is_handshaking s.tls_connection)
