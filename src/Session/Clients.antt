-- ===== src/Session/Clients.antt =====
-- session-manager/: which client a session takes its peer for, and the order of the configuration.
use veracruz.Base.{
  ◌>>=◌, none, some, ℕ, ◌≡◌, ◌≢◌, ◌⊎◌, inl, inr, refl, ok, Bool, true, false, Option, [], ◌∷◌, List,
  arith, Bool-cases, ◌∙◌, sym, subst,
}
use veracruz.Vfs.Impl.{Bytes}
use veracruz.Session.Tls.{Tls}
use veracruz.Session.Context.{CertifiedPrincipal}
use veracruz.Session.Connection.{
  Session, same_bytes, find_client, identify, with_client, read_plaintext_data, process_packets,
  on_connection,
}

-- A principal of the list that has the certificate and the id.
unfoldable pub HasClient : Bytes → ℕ → List CertifiedPrincipal → Type 0
HasClient cert id [] = ⊥
HasClient cert id (p ∷ ps) = ((p.certificate ≡ cert) × (p.id ≡ id)) ⊎ HasClient cert id ps

-- No principal of the list has the certificate.
unfoldable pub IsUnknown : Bytes → List CertifiedPrincipal → Type 0
IsUnknown cert [] = Unit
IsUnknown cert (p ∷ ps) = (p.certificate ≢ cert) × IsUnknown cert ps

same_bytes_eq : (as' bs : Bytes) → same_bytes as' bs ≡ true → as' ≡ bs
unfolding same_bytes
same_bytes_eq [] [] h = refl
same_bytes_eq [] (b ∷ bs) h = absurd (grind arith)
same_bytes_eq (a ∷ as') [] h = absurd (grind arith)
same_bytes_eq (a ∷ as') (b ∷ bs) h = ground (arith, same_bytes_eq as' bs)

same_bytes_refl : (bs : Bytes) → same_bytes bs bs ≡ true
unfolding same_bytes
same_bytes_refl [] = refl
same_bytes_refl (b ∷ bs) = ground (arith, same_bytes_refl bs)

matched :
    (cert : Bytes) (p : CertifiedPrincipal) (ps : List CertifiedPrincipal) (id : ℕ)
    → p.certificate ≡ cert
    → HasClient cert id ps ⊎ (IsUnknown cert ps × (id ≡ p.id))
    → HasClient cert id (p ∷ ps)
unfolding HasClient
matched cert p ps id same (inl later) = inr later
matched cert p ps id same (inr (unknown, kept)) = inl (same, sym kept)

unmatched :
    (cert : Bytes) (p : CertifiedPrincipal) (ps : List CertifiedPrincipal) (id start : ℕ)
    → p.certificate ≢ cert
    → HasClient cert id ps ⊎ (IsUnknown cert ps × (id ≡ start))
    → HasClient cert id (p ∷ ps) ⊎ (IsUnknown cert (p ∷ ps) × (id ≡ start))
unfolding HasClient IsUnknown
unmatched cert p ps id start differs (inl later) = inl (inr later)
unmatched cert p ps id start differs (inr (unknown, kept)) = inr ((differs, unknown), kept)

find_client-cases :
    (cert : Bytes) (ps : List CertifiedPrincipal) (start : ℕ)
    → HasClient cert (find_client cert ps start) ps
      ⊎ (IsUnknown cert ps × (find_client cert ps start ≡ start))
unfolding find_client IsUnknown
find_client-cases cert [] start = inr (tt, refl)
find_client-cases cert (p ∷ ps) start = elim (Bool-cases (same_bytes p.certificate cert)) [
  | inl same ↦ rw same (
      inl (
        matched cert p ps _ (same_bytes_eq p.certificate cert same)
          (find_client-cases cert ps p.id)))
  | inr differs ↦ rw differs (
      unmatched cert p ps _ start (λ e. grind (arith, same_bytes_refl cert))
        (find_client-cases cert ps start))
]

module _ ⦃t : Tls⦄ where
  -- What is known where a session takes bytes to be from the client `id`.
  abbrev pub IsFrom : ℕ → Session → Session → Type 0
  IsFrom id s s' =
      (cert : Bytes) × ((t.peer_certificates s'.tls_connection ≡ some (cert ∷ []))
        × (HasClient cert id s.principals ⊎ (IsUnknown cert s.principals × (id ≡ 0))))

  one_certificate :
      (cert received : Bytes) (b : ℕ) (s : Session)
      → t.peer_certificates s.tls_connection ≡ some (cert ∷ [])
      → with_client (b ∷ received) s
        ≡ (ok (some (find_client cert s.principals 0, b ∷ received)), s)
  unfolding with_client identify ◌>>=◌
  one_certificate cert received b s e = rw e refl

  with_client-IsFrom :
      (id : ℕ) (received bytes : Bytes) (s s' : Session)
      → with_client received s ≡ (ok (some (id, bytes)), s')
      → IsFrom id s s'
  unfolding with_client identify ◌>>=◌
  with_client-IsFrom id [] bytes s s' h = absurd (grind arith)
  with_client-IsFrom id (b ∷ received) bytes s s' h =
      presented (t.peer_certificates s.tls_connection) refl
    where
      presented :
          (o : Option (List Bytes)) → t.peer_certificates s.tls_connection ≡ o → IsFrom id s s'
      presented none e = absurd (grind arith)
      presented (some []) e = absurd (grind arith)
      presented (some (cert ∷ [])) e =
          let run = one_certificate cert received b s e in
          let client : find_client cert s.principals 0 ≡ id = cc in
          let same : s ≡ s' = cc in
          (
            cert,
            (
              subst (λ r. t.peer_certificates r.tls_connection ≡ some (cert ∷ [])) same e,
              subst (λ n. HasClient cert n s.principals ⊎ (IsUnknown cert s.principals × (n ≡ 0)))
                  client (find_client-cases cert s.principals 0),
            ),
          )
      presented (some (cert ∷ d ∷ ds)) e = absurd (grind arith)

-- Bytes that a session gives out as those of a client come from a peer with exactly one certificate,
-- and the client is one that the session lists with that certificate. Where it lists no client with
-- that certificate, the bytes are taken to be from client 0.
pub read_plaintext_data-IsFrom :
    ⦃t : Tls⦄ (id : ℕ) (bytes : Bytes) (s s' : Session)
    → read_plaintext_data s ≡ (ok (some (id, bytes)), s')
    → IsFrom id s s'
unfolding read_plaintext_data process_packets on_connection ◌>>=◌
read_plaintext_data-IsFrom ⦃t = t⦄ id bytes s s' h = read (t.read_to_end s.tls_connection) refl
  where
    processed :
        (received : Bytes) (c : t.ServerConnection) (x : Bool × t.ServerConnection)
        → t.process_new_packets c ≡ x
        → t.read_to_end s.tls_connection ≡ (true, (received, c))
        → IsFrom id s s'
    processed received c (false, c') e f = absurd (grind arith)
    processed received c (true, c') e f =
        let s'' = record s { tls_connection = c' } in
        let run : read_plaintext_data s ≡ with_client received s'' = rw (f, e) refl in
        with_client-IsFrom id received bytes s'' s' (sym run ∙ h)

    read :
        (x : Bool × (Bytes × t.ServerConnection))
        → t.read_to_end s.tls_connection ≡ x
        → IsFrom id s s'
    read (false, (received, c)) e = absurd (grind arith)
    read (true, (received, c)) e = processed received c (t.process_new_packets c) refl e
