-- ===== src/Session/Configuration.antt =====
-- session-manager/src/session_context.rs: what a policy and a chain of certificates do to a context.
use veracruz.Base.{
  ◌>>=◌, none, some, ◌≡◌, refl, sym, ◌∙◌, ap, ok, err, abort, Option, Result, [], ◌∷◌, List, arith,
  subst,
}
use veracruz.Vfs.Impl.{Bytes}
use veracruz.Policy.Principal.{Identity}
use veracruz.Policy.Contract.{Policy}
use veracruz.Session.Tls.{Tls}
use veracruz.Session.Context.{
  SessionContext, CertifiedPrincipal, SessionManagerError, invalid_state_error, set_policy,
  set_cert_chain, add_identities, lookup_ciphersuite, convert_cert_buffer,
}

module _ ⦃t : Tls⦄ where
  -- One principal for each identity, with its first certificate, its number and its rights.
  unfoldable pub AreCertified : List Identity → List CertifiedPrincipal → Type 0
  AreCertified [] [] = Unit
  AreCertified (i ∷ is) (p ∷ ps) =
      (convert_cert_buffer i.certificate ≡ ok p.certificate)
      × ((p.id ≡ i.id) × ((p.file_rights ≡ i.file_rights) × AreCertified is ps))
  AreCertified _ _ = ⊥

  -- What one call of the loop leaves to the next ones.
  abbrev AddsAll : List Identity → SessionContext → Type 0
  AddsAll is c =
      (store full : t.RootCertStore) (ps : List CertifiedPrincipal) (c' : SessionContext)
      → add_identities is store c ≡ (ok (full, ps), c')
      → AreCertified is ps × (c' ≡ c)

  add_identities-AreCertified : (is : List Identity) (c : SessionContext) → AddsAll is c
  unfolding add_identities AreCertified ◌>>=◌
  add_identities-AreCertified [] c store full [] c' h = (tt, cc)
  add_identities-AreCertified [] c store full (p ∷ ps) c' h = absurd (grind arith)
  add_identities-AreCertified (i ∷ is) c store full ps c' h =
      converted (add_identities-AreCertified is c) (convert_cert_buffer i.certificate) refl
    where
      rest :
          AddsAll is c
          → (cert : Bytes) (store' : t.RootCertStore)
            (y : Result SessionManagerError (t.RootCertStore × List CertifiedPrincipal)
              × SessionContext)
          → convert_cert_buffer i.certificate ≡ ok cert
          → t.add cert store ≡ some store'
          → add_identities is store' c ≡ y
          → AreCertified (i ∷ is) ps × (c' ≡ c)
      rest earlier cert store' (err e, c'') e1 e2 e3 = absurd (grind arith)
      rest earlier cert store' (abort, c'') e1 e2 e3 = absurd (grind arith)
      rest earlier cert store' (ok (full', ps'), c'') e1 e2 e3 =
          let (later, kept) = earlier store' full' ps' c'' e3 in
          let p : CertifiedPrincipal = record {
            certificate = cert;
            id = i.id;
            file_rights = i.file_rights;
          } in
          let run : add_identities (i ∷ is) store c ≡ (ok (full', p ∷ ps'), c'') =
            rw (e1, e2, e3) refl in
          let all : p ∷ ps' ≡ ps = cc in
          let same : c' ≡ c'' = cc in
          (subst (AreCertified (i ∷ is)) all (e1, (refl, (refl, later))), same ∙ kept)

      added :
          AddsAll is c
          → (cert : Bytes) (o : Option t.RootCertStore)
          → convert_cert_buffer i.certificate ≡ ok cert
          → t.add cert store ≡ o
          → AreCertified (i ∷ is) ps × (c' ≡ c)
      added earlier cert none e1 e2 = absurd (grind arith)
      added earlier cert (some store') e1 e2 =
          rest earlier cert store' (add_identities is store' c) e1 e2 refl

      converted :
          AddsAll is c
          → (r : Result SessionManagerError Bytes) → convert_cert_buffer i.certificate ≡ r
          → AreCertified (i ∷ is) ps × (c' ≡ c)
      converted earlier (err e) e1 = absurd (grind arith)
      converted earlier abort e1 = absurd (grind arith)
      converted earlier (ok cert) e1 = added earlier cert (t.add cert store) e1 refl

module _ ⦃t : Tls⦄ where
  -- What a context has of a policy.
  abbrev pub Follows : Policy → SessionContext → Type 0
  Follows policy c =
      (ps : List CertifiedPrincipal) × ((c.principals ≡ some ps)
        × ((c.policy ≡ some policy) × AreCertified policy.identities ps))

-- A policy that is accepted leaves one principal for each identity of the policy, in their order,
-- with the first certificate of its text, its number and its rights.
pub set_policy-Follows :
    ⦃t : Tls⦄ (policy : Policy) (c c' : SessionContext)
    → set_policy policy c ≡ (ok tt, c')
    → Follows policy c'
unfolding set_policy ◌>>=◌
set_policy-Follows ⦃t = t⦄ policy c c' h =
    added (add_identities policy.identities t.empty_store c) refl
  where
    build :
        (full : t.RootCertStore) (ps : List CertifiedPrincipal) (c'' : SessionContext)
        (suite : t.SupportedCipherSuite) (o : Option t.ConfigBuilder)
        → add_identities policy.identities t.empty_store c ≡ (ok (full, ps), c'')
        → lookup_ciphersuite policy.ciphersuite ≡ some suite
        → t.builder suite full ≡ o
        → Follows policy c'
    build full ps c'' suite none e1 e2 e3 = absurd (grind arith)
    build full ps c'' suite (some builder) e1 e2 e3 =
        let (certified, kept) =
          add_identities-AreCertified policy.identities c t.empty_store full ps c'' e1 in
        let run : set_policy policy c ≡ (
          ok tt,
          record c'' {
            server_config_builder = some builder;
            principals = some ps;
            policy = some policy;
          },
        ) =
          rw (e1, e2, e3) refl in
        (
          ps,
          (ap (λ y. y.1.principals) (sym h ∙ run), (ap (λ y. y.1.policy) (sym h ∙ run), certified)),
        )

    chosen :
        (full : t.RootCertStore) (ps : List CertifiedPrincipal) (c'' : SessionContext)
        (o : Option t.SupportedCipherSuite)
        → add_identities policy.identities t.empty_store c ≡ (ok (full, ps), c'')
        → lookup_ciphersuite policy.ciphersuite ≡ o
        → Follows policy c'
    chosen full ps c'' none e1 e2 = absurd (grind arith)
    chosen full ps c'' (some suite) e1 e2 =
        build full ps c'' suite (t.builder suite full) e1 e2 refl

    added :
        (y : Result SessionManagerError (t.RootCertStore × List CertifiedPrincipal)
          × SessionContext)
        → add_identities policy.identities t.empty_store c ≡ y
        → Follows policy c'
    added (err e, c'') e1 = absurd (grind arith)
    added (abort, c'') e1 = absurd (grind arith)
    added (ok (full, ps), c'') e1 =
        chosen full ps c'' (lookup_ciphersuite policy.ciphersuite) e1 refl

-- The builder of the configuration serves once: whatever came of `set_cert_chain`, a second call is
-- refused until there is a policy again, and changes nothing.
pub set_cert_chain_twice :
    ⦃t : Tls⦄ (chain again : List Bytes) (c : SessionContext)
    → set_cert_chain again (set_cert_chain chain c).1
      ≡ (err invalid_state_error, (set_cert_chain chain c).1)
unfolding set_cert_chain ◌>>=◌
set_cert_chain_twice chain again c = grind arith
