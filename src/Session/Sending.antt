-- ===== src/Session/Sending.antt =====
-- session-manager/src/session.rs: the loop of `send_tls_data`.
use veracruz.Base.{
  ◌>>=◌, none, some, ℕ, zero, suc, ◌≡◌, ◌≢◌, refl, ◌≤◌, abort, Option, [], ◌∷◌, length, arith, Bool,
  true, false,
}
use veracruz.Vfs.Impl.{Bytes}
use veracruz.Session.Tls.{Tls}
use veracruz.Session.Connection.{Session, send_tls_data, send_from, process_packets, on_connection}

-- A read takes at least one byte of an input that is not empty, or fails.
pub record IsProgressing (t : Tls) : Type 0 where
  pub taken :
      (c c' : t.ServerConnection) (b : ℕ) (input left : Bytes)
      → t.read_tls c (b ∷ input) ≡ (some left, c')
      → length left ≤ length input

module _ ⦃t : Tls⦄ (progressing : IsProgressing t) where
  abbrev EndsIn : ℕ → Type 0
  EndsIn fuel =
      (input : Bytes) (s : Session) → length input ≤ fuel → (send_from fuel input s).0 ≢ abort

  send_from-EndsIn : (fuel : ℕ) → EndsIn fuel
  unfolding send_from process_packets on_connection ◌>>=◌
  send_from-EndsIn fuel [] s enough = λ e. grind arith
  send_from-EndsIn zero (b ∷ input) s enough = absurd (omega arith)
  send_from-EndsIn (suc fuel) (b ∷ input) s enough =
      taken (send_from-EndsIn fuel) (t.read_tls s.tls_connection (b ∷ input)) refl
    where
      processed :
          EndsIn fuel
          → (left : Bytes) (c : t.ServerConnection) (x : Bool × t.ServerConnection)
          → length left ≤ fuel
          → t.read_tls s.tls_connection (b ∷ input) ≡ (some left, c)
          → t.process_new_packets c ≡ x
          → (send_from (suc fuel) (b ∷ input) s).0 ≢ abort
      processed later left c (false, c') short e f = rw (e, f) (λ g. grind arith)
      processed later left c (true, c') short e f =
          rw (e, f) (later left (record s { tls_connection = c' }) short)

      taken :
          EndsIn fuel
          → (x : Option Bytes × t.ServerConnection) → t.read_tls s.tls_connection (b ∷ input) ≡ x
          → (send_from (suc fuel) (b ∷ input) s).0 ≢ abort
      taken later (none, c) e = rw e (λ g. grind arith)
      taken later (some left, c) e =
          let short = progressing.taken s.tls_connection c b input left e in
          processed later left c (t.process_new_packets c) (omega arith) e refl

-- The loop that feeds bytes to a connection ends for every input, in at most as many rounds as there
-- are bytes, where each read that succeeds takes at least one byte.
pub send_tls_data-ends :
    ⦃t : Tls⦄ → IsProgressing t → (input : Bytes) (s : Session) → (send_tls_data input s).0 ≢ abort
unfolding send_tls_data
send_tls_data-ends progressing input s =
    send_from-EndsIn progressing (length input) input s (omega arith)
