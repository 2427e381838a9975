-- ===== src/Vfs/Soundness/Services.antt =====
-- Writes, which may call a service, keep a handle sound where the services do.
use veracruz.Base.{ℕ, ◌≡◌, true, false, ok, List, nat_eq, as_i64, arith}
use veracruz.Wasi.{Wasi, Whence}
use veracruz.Hoare.{Triple, Always, Triple-pure, Triple-panic, Triple-lift, Triple-bind, Triple-if}
use veracruz.Vfs.Impl
use veracruz.Vfs.Impl.{Bytes, InodeImpl, Service, SharedService, native_module, file, directory}
use veracruz.Vfs.Entry
use veracruz.Vfs.Entry.{InodeEntry}
use veracruz.Vfs.Table
use veracruz.Vfs.Table.{InodeTable, TableExec}
use veracruz.Vfs.Handle.{FileSystem}
use veracruz.Vfs.File
use veracruz.Vfs.File.{Services}
use veracruz.Vfs.Integrity.{SizeFits, table_frame}
use veracruz.Vfs.Integrity.Contents.{Anything, SameKind, pwrite_bufs-IsContentStep}
use veracruz.Vfs.Integrity.Inodes.{IsEntryOf, get-Triple, kept_links}
use veracruz.Vfs.Integrity.Paths as Paths
use veracruz.Vfs.Soundness.{
  FsKeeps, FsGrows, IsSound, fs_frame, forget, lock-Triple, check_right-Triple,
  get_inode_by_fd-Triple,
}
use veracruz.Vfs.Soundness.Files.{
  and_then, pure-Keeps, with_fd, at_inode-Keeps, get-Keeps, fd_seek-Keeps,
}

-- A service may use the handle that it is given, and leaves a sound one.
pub record AreSafe (s : Services) : Type 0 where
  pub keeps :
      (service : Service) (input : Bytes) (f : FileSystem)
      → IsSound f
      → IsSound (s.serve service input f).2 × FsGrows f (s.serve service input f).2

service_handler_is :
    (i : InodeImpl) (shared : SharedService) (input : Bytes)
    → Impl.service_handler i ≡ ok (shared, input)
    → i ≡ native_module shared input
unfolding Impl.service_handler
service_handler_is (native_module s b) shared input h = ground arith
service_handler_is (file b) shared input h = cc
service_handler_is (directory d) shared input h = cc

-- The service of an entry is replaced, with the input as it was.
module _ (i : ℕ) (e : InodeEntry) (shared' : SharedService) where
  abbrev with_service : Bytes → InodeEntry
  with_service input = record e { impl = native_module shared' input }

  service-step :
      (shared : SharedService) (input : Bytes)
      → Impl.service_handler e.impl ≡ ok (shared, input)
      → SizeFits e
      → SizeFits (with_service input) × SameKind e (with_service input)
  unfolding Impl.contents Entry.is_dir
  service-step shared input h fits =
      let is = service_handler_is e.impl shared input h in
      (
        λ b same. ground (arith, is, fits b),
        record { kind = ground (arith, is); same_dir = λ d same. cc },
      )

  replace_service-Keeps :
      (shared : SharedService) (input : Bytes)
      → Impl.service_handler e.impl ≡ ok (shared, input)
      → Triple table_frame (IsEntryOf i e) (Table.insert_entry i (with_service input)) Anything
  unfolding Table.insert_entry
  replace_service-Keeps shared input h = record {
    run = λ t g at.
        let (size, kind) = service-step shared input h (g.sizes i e at) in
        let (good, grows) = kept_links i e (with_service input) t g at size kind in
        (good, grows, tt);
  }

module _ ⦃s : Services⦄ where
  -- `acquire` and `release` differ in the service that they leave, and in what they return.
  pub acquire-Keeps : (i : ℕ) → Paths.Keeps (File.acquire i)
  unfolding File.acquire
  acquire-Keeps i = Triple-bind table_frame (IsEntryOf i) (get-Triple i) (λ e.
      Triple-bind table_frame (λ r t. (Impl.service_handler e.impl ≡ ok r) × IsEntryOf i e t)
        (Triple-lift table_frame (IsEntryOf i e) (Impl.service_handler e.impl))
        (λ r. Triple-if table_frame r.0.locked (Triple-panic table_frame _ Anything) (
          Triple-bind table_frame Anything (held e r)
            (λ u. Paths.forget (Triple-pure table_frame Always (r.0.state, r.1))))))
    where
      held :
          (e : InodeEntry) (r : SharedService × Bytes)
          → Triple table_frame
              (λ t. (Impl.service_handler e.impl ≡ ok r) × IsEntryOf i e t)
              (Table.insert_entry i (with_service i e (record r.0 { locked = true }) r.1))
              Anything
      held e r = record {
        run = λ t g p.
            (replace_service-Keeps i e (record r.0 { locked = true }) r.0 r.1 p.0).run t g p.1;
      }

  pub release-Keeps : (i : ℕ) (state : Service) → Paths.Keeps (File.release i state)
  unfolding File.release
  release-Keeps i state = Triple-bind table_frame (IsEntryOf i) (get-Triple i) (λ e.
      Triple-bind table_frame (λ r t. (Impl.service_handler e.impl ≡ ok r) × IsEntryOf i e t)
        (Triple-lift table_frame (IsEntryOf i e) (Impl.service_handler e.impl))
        (λ r. record {
          run = λ t g p.
              (replace_service-Keeps i e (record r.0 { state = state; locked = false }) r.0 r.1
                  p.0).run
                t g p.1;
        }))

  service_valid_input-Keeps : (i : ℕ) → Paths.Keeps (File.service_valid_input i)
  unfolding File.service_valid_input
  service_valid_input-Keeps i = Triple-bind table_frame Anything (acquire-Keeps i) (λ a.
      Triple-bind table_frame Anything (Paths.forget (release-Keeps i (s.try_parse a.0 a.1).1))
        (λ u. Paths.forget (Triple-lift table_frame Always (s.try_parse a.0 a.1).0)))

  module _ (safe : AreSafe s) where
    serve_on_copy-Keeps :
        (service : Service) (input : Bytes) → FsKeeps (File.serve_on_copy service input)
    unfolding File.serve_on_copy
    serve_on_copy-Keeps service input = record {
      run = λ f g p.
          let (good, grows) = safe.keeps service input f g in
          (
            record {
              table = good.table;
              descriptors = λ fd e at. grows.present e.inode (g.descriptors fd e at);
            },
            grows,
            tt,
          );
    }

    run_service-Keeps : (i : ℕ) → FsKeeps (File.run_service i)
    unfolding File.run_service
    run_service-Keeps i = and_then (lock-Triple (File.acquire i) (acquire-Keeps i)) (λ a.
        and_then (serve_on_copy-Keeps a.0 a.1) (λ r.
          and_then (lock-Triple (File.release i r.1) (release-Keeps i r.1))
            (λ u. forget (Triple-lift fs_frame Always r.0))))

module _ ⦃w : Wasi⦄ ⦃s : Services⦄ (safe : AreSafe s) where
  call_service-Keeps : (i : ℕ) → FsKeeps (File.call_service i)
  unfolding File.call_service
  call_service-Keeps i =
      and_then (lock-Triple (File.service_valid_input i) (service_valid_input-Keeps i))
        (λ valid. Triple-if fs_frame valid (run_service-Keeps safe i) (pure-Keeps tt))

  pub fd_pwrite-Keeps :
      (fd : ℕ) (bufs : List Bytes) (offset : ℕ) → FsKeeps (File.fd_pwrite fd bufs offset)
  unfolding File.fd_pwrite
  fd_pwrite-Keeps fd bufs offset = and_then (check_right-Triple fd w.fd_write) (λ u.
      and_then (forget (get_inode_by_fd-Triple fd)) (λ i.
        and_then
          (at_inode-Keeps i (File.pwrite_bufs bufs offset 0)
            (pwrite_bufs-IsContentStep bufs offset 0))
          (λ len. and_then (get-Keeps i) (λ e.
            and_then
              (Triple-if fs_frame (Entry.is_service e) (call_service-Keeps i) (pure-Keeps tt))
              (λ v. pure-Keeps len)))))

  pub fd_write-Keeps : (fd : ℕ) (bufs : List Bytes) → FsKeeps (File.fd_write fd bufs)
  unfolding File.fd_write
  fd_write-Keeps fd bufs = and_then (check_right-Triple fd w.fd_write) (λ u. with_fd fd (λ e.
      forget (
        and_then (fd_pwrite-Keeps fd bufs e.offset)
          (λ rst. and_then (fd_seek-Keeps fd (as_i64 rst) Whence.current) (λ o. pure-Keeps rst)))))
