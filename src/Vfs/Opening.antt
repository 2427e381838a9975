-- ===== src/Vfs/Opening.antt =====
-- The rights of a descriptor that `path_open` makes.
use veracruz.Base.{
  not, gets, fail_if, ◌>>◌, true, false, ℕ, ◌≡◌, refl, Bool, ◌&&◌, some, lookup, lookup-insert_self,
  nat_eq, ok, err, ◌>>=◌, pure, subst, sym, arith, FilePath, Result, abort,
}
use veracruz.Wasi.{not_dir, Wasi, ErrNo}
use veracruz.Hoare.{outcome, Frame, Triple, OnOk, OnOk_trivial, Triple-bind, Always}
use veracruz.Vfs.Table
use veracruz.Vfs.Handle
use veracruz.Vfs.Handle.{FileSystem, FsExec, FdEntry, lock_inode_table}
use veracruz.Vfs.Directory
use veracruz.Vfs.Integrity.Contents.{Anything}

-- Nothing is kept but what the conditions say.
abbrev free_frame : Frame FileSystem
free_frame = record {
  Good = Always;
  Rel = λ f g. Unit;
  reflexive = λ f. tt;
  transitive = λ f g h p q. tt;
}

module _ {A : Type 0} where
  any_step : (pre : FileSystem → Type 0) (m : FsExec A) → Triple free_frame pre m Anything
  any_step pre m = record { run = λ f g p. (tt, tt, OnOk_trivial (m f).0) }

  -- An action that only reads keeps what is known.
  read_step :
      (K : FileSystem → Type 0) (m : FsExec A)
      → ((f : FileSystem) → (m f).1 ≡ f)
      → Triple free_frame K m (λ a. K)
  read_step K m same = record { run = λ f g k. (tt, tt, kept (m f).0 (subst K (sym (same f)) k)) }
    where
      kept : {P : Type 0} (r : Result ErrNo A) → P → OnOk r (λ a. P)
      kept (ok a) p = p
      kept (err e) p = tt
      kept abort p = tt

-- The descriptor is open, with the rights that are asked for where the parent may give them.
pub record IsAttenuated ⦃w : Wasi⦄ (parent : FdEntry) (base inheriting : ℕ) (fd : ℕ)
    (f : FileSystem) : Type 0 where
  pub entry : FdEntry
  pub is_open : lookup fd f.fd_table ≡ some entry
  pub starts : entry.offset ≡ 0
  pub base_rights :
      (r : ℕ)
      → w.contains entry.fd_stat.rights_base r
        ≡ (w.contains base r && w.contains parent.fd_stat.rights_inheriting r)
  pub inheriting_rights :
      (r : ℕ)
      → w.contains entry.fd_stat.rights_inheriting r
        ≡ (w.contains inheriting r && w.contains parent.fd_stat.rights_inheriting r)

module _ ⦃w : Wasi⦄ (parent : FdEntry) (base inheriting : ℕ) where
  abbrev given : ℕ → ℕ
  given rights = w.intersect rights parent.fd_stat.rights_inheriting

  put_opened-Triple :
      (fd : ℕ) (opened : FdEntry)
      → opened.offset ≡ 0
      → opened.fd_stat.rights_base ≡ given base
      → opened.fd_stat.rights_inheriting ≡ given inheriting
      → Triple free_frame Always
          (do Handle.put_fd fd opened; pure fd)
          (IsAttenuated parent base inheriting)
  unfolding Handle.put_fd ◌>>=◌
  put_opened-Triple fd opened zeroed first second = record {
    run = λ f g p. (
      tt,
      tt,
      record {
        entry = opened;
        is_open = lookup-insert_self fd opened f.fd_table;
        starts = zeroed;
        base_rights = λ r. rw first (w.contains-intersect base parent.fd_stat.rights_inheriting r);
        inheriting_rights =
            λ r. rw second (w.contains-intersect inheriting parent.fd_stat.rights_inheriting r);
      },
    );
  }

  open_inode-Triple :
      (inode flags : ℕ)
      → Triple free_frame Always
          (Directory.open_inode inode (given base) (given inheriting) flags)
          (IsAttenuated parent base inheriting)
  unfolding Directory.open_inode
  open_inode-Triple inode flags =
      Triple-bind free_frame Anything (any_step Always Handle.new_fd) (λ fd.
        Triple-bind free_frame Anything
          (any_step (Anything fd) (lock_inode_table (Table.get inode)))
          (λ entry. put_opened-Triple fd _ refl refl refl))

-- The parent's descriptor.
abbrev IsParent : FdEntry → ℕ → FileSystem → Type 0
IsParent parent fd f = lookup fd f.fd_table ≡ some parent

check_right_reads :
    ⦃w : Wasi⦄ (fd right : ℕ) (f : FileSystem) → (Handle.check_right fd right f).1 ≡ f
unfolding Handle.check_right Handle.get_fd ◌>>=◌
check_right_reads fd right f = ground arith

get_inode_by_fd_reads : (fd : ℕ) (f : FileSystem) → (Handle.get_inode_by_fd fd f).1 ≡ f
unfolding Handle.get_inode_by_fd Handle.get_fd ◌>>=◌
get_inode_by_fd_reads fd f = ground arith

fail_if_reads : (b : Bool) (e : ErrNo) (f : FileSystem) → (fail_if b e f).1 ≡ f
unfolding fail_if
fail_if_reads true e f = refl
fail_if_reads false e f = refl

gets_reads : {A : Type 0} (h : FileSystem → A) (f : FileSystem) → (gets {E = ErrNo} h f).1 ≡ f
unfolding gets
gets_reads h f = refl

get_fd_is :
    (parent : FdEntry) (fd : ℕ) (f : FileSystem)
    → IsParent parent fd f
    → Handle.get_fd fd f ≡ (ok parent, f)
unfolding Handle.get_fd
get_fd_is parent fd f h = ground arith

abbrev IsSame : FdEntry → FdEntry → FileSystem → Type 0
IsSame parent e f = e ≡ parent

get_fd-Triple :
    (parent : FdEntry) (fd : ℕ)
    → Triple free_frame (IsParent parent fd) (Handle.get_fd fd) (IsSame parent)
get_fd-Triple parent fd = record {
  run = λ f g p. outcome free_frame f (IsSame parent) (get_fd_is parent fd f p) (tt, tt, refl);
}

module _ {A : Type 0} (a b : FdEntry) (post : FdEntry → A → FileSystem → Type 0) where
  for-IsSame :
      {m : FsExec A}
      → Triple free_frame Always m (post a)
      → Triple free_frame (IsSame b a) m (post b)
  for-IsSame {m} h = record {
    run =
        λ f g p. subst (λ e. Unit × Unit × OnOk (m f).0 (λ x. post e x (m f).1)) p (h.run f tt tt);
  }

-- As a triple: the parent descriptor is open before, and the new one afterwards.
pub path_open-Triple :
    ⦃w : Wasi⦄ (parent : FdEntry) (fd : ℕ) (path : FilePath) (oflags base inheriting flags : ℕ)
    → Triple free_frame
        (IsParent parent fd)
        (Directory.path_open fd path oflags base inheriting flags)
        (IsAttenuated parent base inheriting)
unfolding Directory.path_open
path_open-Triple ⦃w⦄ parent fd path oflags base inheriting flags =
    Triple-bind free_frame (λ u. IsParent parent fd)
      (read_step (IsParent parent fd) _ (check_right_reads fd w.path_open))
      (λ u.
        Triple-bind free_frame (λ i. IsParent parent fd)
          (read_step (IsParent parent fd) _ (get_inode_by_fd_reads fd))
          (λ i.
            Triple-bind free_frame (λ b. IsParent parent fd)
              (read_step (IsParent parent fd) _ (gets_reads _))
              (λ b.
                Triple-bind free_frame (λ u. IsParent parent fd)
                  (read_step (IsParent parent fd) _ (fail_if_reads (not b) not_dir))
                  (λ u. Triple-bind free_frame (IsSame parent) (get_fd-Triple parent fd) (λ e.
                    for-IsSame e parent (λ q. IsAttenuated q base inheriting)
                      (Triple-bind free_frame Anything (any_step Always _) (λ found.
                        Triple-bind free_frame Anything (any_step (Anything found) _) (λ inode.
                          Triple-bind free_frame Anything (any_step (Anything inode) _)
                            (λ u. open_inode-Triple e base inheriting inode flags)))))))))

-- Where `path_open` through an open descriptor succeeds, it gives an open descriptor at offset 0,
-- whose rights are exactly those that are asked for and that the parent descriptor lets its
-- children have; so are the rights that it lets its own children have in turn.
pub path_open-IsAttenuated :
    ⦃w : Wasi⦄ (parent : FdEntry) (fd : ℕ) (path : FilePath) (oflags base inheriting flags : ℕ)
    (f g : FileSystem) (new_fd : ℕ)
    → lookup fd f.fd_table ≡ some parent
    → Directory.path_open fd path oflags base inheriting flags f ≡ (ok new_fd, g)
    → IsAttenuated parent base inheriting new_fd g
path_open-IsAttenuated parent fd path oflags base inheriting flags f g new_fd known done =
    let (_, _, post) =
      (path_open-Triple parent fd path oflags base inheriting flags).run f tt known in
    subst (λ x. OnOk x.0 (λ a. IsAttenuated parent base inheriting a x.1)) done post
