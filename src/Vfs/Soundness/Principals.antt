-- ===== src/Vfs/Soundness/Principals.antt =====
-- The interface of the runtime manager keeps the handles sound that it works on and that it makes.
use veracruz.Base.{
  ℕ, [], ◌∷◌, Map, FilePath, subst, sym, pos, ◌>>=◌, ◌>>◌, gets, nat_eq, strip_prefix, Bool, lookup,
  true,
}
use veracruz.Wasi.{Wasi, Whence, access, inval, no_flags}
use veracruz.Hoare.{
  Always, OnOk, weaken, Triple-bind, Triple-gets, Triple-lift, Triple-ok_or, Triple-if,
}
use veracruz.Policy.Principal.{Principal}
use veracruz.Vfs.Impl.{Bytes}
use veracruz.Vfs.Table
use veracruz.Vfs.Table.{InodeTable}
use veracruz.Vfs.Handle
use veracruz.Vfs.Handle.{FileSystem, FsExec, FdEntry, bare}
use veracruz.Vfs.File
use veracruz.Vfs.File.{Services}
use veracruz.Vfs.Public
use veracruz.Vfs.Integrity.Contents.{Anything}
use veracruz.Vfs.Soundness.{
  IsSound, FsGrows, FsKeeps, FsTriple, fs_frame, forget, get_inode_by_fd-Triple, check_right-Triple,
}
use veracruz.Vfs.Soundness.Files.{
  and_then, pure-Keeps, fail_if-Keeps, with_fd, get-Keeps, fd_close-Keeps, fd_read-Keeps,
  fd_seek-Keeps,
}
use veracruz.Vfs.Soundness.Directories.{path_open-Keeps}
use veracruz.Vfs.Soundness.Services.{AreSafe, fd_write-Keeps}
use veracruz.Vfs.Soundness.Handles.{FsFurnished, Furnishes, beside, install_prestat-Furnishes}

-- The handle `g`, with the table of `f`.
abbrev pub on_table : FileSystem → FileSystem → FileSystem
on_table g f = record g { inode_table = f.inode_table }

abbrev pub IsSoundBeside : FileSystem → FileSystem → Type 0
IsSoundBeside g f = IsSound (on_table g f)

bare-IsSound : (f : FileSystem) → IsSound f → IsSound (bare f.inode_table)
unfolding bare lookup
bare-IsSound f g = record { table = g.table; descriptors = λ fd e at. cc }

pub outgrown : (f g : FileSystem) → IsSound f → IsSound g → FsGrows f g → IsSoundBeside f g
outgrown f g a b grows = record {
  table = b.table;
  descriptors = λ fd e at. grows.present e.inode (a.descriptors fd e at);
}

-- What another handle does to the shared table, for the handle `f`.
module _ {A : Type 0} {pre : FileSystem → Type 0} {m : FsExec A}
    {post : A → FileSystem → Type 0} where
  share_lem :
      FsTriple pre m post
      → (f g : FileSystem) → IsSound f
      → IsSoundBeside g f
      → pre (on_table g f)
      → let y = m (on_table g f) in IsSoundBeside f y.1 × FsGrows f y.1 × OnOk y.0 (λ a. post a y.1)
  share_lem h f g a b p =
      let (good, grows, q) = h.run (on_table g f) b p in
      (outgrown f (m (on_table g f)).1 a good grows, grows, q)

pub on_handle-Keeps :
    {A : Type 0} (g : FileSystem) (m : FsExec A)
    → FsKeeps m
    → FsTriple (IsSoundBeside g) (Public.on_handle g m) Anything
unfolding Public.on_handle
on_handle-Keeps g m h = record { run = λ f a b. share_lem h f g a b tt }

-- A handle that goes with the table, which is furnished.
abbrev pub IsClientOf : FileSystem → FileSystem → Type 0
IsClientOf g f = IsSoundBeside g f × FsFurnished f

module _ ⦃w : Wasi⦄ where
  spawn_with-Triple :
      (rights_table : Map FilePath ℕ)
      → FsTriple FsFurnished (Public.spawn_with rights_table) IsClientOf
  unfolding Public.spawn_with bare
  spawn_with-Triple rights_table = record {
    run = λ f a p. share_lem made f (bare f.inode_table) a (bare-IsSound f a) p;
  }
    where
      made : FsTriple FsFurnished (do Handle.install_prestat rights_table; gets (λ g. g)) IsClientOf
      made =
          Triple-bind fs_frame (λ u. FsFurnished) (install_prestat-Furnishes rights_table)
            (λ u.
              weaken fs_frame FsFurnished IsClientOf (λ f p. p)
                (λ g f good q. (subst (λ x. IsSoundBeside x f) (sym q.0) good, q.1))
                (Triple-gets fs_frame FsFurnished (λ g. g)))

  pub spawn-Triple :
      (principal : Principal) → FsTriple FsFurnished (Public.spawn principal) IsClientOf
  unfolding Public.spawn
  spawn-Triple principal =
      Triple-bind fs_frame (λ r. FsFurnished)
        (weaken fs_frame FsFurnished (λ r. FsFurnished) (λ f p. p) (λ a f g q. q.1)
          (Triple-gets fs_frame FsFurnished (λ f. Table.get_rights principal f.inode_table)))
        (λ rights.
          Triple-bind fs_frame (λ t. FsFurnished)
            (weaken fs_frame FsFurnished (λ t. FsFurnished) (λ f p. p) (λ a f g q. q.1)
              (Triple-lift fs_frame FsFurnished rights))
            (λ rights_table. spawn_with-Triple rights_table))

  -- A new handle of a principal, and a call of it.
  pub spawned-Furnishes :
      {A : Type 0} (principal : Principal) (m : FsExec A)
      → FsKeeps m
      → Furnishes (do handle ← Public.spawn principal; Public.on_handle handle m)
  spawned-Furnishes principal m h = Triple-bind fs_frame IsClientOf (spawn-Triple principal) (λ g.
      weaken fs_frame (IsClientOf g) (λ a. FsFurnished) (λ f p. p) (λ a f good q. q.1)
        (beside (on_handle-Keeps g m h)))

  find_prestat-Keeps : (path : FilePath) → FsKeeps (Public.find_prestat path)
  unfolding Public.find_prestat
  find_prestat-Keeps path = and_then (forget (Triple-gets fs_frame Always _)) (λ found.
      and_then (forget (Triple-ok_or fs_frame Always access found)) (λ (fd, above).
        and_then (forget (Triple-ok_or fs_frame Always inval (strip_prefix above path)))
          (λ rest. pure-Keeps (fd, rest))))

fd_filestat_get-Keeps : (fd : ℕ) → FsKeeps (File.fd_filestat_get fd)
unfolding File.fd_filestat_get
fd_filestat_get-Keeps fd =
    and_then (forget (get_inode_by_fd-Triple fd))
      (λ i. and_then (get-Keeps i) (λ e. pure-Keeps e.file_stat))

module _ ⦃w : Wasi⦄ where
  require_rights-Keeps : (fd rights : ℕ) → FsKeeps (Public.require_rights fd rights)
  unfolding Public.require_rights
  require_rights-Keeps fd rights = with_fd fd (λ e. forget (fail_if-Keeps _ access))

  open_by_absolute_path-Keeps :
      (path : FilePath) (oflags : ℕ) → FsKeeps (Public.open_by_absolute_path path oflags)
  unfolding Public.open_by_absolute_path
  open_by_absolute_path-Keeps path oflags =
      and_then (find_prestat-Keeps path)
        (λ (fd, rest). path_open-Keeps fd rest oflags w.all_rights w.all_rights no_flags)

  pub read_file_by_absolute_path-Keeps :
      (path : FilePath) → FsKeeps (Public.read_file_by_absolute_path path)
  unfolding Public.read_file_by_absolute_path
  read_file_by_absolute_path-Keeps path =
      and_then (open_by_absolute_path-Keeps path no_flags) (λ fd.
        and_then (require_rights-Keeps fd _) (λ u. and_then (fd_filestat_get-Keeps fd) (λ file_stat.
          and_then (fd_read-Keeps fd _)
            (λ (filled, read_size). and_then (fd_close-Keeps fd) (λ v. pure-Keeps _)))))

  pub read_std_stream-Keeps : (fd : ℕ) → FsKeeps (Public.read_std_stream fd)
  unfolding Public.read_std_stream
  read_std_stream-Keeps fd = and_then (forget (get_inode_by_fd-Triple fd)) (λ i.
      and_then (get-Keeps i)
        (λ e. and_then (fd_read-Keeps fd _) (λ (filled, read_len). pure-Keeps _)))

  check_executable-Keeps : (path : FilePath) → FsKeeps (Public.check_executable path)
  unfolding Public.check_executable
  check_executable-Keeps path =
      and_then (open_by_absolute_path-Keeps path no_flags)
        (λ fd. and_then (check_right-Triple fd w.fd_execute) (λ u. pure-Keeps true))

  pub is_executable-Furnishes :
      (principal : Principal) (path : FilePath) → Furnishes (Public.is_executable principal path)
  unfolding Public.is_executable
  is_executable-Furnishes principal path =
      spawned-Furnishes principal (Public.check_executable path) (check_executable-Keeps path)

module _ ⦃w : Wasi⦄ ⦃s : Services⦄ (safe : AreSafe s) where
  pub write_file_by_absolute_path-Keeps :
      (path : FilePath) (bytes : Bytes) (is_append : Bool)
      → FsKeeps (Public.write_file_by_absolute_path path bytes is_append)
  unfolding Public.write_file_by_absolute_path
  write_file_by_absolute_path-Keeps path bytes is_append =
      and_then (open_by_absolute_path-Keeps path _) (λ fd.
        and_then (require_rights-Keeps fd _) (λ u.
          and_then
            (Triple-if fs_frame is_append
              (and_then (fd_seek-Keeps fd (pos 0) Whence.end) (λ o. pure-Keeps tt)) (pure-Keeps tt))
            (λ v. and_then (fd_write-Keeps safe fd (bytes ∷ [])) (λ n. fd_close-Keeps fd))))

  pub write_stdin-Keeps : (buf : Bytes) → FsKeeps (Public.write_stdin buf)
  unfolding Public.write_stdin
  write_stdin-Keeps buf = fd_write-Keeps safe 0 (buf ∷ [])
