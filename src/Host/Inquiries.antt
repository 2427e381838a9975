-- ===== src/Host/Inquiries.antt =====
-- execution-engine/src/wasi/common.rs: the calls that list directories, those on sockets, and the
-- polling, on sound handles.
use veracruz.Base.{◌>>=◌, ℕ, ◌+◌, Map, zero, suc, List, [], ◌∷◌, Exec, FilePath}
use veracruz.Wasi.{Wasi, ErrNo, bad_f, no_sys, inval, not_dir}
use veracruz.Hoare.{
  Always, Triple-gets, Triple-ok_or, Triple-pure, Triple-fail_if, Triple-lift, Triple-if, Triple,
  Triple-fail, Triple-bind, weaken,
}
use veracruz.Vfs.Impl.{Bytes, InodeImpl, directory}
use veracruz.Vfs.Table.{InodeTable, TableExec}
use veracruz.Vfs.Handle.{lock_inode_table}
use veracruz.Vfs.Integrity.{table_frame}
use veracruz.Vfs.Integrity.Contents.{Anything}
use veracruz.Vfs.Integrity.Inodes.{get-Triple}
use veracruz.Vfs.File
use veracruz.Vfs.File.{DirEnt}
use veracruz.Vfs.Directory
use veracruz.Vfs.Soundness.{
  FsKeeps, fs_frame, forget, check_right-Triple, get_inode_by_fd-Triple, lock-Triple,
}
use veracruz.Vfs.Soundness.Files.{and_then, pure-Keeps, fail-Keeps, fail_if-Keeps, get-Keeps}
use veracruz.Host.Bounds
use veracruz.Host.Bounds.{
  MemoryKeeps, memory_frame, step_then, get_slice-Keeps, write_buffer-Keeps, write_u32-Keeps,
  unpack_places-Keeps, unpack_iovec-Keeps,
}
use veracruz.Host.Wrapper.{Host}
use veracruz.Host.Listing
use veracruz.Host.Sockets
use veracruz.Host.Frame
use veracruz.Host.Frame.{HostKeeps, host_frame, memory-Keeps, files-Keeps, decode-Keeps, ◌and◌}

table_forget :
    {A : Type 0} {post : A → InodeTable → Type 0} {m : TableExec A}
    → Triple table_frame Always m post
    → Triple table_frame Always m Anything
table_forget h = weaken table_frame Always Anything (λ s p. tt) (λ a s g q. tt) h

abbrev TableKeeps : {A : Type 0} → TableExec A → Type 0
TableKeeps m = Triple table_frame Always m Anything

table_then :
    {A B : Type 0} {pre : InodeTable → Type 0} {post : A → InodeTable → Type 0} {m : TableExec A}
    {f : A → TableExec B}
    → Triple table_frame pre m post
    → ((a : A) → TableKeeps (f a))
    → Triple table_frame pre (m >>= f) Anything
table_then {post = post} h k =
    Triple-bind table_frame post h
      (λ a. weaken table_frame (post a) Anything (λ s p. tt) (λ b s g q. q) (k a))

dir_entries-Keeps : (index : ℕ) (d : Map FilePath ℕ) → TableKeeps (File.dir_entries index d)
unfolding File.dir_entries
dir_entries-Keeps index [] = table_forget (Triple-pure table_frame Always [])
dir_entries-Keeps index ((path, inode) ∷ d) =
    table_then (Triple-fail_if table_frame Always _ inval) (λ u. table_then (get-Triple inode) (λ e.
      table_then (dir_entries-Keeps (index + 1) d)
        (λ rest. table_forget (Triple-pure table_frame Always _))))

read_dir-Keeps : (impl : InodeImpl) → FsKeeps (lock_inode_table (File.read_dir impl))
unfolding File.read_dir
read_dir-Keeps (directory d) = forget (lock-Triple _ (dir_entries-Keeps 0 d))
read_dir-Keeps impl = forget (lock-Triple _ (Triple-fail table_frame Always not_dir Anything))

prestat-Keeps : (fd : ℕ) → FsKeeps (File.fd_prestat_get fd)
unfolding File.fd_prestat_get
prestat-Keeps fd = and_then (forget (Triple-gets fs_frame Always _)) (λ found.
    and_then (forget (Triple-ok_or fs_frame Always bad_f found))
      (λ path. and_then (fail_if-Keeps _ inval) (λ u. pure-Keeps _)))

dir_name-Keeps : (fd : ℕ) → FsKeeps (File.fd_prestat_dir_name fd)
unfolding File.fd_prestat_dir_name
dir_name-Keeps fd =
    and_then (forget (Triple-gets fs_frame Always _))
      (λ found. forget (Triple-ok_or fs_frame Always bad_f found))

module _ ⦃w : Wasi⦄ where
  readdir-Keeps : (fd cookie : ℕ) → FsKeeps (File.fd_readdir fd cookie)
  unfolding File.fd_readdir
  readdir-Keeps fd cookie = and_then (check_right-Triple fd w.fd_readdir) (λ u.
      and_then (forget (get_inode_by_fd-Triple fd)) (λ i.
        and_then (get-Keeps i) (λ e. and_then (read_dir-Keeps e.impl) (λ dirs. pure-Keeps _))))

  recv-Keeps : {A : Type 0} (socket : ℕ) → FsKeeps {A = A} (Directory.sock_recv socket)
  unfolding Directory.sock_recv
  recv-Keeps socket = and_then (check_right-Triple socket w.fd_read) (λ u. fail-Keeps no_sys)

  send-Keeps : {A : Type 0} (socket : ℕ) → FsKeeps {A = A} (Directory.sock_send socket)
  unfolding Directory.sock_send
  send-Keeps socket = and_then (check_right-Triple socket w.fd_write) (λ u. fail-Keeps no_sys)

  poll-Keeps :
      {A S E : Type 0} (xs : List S) (ys : List E) → FsKeeps {A = A} (Directory.poll_oneoff xs ys)
  unfolding Directory.poll_oneoff
  poll-Keeps xs ys = fail-Keeps no_sys

unpack_array-Keeps :
    {T : Type 0} (size : ℕ) (reader : Exec ErrNo Bytes T) (address i count : ℕ)
    → MemoryKeeps (Sockets.unpack_array size reader address i count)
unfolding Sockets.unpack_array
unpack_array-Keeps size reader address i zero = Bounds.forget (Triple-pure memory_frame Always _)
unpack_array-Keeps size reader address i (suc count) = step_then (get_slice-Keeps _ _) (λ bytes.
    step_then (Bounds.forget (Triple-lift memory_frame Always _)) (λ element.
      step_then (unpack_array-Keeps size reader address (i + 1) count)
        (λ others. Bounds.forget (Triple-pure memory_frame Always _))))

module _ ⦃k : Host⦄ where
  write_entries-Keeps :
      (dir_entries : List (DirEnt × FilePath)) (buf_ptr buf_len written : ℕ)
      → MemoryKeeps (Listing.write_entries dir_entries buf_ptr buf_len written)
  unfolding Listing.write_entries
  write_entries-Keeps [] buf_ptr buf_len written = Bounds.forget (Triple-pure memory_frame Always _)
  write_entries-Keeps ((dir, path) ∷ dir_entries) buf_ptr buf_len written =
      Triple-if memory_frame _ (Bounds.forget (Triple-pure memory_frame Always _)) (
        step_then (write_buffer-Keeps _ _) (λ u.
          Triple-if memory_frame _ (Bounds.forget (Triple-pure memory_frame Always _)) (
            step_then (write_buffer-Keeps _ _) (λ v. write_entries-Keeps dir_entries _ buf_len _))))

  pub fd_prestat_get-Keeps : (fd address : ℕ) → HostKeeps (Listing.fd_prestat_get fd address)
  unfolding Listing.fd_prestat_get
  fd_prestat_get-Keeps fd address =
      files-Keeps (prestat-Keeps fd) and λ n. memory-Keeps (write_buffer-Keeps address _)

  pub fd_prestat_dir_name-Keeps :
      (fd address size : ℕ) → HostKeeps (Listing.fd_prestat_dir_name fd address size)
  unfolding Listing.fd_prestat_dir_name
  fd_prestat_dir_name-Keeps fd address size = files-Keeps (dir_name-Keeps fd) and λ result.
      Frame.forget (Triple-fail_if host_frame Always _ _) and λ u.
      memory-Keeps (write_buffer-Keeps address _)

module _ ⦃w : Wasi⦄ ⦃k : Host⦄ where
  pub fd_readdir-Keeps :
      (fd buf_ptr buf_len cookie result_ptr : ℕ)
      → HostKeeps (Listing.fd_readdir fd buf_ptr buf_len cookie result_ptr)
  unfolding Listing.fd_readdir
  fd_readdir-Keeps fd buf_ptr buf_len cookie result_ptr =
      files-Keeps (readdir-Keeps fd cookie) and λ dir_entries.
      memory-Keeps (write_entries-Keeps dir_entries buf_ptr buf_len 0) and λ written.
      memory-Keeps (write_u32-Keeps result_ptr written)

  pub poll_oneoff-Keeps :
      (subscriptions events size address : ℕ)
      → HostKeeps (Sockets.poll_oneoff subscriptions events size address)
  unfolding Sockets.poll_oneoff
  poll_oneoff-Keeps subscriptions events size address =
      memory-Keeps (unpack_array-Keeps _ _ subscriptions 0 size) and λ xs.
      memory-Keeps (unpack_array-Keeps _ _ events 0 size) and λ ys.
      files-Keeps (poll-Keeps xs ys) and λ rst. memory-Keeps (write_u32-Keeps address rst)

  pub sock_recv-Keeps :
      (socket ri_address ri_len ri_flag ro_data_len ro_flag : ℕ)
      → HostKeeps (Sockets.sock_recv socket ri_address ri_len ri_flag ro_data_len ro_flag)
  unfolding Sockets.sock_recv
  sock_recv-Keeps socket ri_address ri_len ri_flag ro_data_len ro_flag =
      memory-Keeps (unpack_places-Keeps ri_address 0 ri_len) and λ places. decode-Keeps _ and λ x.
      files-Keeps (recv-Keeps socket) and λ r.
      memory-Keeps (write_u32-Keeps ro_data_len r.0) and λ u.
      memory-Keeps (write_buffer-Keeps ro_flag _)

  pub sock_send-Keeps :
      (socket si_address si_len si_flag address : ℕ)
      → HostKeeps (Sockets.sock_send socket si_address si_len si_flag address)
  unfolding Sockets.sock_send
  sock_send-Keeps socket si_address si_len si_flag address =
      memory-Keeps (unpack_iovec-Keeps si_address si_len) and λ iovecs. decode-Keeps _ and λ x.
      files-Keeps (send-Keeps socket) and λ n. memory-Keeps (write_u32-Keeps address n)
