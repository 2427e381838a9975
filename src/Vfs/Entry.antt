-- ===== src/Vfs/Entry.antt =====
-- execution-engine/src/fs.rs: `InodeEntry`, the status of a file with its data. Each method is that
-- of `InodeImpl` with the update of the status that follows it.
use veracruz.Base.{ℕ, Bool, FilePath, Exec, ◌>>=◌, ◌>>◌, pure, modify, zoom}
use veracruz.Wasi.{ErrNo, FileStat, FileSystemResult}
use veracruz.Vfs.Impl
use veracruz.Vfs.Impl.{Bytes, InodeImpl}

-- The field `data` of the source is `impl` here.
pub record InodeEntry : Type 0 where
  pub file_stat : FileStat
  pub impl : InodeImpl

module _ {A : Type 0} where
  unfoldable pub on_impl : Exec ErrNo InodeImpl A → Exec ErrNo InodeEntry A
  unfolding zoom
  on_impl = zoom (λ e. e.impl) (λ i e. record e { impl = i })

unfoldable pub set_file_size : (InodeEntry → ℕ) → Exec ErrNo InodeEntry Unit
unfolding modify
set_file_size size =
    modify (λ e. record e { file_stat = record e.file_stat { file_size = size e } })

unfoldable pub resize_file : ℕ → ℕ → Exec ErrNo InodeEntry Unit
unfolding Impl.resize_file on_impl set_file_size ◌>>=◌
resize_file size fill_byte = do on_impl (Impl.resize_file size fill_byte); set_file_size (λ e. size)

unfoldable pub read_file : Bytes → ℕ → InodeEntry → FileSystemResult (Bytes × ℕ)
unfolding Impl.read_file
read_file buf offset e = Impl.read_file buf offset e.impl

unfoldable pub write_file : Bytes → ℕ → Exec ErrNo InodeEntry ℕ
unfolding Impl.write_file Impl.len on_impl set_file_size pure ◌>>=◌
write_file buf offset = do
  rst ← on_impl (Impl.write_file buf offset)
  set_file_size (λ e. Impl.len e.impl)
  pure rst

unfoldable pub truncate_file : Exec ErrNo InodeEntry Unit
unfolding Impl.truncate_file on_impl set_file_size ◌>>=◌
truncate_file = do on_impl Impl.truncate_file; set_file_size (λ e. 0)

-- `insert`
unfoldable pub insert_path : FilePath → ℕ → Exec ErrNo InodeEntry Unit
unfolding Impl.insert_path on_impl
insert_path path inode = on_impl (Impl.insert_path path inode)

unfoldable pub get_inode_by_path : FilePath → InodeEntry → FileSystemResult ℕ
unfolding Impl.get_inode_by_path
get_inode_by_path path e = Impl.get_inode_by_path path e.impl

unfoldable pub is_dir : InodeEntry → Bool
unfolding Impl.is_dir
is_dir e = Impl.is_dir e.impl

unfoldable pub len : InodeEntry → ℕ
unfolding Impl.len
len e = Impl.len e.impl

unfoldable pub is_service : InodeEntry → Bool
unfolding Impl.is_service
is_service e = Impl.is_service e.impl
