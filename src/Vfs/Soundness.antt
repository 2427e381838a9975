-- ===== src/Vfs/Soundness.antt =====
-- Soundness of a handle: the inode table is well-formed, and every open descriptor leads to an
-- inode of it. The frame for the operations of `FileSystem`, and the rules for its parts.
pub mod Files
pub mod Directories
pub mod Services
pub mod Calls
pub mod Handles
pub mod Principals
pub mod FirstTables
pub mod Unmoved
pub mod Start
use veracruz.Base.{
  contains_key, ◌%◌, ◌^◌, ◌+◌, ◌⊎◌, ℕ, ◌≡◌, refl, Option, none, some, lookup, insert, remove,
  lookup-insert, lookup-remove, nat_eq, ok, err, Exec, ◌>>=◌, pure, arith, Option-cases, sym, subst,
  Bool, true, false, inl, inr, Bool-cases,
}
use veracruz.Wasi.{n_file, ErrNo, Wasi, bad_f, access}
use veracruz.Hoare.{
  Frame, Triple, Always, OnOk, OnOk_trivial, Outcome, outcome, weaken, Triple-bind, Triple-pure,
  Triple-fail, Triple-if,
}
use veracruz.Vfs.Table
use veracruz.Vfs.Table.{InodeTable, TableExec}
use veracruz.Vfs.Handle
use veracruz.Vfs.Handle.{FdEntry, FileSystem, FsExec, lock_inode_table}
use veracruz.Vfs.Integrity.{Present, IsWellFormed, Grows, Grows-refl, Grows-trans, table_frame}
use veracruz.Vfs.Integrity.Contents.{Anything}

pub record IsSound (f : FileSystem) : Type 0 where
  pub table : IsWellFormed f.inode_table
  pub descriptors :
      (fd : ℕ) (e : FdEntry) → lookup fd f.fd_table ≡ some e → Present e.inode f.inode_table

abbrev pub FsGrows : FileSystem → FileSystem → Type 0
FsGrows f g = Grows f.inode_table g.inode_table

abbrev pub fs_frame : Frame FileSystem
fs_frame = record {
  Good = IsSound;
  Rel = FsGrows;
  reflexive = λ f. Grows-refl f.inode_table;
  transitive = λ f g h. Grows-trans f.inode_table g.inode_table h.inode_table;
}

abbrev pub FsTriple :
    {A : Type 0} → (FileSystem → Type 0) → FsExec A → (A → FileSystem → Type 0) → Type 0
FsTriple pre m post = Triple fs_frame pre m post

abbrev pub FsKeeps : {A : Type 0} → FsExec A → Type 0
FsKeeps m = FsTriple Always m Anything

-- An inode is in the table of a handle.
abbrev pub FsPresent : {A : Type 0} → ℕ → A → FileSystem → Type 0
FsPresent i a f = Present i f.inode_table

module _ {A : Type 0} {pre : FileSystem → Type 0} {m : FsExec A} where
  pub forget : {post : A → FileSystem → Type 0} → FsTriple Always m post → FsTriple pre m Anything
  forget h = weaken fs_frame pre Anything (λ s p. tt) (λ a s g q. tt) h

-- A method of the table, under its lock.
pub lock-Triple :
    {A : Type 0} {pre : InodeTable → Type 0} {post : A → InodeTable → Type 0} (m : TableExec A)
    → Triple table_frame pre m post
    → FsTriple (λ f. pre f.inode_table) (lock_inode_table m) (λ a f. post a f.inode_table)
unfolding lock_inode_table
lock-Triple m h = record {
  run = λ f g p.
      let (good, grows, q) = h.run f.inode_table g.table p in
      (
        record {
          table = good;
          descriptors = λ fd e at. grows.present e.inode (g.descriptors fd e at);
        },
        grows,
        q,
      );
}

get_fd-some :
    (fd : ℕ) (e : FdEntry) (f : FileSystem)
    → lookup fd f.fd_table ≡ some e
    → Handle.get_fd fd f ≡ (ok e, f)
unfolding Handle.get_fd
get_fd-some fd e f h = ground arith

get_fd-none :
    (fd : ℕ) (f : FileSystem) → lookup fd f.fd_table ≡ none → Handle.get_fd fd f ≡ (err bad_f, f)
unfolding Handle.get_fd
get_fd-none fd f h = ground arith

abbrev pub HasInode : FdEntry → FileSystem → Type 0
HasInode e f = Present e.inode f.inode_table

pub get_fd-Triple : (fd : ℕ) → FsTriple Always (Handle.get_fd fd) HasInode
get_fd-Triple fd = record {
  run = λ f g _. elim (Option-cases (lookup fd f.fd_table)) [
    | inl h ↦ outcome fs_frame f HasInode (get_fd-none fd f h) (g, Grows-refl f.inode_table, tt)
    | inr (e, h) ↦
        outcome fs_frame f HasInode (get_fd-some fd e f h)
          (g, Grows-refl f.inode_table, g.descriptors fd e h)
  ];
}

put_found :
    (fd : ℕ) (e : FdEntry) (f : FileSystem) (j : ℕ) (e' : FdEntry)
    → IsSound f
    → HasInode e f
    → lookup j (insert fd e f.fd_table) ≡ some e'
    → HasInode e' f
put_found fd e f j e' g h at = ground (arith, lookup-insert fd j e f.fd_table, g.descriptors j e')

pub put_fd-Triple : (fd : ℕ) (e : FdEntry) → FsTriple (HasInode e) (Handle.put_fd fd e) Anything
unfolding Handle.put_fd
put_fd-Triple fd e = record {
  run = λ f g h. (
    record { table = g.table; descriptors = λ j e' at. put_found fd e f j e' g h at },
    Grows-refl f.inode_table,
    tt,
  );
}

abbrev pub drop_fd : ℕ → FileSystem → FileSystem
drop_fd fd f = record f { fd_table = remove fd f.fd_table }

pub drop_fd-IsSound : (fd : ℕ) (f : FileSystem) → IsSound f → IsSound (drop_fd fd f)
drop_fd-IsSound fd f g = record {
  table = g.table;
  descriptors = λ j e at. ground (arith, lookup-remove fd j f.fd_table, g.descriptors j e);
}

module _ ⦃w : Wasi⦄ where
  pub check_right-Triple : (fd rights : ℕ) → FsKeeps (Handle.check_right fd rights)
  unfolding Handle.check_right
  check_right-Triple fd rights = Triple-bind fs_frame HasInode (get_fd-Triple fd) (λ e.
      Triple-if fs_frame (w.contains e.fd_stat.rights_base rights)
        (forget (Triple-pure fs_frame Always tt))
        (forget (Triple-fail fs_frame Always access Anything)))

-- The inode of a descriptor.
abbrev pub IsInode : ℕ → FileSystem → Type 0
IsInode i f = Present i f.inode_table

pub get_inode_by_fd-Triple : (fd : ℕ) → FsTriple Always (Handle.get_inode_by_fd fd) IsInode
unfolding Handle.get_inode_by_fd
get_inode_by_fd-Triple fd = Triple-bind fs_frame HasInode (get_fd-Triple fd) (λ e.
    weaken fs_frame (HasInode e) IsInode (λ f p. p)
      (λ i f g q. subst (λ k. Present k f.inode_table) (sym q.0) q.1)
      (Triple-pure fs_frame (HasInode e) e.inode))

abbrev with_next : ℕ → FileSystem → FileSystem
with_next n f = record f { next_fd_candidate = n }

-- A new descriptor is the candidate, which is not open.
pub new_fd_cases :
    (f : FileSystem)
    → (Handle.new_fd f ≡ (err n_file, f))
      ⊎ ((Handle.new_fd f
            ≡ (ok f.next_fd_candidate, with_next ((f.next_fd_candidate + 1) % 2 ^ 32) f))
          × (contains_key f.next_fd_candidate f.fd_table ≡ false))
unfolding Handle.new_fd
new_fd_cases f = ground arith

-- It opens nothing yet, and what is known of the inodes stays.
pub new_fd-Triple : (i : ℕ) → FsTriple (IsInode i) Handle.new_fd (FsPresent i)
new_fd-Triple i = record {
  run = λ f g there. elim (new_fd_cases f) [
    | inl e ↦ outcome fs_frame f (FsPresent i) e (g, Grows-refl f.inode_table, tt)
    | inr (e, free) ↦
        outcome fs_frame f (FsPresent i) e
          (record { table = g.table; descriptors = g.descriptors }, Grows-refl f.inode_table, there)
  ];
}

-- A step that leaves descriptors and the table alone.
pub keeps_both :
    {A : Type 0} (m : FsExec A)
    → ((f : FileSystem) → ((m f).1.fd_table ≡ f.fd_table) × ((m f).1.inode_table ≡ f.inode_table))
    → FsKeeps m
keeps_both m same = record {
  run = λ f g p.
      let (fds, table) = same f in
      (
        record {
          table = subst IsWellFormed (sym table) g.table;
          descriptors = λ fd e at.
              subst (λ t. Present e.inode t) (sym table)
                (g.descriptors fd e (subst (λ d. lookup fd d ≡ some e) fds at));
        },
        subst (Grows f.inode_table) (sym table) (Grows-refl f.inode_table),
        OnOk_trivial (m f).0,
      );
}
