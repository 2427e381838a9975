-- ===== src/Vfs/Soundness/Start.antt =====
-- The file system that `FileSystem::new` makes.
use veracruz.Base.{
  follow, ap, sym, abort, err, subst, ℕ, ◌≡◌, refl, ok, lookup, path_eq, nat_eq, ◌>>=◌, parent,
  file_name, insert, contains_key, arith, ◌∙◌,
}
use veracruz.Wasi.{FileSystemResult, Wasi}
use veracruz.Policy.Principal.{RightsTable}
use veracruz.Vfs.Handle
use veracruz.Vfs.Handle.{FileSystem, FdEntry, bare}
use veracruz.Vfs.Handle.{FsExec}
use veracruz.Vfs.Soundness.{IsSound}
use veracruz.Vfs.Soundness.Handles.{FsFurnished, IsFurnished, install_prestat-Furnishes}
use veracruz.Vfs.Integrity.{Present}
use veracruz.Vfs.Table
use veracruz.Vfs.Table.{InodeTable}
use veracruz.Vfs.Public
use veracruz.Vfs.Soundness.FirstTables.{
  first-IsWellFormed, first_table, full-IsWellFormed, install_is_full, served, full_table,
}
use veracruz.Vfs.Soundness.Unmoved.{super-LeavesTable}

first-IsFurnished : (r : RightsTable) → IsFurnished (first_table r)
unfolding contains_key lookup
first-IsFurnished r = record { root = refl; in_stream = refl; out_stream = refl; err_stream = refl }

full-IsFurnished : (r : RightsTable) → IsFurnished (full_table r)
unfolding contains_key lookup
full-IsFurnished r = record { root = refl; in_stream = refl; out_stream = refl; err_stream = refl }

still-Present : (r : RightsTable) (i : ℕ) → Present i (first_table r) → Present i (full_table r)
unfolding contains_key lookup
still-Present r i h = ground arith

bare-IsSound : (r : RightsTable) → IsSound (bare (first_table r))
unfolding bare lookup
bare-IsSound r = record { table = first-IsWellFormed r; descriptors = λ fd e at. cc }

-- The services are added to the table of a sound handle.
abbrev with_services : FileSystem → FileSystemResult Unit × FileSystem
with_services g =
    let y = Public.install_services served g.inode_table in (y.0, record g { inode_table = y.1 })

abbrev IsStart : FileSystemResult Unit × FileSystem → Type 0
IsStart y = IsSound y.1 × (y.0 ≡ ok tt → FsFurnished y.1)

with_services-IsStart :
    (r : RightsTable) (g : FileSystem)
    → g.inode_table ≡ first_table r
    → IsSound g
    → IsStart (with_services g)
with_services-IsStart r g same sound =
    let y : FileSystemResult Unit × InodeTable = (ok tt, full_table r) in
    let e : Public.install_services served g.inode_table ≡ y =
      ap (Public.install_services served) same ∙ install_is_full r in
    subst (λ z. IsStart (z.0, record g { inode_table = z.1 })) (sym e)
      (
        record {
          table = full-IsWellFormed r;
          descriptors = λ fd x at.
              still-Present r x.inode
                (subst (λ t. Present x.inode t) same (sound.descriptors fd x at));
        },
        λ _. full-IsFurnished r,
      )

after_prestat :
    (r : RightsTable) (y : FileSystemResult Unit × FileSystem)
    → y.1.inode_table ≡ first_table r
    → IsSound y.1
    → IsStart (follow y (λ _. with_services))
after_prestat r (ok u, g) same sound = with_services-IsStart r g same sound
after_prestat r (err e, g) same sound = (sound, λ h. cc)
after_prestat r (abort, g) same sound = (sound, λ h. cc)

new_is :
    ⦃w : Wasi⦄ (r : RightsTable)
    → Public.new r
      ≡ follow
          (Handle.install_prestat Public.all_rights_table (bare (first_table r)))
          (λ _. with_services)
unfolding Public.new Public.install_super_user Handle.lock_inode_table bare Table.new
    Table.empty_table Table.add_dir Table.link Table.insert_entry
    Table.install_standard_streams_inode Table.new_inode Table.add_file Table.locate ◌>>=◌ insert
    contains_key lookup parent file_name Table.at_inode
new_is r = refl

-- `FileSystem::new` always gives a sound handle, whatever the table of rights; where it succeeds, the
-- root and the standard streams are inodes of its table.
pub new-IsSound :
    ⦃w : Wasi⦄ (r : RightsTable)
    → IsSound (Public.new r).1 × ((Public.new r).0 ≡ ok tt → FsFurnished (Public.new r).1)
unfolding bare
new-IsSound ⦃w⦄ r =
    let f = bare (first_table r) in
    let prestat = Handle.install_prestat Public.all_rights_table in
    let (sound, _, _) =
      (install_prestat-Furnishes Public.all_rights_table).run f (bare-IsSound r)
        (first-IsFurnished r) in
    let (_, same, _) = super-LeavesTable.run f tt tt in
    subst IsStart (sym (new_is r)) (after_prestat r (prestat f) same sound)
