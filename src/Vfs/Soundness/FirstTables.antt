-- ===== src/Vfs/Soundness/FirstTables.antt =====
-- The inode tables that `FileSystem::new` goes through, before and after the services.
use veracruz.Base.{
  Eq, cur_dir, parent_dir, Bool-cases, inl, inr, subst, ℕ, ◌≡◌, refl, List, [], ◌∷◌, Map, FilePath,
  normal, root_dir, ok, lookup, path_eq, nat_eq, ◌>>=◌, parent, file_name, strip_root_slash, insert,
  contains_key, false, some, ◌<◌, arith,
}
use veracruz.Wasi.{FileType, regular_file}
use veracruz.Policy.Principal.{RightsTable}
use veracruz.Vfs.Impl
use veracruz.Vfs.Entry
use veracruz.Vfs.Integrity.{IsWellFormed, SizeFits, LinksInto, Present}
use veracruz.Vfs.Table
use veracruz.Vfs.Table.{InodeTable}
use veracruz.Vfs.Public
use veracruz.Vfs.Entry.{InodeEntry}

-- The inodes of the root and of the streams.
abbrev pub first_inodes : Map ℕ InodeEntry
first_inodes =
    (2, Table.new_dir_entry 2 2)
    ∷ (3, Table.new_file_entry 3 [])
    ∷ (4, Table.new_file_entry 4 [])
    ∷ (5, Table.new_file_entry 5 [])
    ∷ []

abbrev pub first_table : RightsTable → InodeTable
first_table r = record {
  table = first_inodes;
  rights_table = r;
  stdin = 3;
  stdout = 4;
  stderr = 5;
  next_inode_candidate = 6;
}

new_is_first : (r : RightsTable) → Table.new (Table.empty_table r) ≡ (ok tt, first_table r)
unfolding Table.new Table.empty_table Table.add_dir Table.link Table.insert_entry
    Table.install_standard_streams_inode Table.new_inode Table.add_file Table.locate ◌>>=◌ insert
    contains_key lookup parent file_name Table.at_inode
new_is_first r = refl

abbrev pub served : List (FilePath × Impl.SharedService)
served =
    (
      root_dir ∷ normal "services" ∷ normal "postcard_string.dat" ∷ [],
      record { state = Impl.postcard_service; locked = false },
    )
    ∷ (
      root_dir ∷ normal "services" ∷ normal "aesctr.dat" ∷ [],
      record { state = Public.new_aes_counter_mode_service; locked = false },
    )
    ∷ []

-- A directory's entry, and that of a service that has no input yet.
abbrev pub dir_of : ℕ → Map FilePath ℕ → InodeEntry
dir_of i d = record { file_stat = Table.new_stat i FileType.directory 0; impl = Impl.directory d }

abbrev pub service_of : ℕ → Impl.Service → InodeEntry
service_of i state = record {
  file_stat = Table.new_stat i regular_file 0;
  impl = Impl.native_module (record { state = state; locked = false }) [];
}

abbrev pub file_of : ℕ → InodeEntry
file_of i = record { file_stat = Table.new_stat i regular_file 0; impl = Impl.file [] }

abbrev pub full_inodes : Map ℕ InodeEntry
full_inodes =
    (2, dir_of 2 ((cur_dir ∷ [], 2) ∷ (parent_dir ∷ [], 2) ∷ (normal "services" ∷ [], 7) ∷ []))
    ∷ (3, file_of 3)
    ∷ (4, file_of 4)
    ∷ (5, file_of 5)
    ∷ (
      7,
      dir_of 7 (
          (cur_dir ∷ [], 7)
          ∷ (parent_dir ∷ [], 2)
          ∷ (normal "postcard_string.dat" ∷ [], 6)
          ∷ (normal "aesctr.dat" ∷ [], 8)
          ∷ []),
    )
    ∷ (6, service_of 6 Impl.postcard_service)
    ∷ (8, service_of 8 Public.new_aes_counter_mode_service)
    ∷ []

abbrev pub full_table : RightsTable → InodeTable
full_table r = record {
  table = full_inodes;
  rights_table = r;
  stdin = 3;
  stdout = 4;
  stderr = 5;
  next_inode_candidate = 9;
}

pub install_is_full :
    (r : RightsTable) → Public.install_services served (first_table r) ≡ (ok tt, full_table r)
unfolding Public.install_services Table.install_service Table.new_dir_entry Table.new_file_entry
    Table.add_dir Table.link Table.insert_entry Table.new_inode Table.add_file Table.locate ◌>>=◌
    insert contains_key lookup parent file_name Table.at_inode Table.add_all_dir
    Table.found_or_added Table.get_inode_by_inode_path Table.walk Table.get Entry.get_inode_by_path
    Entry.insert_path strip_root_slash Impl.new_directory
install_is_full r = refl

-- A fact of every entry of a map.
module _ {K V : Type 0} ⦃q : Eq K⦄ (P : K → V → Type 0) where
  abbrev All : Map K V → Type 0
  All [] = Unit
  All ((k, v) ∷ m) = P k v × All m

  All-lookup : (m : Map K V) → All m → (k : K) (v : V) → lookup k m ≡ some v → P k v
  unfolding lookup
  All-lookup [] h k v at = cc
  All-lookup ((j, x) ∷ m) (first, rest) k v at = elim (Bool-cases (q.beq j k)) [
    | inl same ↦
        let at' : some x ≡ some v = rw same at at in
        subst (λ y. P k y) (cc) (subst (λ i. P i x) ((q.beq_iff j k).0 same) first)
    | inr other ↦ All-lookup m rest k v (rw other at at)
  ]

dir_links :
    (T : ℕ → Type 0) (i : ℕ) (d : Map FilePath ℕ) → All (λ p j. T j) d → LinksInto T (dir_of i d)
dir_links T i d h d' same p j found =
    All-lookup (λ p j. T j) d h p j (subst (λ x. lookup p x ≡ some j) (cc) found)

file_links : (T : ℕ → Type 0) (i : ℕ) → LinksInto T (file_of i)
file_links T i d same p j found = cc

service_links : (T : ℕ → Type 0) (i : ℕ) (state : Impl.Service) → LinksInto T (service_of i state)
service_links T i state d same p j found = cc

dir_sizes : (i : ℕ) (d : Map FilePath ℕ) → SizeFits (dir_of i d)
unfolding Impl.contents
dir_sizes i d b same = cc

file_sizes : (i : ℕ) → SizeFits (file_of i)
unfolding Impl.contents
file_sizes i b same = ground arith

service_sizes : (i : ℕ) (state : Impl.Service) → SizeFits (service_of i state)
unfolding Impl.contents
service_sizes i state b same = ground arith

pub full-IsWellFormed : (r : RightsTable) → IsWellFormed (full_table r)
unfolding contains_key lookup
full-IsWellFormed r =
    let T : ℕ → Type 0 = λ j. Present j (full_table r) in
    record {
      below = All-lookup (λ i e. i < 9) full_inodes (omega arith);
      sizes =
          All-lookup (λ i e. SizeFits e) full_inodes
            (
              dir_sizes 2 _,
              (
                file_sizes 3,
                (
                  file_sizes 4,
                  (file_sizes 5, (dir_sizes 7 _, (service_sizes 6 _, (service_sizes 8 _, tt)))),
                ),
              ),
            );
      links =
          All-lookup (λ i e. LinksInto T e) full_inodes
            (
              dir_links T 2 _ (refl, (refl, (refl, tt))),
              (
                file_links T 3,
                (
                  file_links T 4,
                  (
                    file_links T 5,
                    (
                      dir_links T 7 _ (refl, (refl, (refl, (refl, tt)))),
                      (service_links T 6 _, (service_links T 8 _, tt)),
                    ),
                  ),
                ),
              ),
            );
    }

pub first-IsWellFormed : (r : RightsTable) → IsWellFormed (first_table r)
unfolding contains_key lookup Table.new_dir_entry Table.new_file_entry Impl.new_directory insert
first-IsWellFormed r =
    let T : ℕ → Type 0 = λ j. Present j (first_table r) in
    record {
      below = All-lookup (λ i e. i < 6) first_inodes (omega arith);
      sizes =
          All-lookup (λ i e. SizeFits e) first_inodes
            (dir_sizes 2 _, (file_sizes 3, (file_sizes 4, (file_sizes 5, tt))));
      links =
          All-lookup (λ i e. LinksInto T e) first_inodes
            (
              dir_links T 2 _ (refl, (refl, tt)),
              (file_links T 3, (file_links T 4, (file_links T 5, tt))),
            );
    }
