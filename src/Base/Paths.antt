-- ===== src/Base/Paths.antt =====
-- `std::path::Path` on Unix, as its components: two paths are equal, and hash alike, when their
-- components are, and every method that the program calls is defined on them.
use Prim.Native.String.{String}
use mathlib.Core.Path.{◌≡◌}
use mathlib.Core.Logic.{◌↔◌}
use mathlib.Core.Bool.{Bool, true, false, ◌&&◌}
use mathlib.Core.Option.{Option, none, some}
use mathlib.Core.List.{List, [], ◌∷◌}
use native.Mathlib.Omega.{arith}
use text.Mathlib.TextEquality.{eq_iff}
use text.Mathlib.Text.{◌==◌}
use veracruz.Base.Tests.{if◌then◌else◌}
use veracruz.Base.Maps.{Eq}

pub data Component : Type 0 where
  root_dir : Component
  cur_dir : Component
  parent_dir : Component
  normal : String → Component

abbrev pub FilePath : Type 0
FilePath = List Component

abbrev pub component_beq : Component → Component → Bool
component_beq root_dir root_dir = true
component_beq cur_dir cur_dir = true
component_beq parent_dir parent_dir = true
component_beq (normal s) (normal t) = s == t
component_beq _ _ = false

component_beq_iff : (a b : Component) → (component_beq a b ≡ true) ↔ (a ≡ b)
component_beq_iff (normal s) (normal t) = ground (arith, eq_iff s t)
component_beq_iff root_dir b = ground arith
component_beq_iff a b = ground arith

abbrev pub path_beq : FilePath → FilePath → Bool
path_beq [] [] = true
path_beq (a ∷ p) (b ∷ q) = component_beq a b && path_beq p q
path_beq _ _ = false

pub path_beq_iff : (p q : FilePath) → (path_beq p q ≡ true) ↔ (p ≡ q)
path_beq_iff [] [] = ground arith
path_beq_iff [] (b ∷ q) = ground arith
path_beq_iff (a ∷ p) [] = ground arith
path_beq_iff (a ∷ p) (b ∷ q) = ground (arith, component_beq_iff a b, path_beq_iff p q)

instance abbrev pub path_eq : Eq FilePath
path_eq = record { beq = path_beq; beq_iff = path_beq_iff }

-- `Path::parent`: all but the last component; a root and an empty path have none.
unfoldable pub parent : FilePath → Option FilePath
parent [] = none
parent (root_dir ∷ []) = none
parent (c ∷ []) = some []
parent (c ∷ d ∷ p) = elim (parent (d ∷ p)) [ none ↦ none | some q ↦ some (c ∷ q) ]

-- `Path::file_name`: the last component, where it is a normal one.
unfoldable pub file_name : FilePath → Option String
file_name [] = none
file_name (normal s ∷ []) = some s
file_name (c ∷ []) = none
file_name (c ∷ d ∷ p) = file_name (d ∷ p)

-- `Path::strip_prefix`
unfoldable pub strip_prefix : FilePath → FilePath → Option FilePath
strip_prefix [] p = some p
strip_prefix (c ∷ b) [] = none
strip_prefix (c ∷ b) (d ∷ p) = if component_beq c d then strip_prefix b p else none

-- `path.strip_prefix("/").unwrap_or(path)`
unfoldable pub strip_root_slash : FilePath → FilePath
strip_root_slash (root_dir ∷ p) = p
strip_root_slash p = p

-- The text of one component.
unfoldable pub component_text : Component → String
component_text root_dir = "/"
component_text cur_dir = "."
component_text parent_dir = ".."
component_text (normal s) = s
