-- ===== src/Base/Texts.antt =====
-- What the program uses of `str`, and the components of a path that is given as text.
use Prim.Native.Nat.{◌-◌}
use Prim.Native.String.{String, [] as empty, ◌∷◌ as cons, len, slice}
use mathlib.Core.Bool.{Bool, ◌&&◌, ◌||◌}
use mathlib.Core.List.{List, [], ◌∷◌}
use veracruz.Base.Tests.{leb, if◌then◌else◌}
use veracruz.Base.Maps.{string_eq}
use veracruz.Base.Paths.{FilePath, root_dir, cur_dir, parent_dir, normal}

-- `str::ends_with`
unfoldable pub ends_with : String → String → Bool
ends_with s suffix =
    leb (len suffix) (len s) && string_eq.beq (slice s (len s - len suffix) (len s)) suffix

-- The text up to the first slash, and the texts between the others.
unfoldable pub split_slash : String → String × List String
split_slash empty = (empty, [])
split_slash (cons c s) =
    let (first, others) = split_slash s in
    if string_eq.beq (cons c empty) "/" then (empty, first ∷ others) else (cons c first, others)

-- Empty texts and dots name nothing.
unfoldable pub components_of : List String → FilePath
components_of [] = []
components_of (s ∷ ss) =
    let rest = components_of ss in
    if string_eq.beq s "" || string_eq.beq s "."
    then rest
    else if string_eq.beq s ".."
    then parent_dir ∷ rest
    else normal s ∷ rest

-- `PathBuf::from`: the text before a leading slash is empty, and a leading dot counts.
unfoldable pub path_from : String → FilePath
unfolding split_slash components_of
path_from empty = []
path_from s =
    let (first, others) = split_slash s in
    if string_eq.beq first ""
    then root_dir ∷ components_of others
    else if string_eq.beq first "."
    then cur_dir ∷ components_of others
    else components_of (first ∷ others)
