-- ===== src/Plots/Disk/Saves.antt =====
-- What saving a figure changes of the disk, and where a name without slashes is saved.
use code_assist_analyzer.Prelude.{
  true, [], ◌∷◌, ◌++◌, any, String, string_eq, ==-refl, ok, ◌≡◌, ◌≢◌, refl, ap, arith,
}
use code_assist_analyzer.Prelude.Dict.{put}
use code_assist_analyzer.Prelude.Characters.{Without, split_whole}
use code_assist_analyzer.Plots.Disk.{
  FilePath, path_eq, from_directory, Figure, Disk, begins_with, parent, join_path, is_directory,
  makedirs, savefig,
}

pub join_path_single :
    (directory : FilePath) (name : String)
    → Without b'/' name
    → name ≢ ""
    → join_path directory name ≡ directory ++ name ∷ []
unfolding join_path
join_path_single directory String.[] h nonempty = absurd (nonempty refl)
join_path_single directory (String.◌∷◌ c name) h nonempty =
    ap (from_directory directory) (split_whole b'/' (String.◌∷◌ c name) h)

pub parent-append :
    (directory : FilePath) (name : String) → parent (directory ++ name ∷ []) ≡ directory
parent-append [] name = refl
parent-append (x ∷ []) name = refl
parent-append (x ∷ y ∷ directory) name = ap (◌∷◌ x) (parent-append (y ∷ directory) name)

begins_with_self : (path : FilePath) → begins_with path path ≡ true
begins_with_self [] = refl
begins_with_self (x ∷ path) = ground (arith, ==-refl x, begins_with_self path)

module _ {Key Float Trend : Type 0} where
  pub makedirs-is_directory :
      (directory : FilePath) (disk : Disk Key Float Trend)
      → is_directory directory (makedirs directory disk) ≡ true
  unfolding makedirs is_directory any
  makedirs-is_directory directory disk = ground (arith, begins_with_self directory)

  pub savefig_in_directory :
      (directory : FilePath) (name : String) (figure : Figure Key Float Trend)
      (disk : Disk Key Float Trend)
      → is_directory directory disk ≡ true
      → savefig (directory ++ name ∷ []) figure disk
        ≡ ok (record disk { files = put (directory ++ name ∷ []) figure disk.files })
  unfolding savefig
  savefig_in_directory directory name figure disk there =
      rw (parent-append directory name, there) refl
