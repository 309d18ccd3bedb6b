-- ===== src/Plots/Disk.antt =====
-- Paths, directories and saved figures, as the scripts of the plots use them (os.path.join,
-- os.makedirs, plt.savefig).
pub mod Saves
use code_assist_analyzer.Prelude.{
  Bool, true, false, ◌&&◌, Option, none, some, List, [], ◌∷◌, ◌++◌, String, string_eq, Eq, ◌==◌,
  any, if◌then◌else◌, Result, ok, raise, Error, io_error, ◌↔◌, ◌≡◌, refl, arith,
}
use code_assist_analyzer.Prelude.Dict.{Dict, get, put}
use code_assist_analyzer.Prelude.Text.{split}
use code_assist_analyzer.Plots.{Metric, Json}

-- a path as its components
abbrev pub FilePath : Type 0
FilePath = List String

abbrev pub same_path : FilePath → FilePath → Bool
same_path [] [] = true
same_path [] (y ∷ ys) = false
same_path (x ∷ xs) [] = false
same_path (x ∷ xs) (y ∷ ys) = (x == y) && same_path xs ys

pub same_path_iff : (x y : FilePath) → (same_path x y ≡ true) ↔ (x ≡ y)
same_path_iff [] [] = ground arith
same_path_iff [] (y ∷ ys) = ground arith
same_path_iff (x ∷ xs) [] = ground arith
same_path_iff (x ∷ xs) (y ∷ ys) = ground (arith, string_eq.same_iff x y, same_path_iff xs ys)

instance abbrev pub path_eq : Eq FilePath
path_eq = record { same_iff = same_path_iff; same = same_path }

-- the components of a text that follow a directory; a text that starts with a slash is absolute
abbrev pub from_directory : FilePath → List String → FilePath
from_directory directory (String.[] ∷ rest) = "" ∷ rest
from_directory directory components = directory ++ components

pub record Figure (Key Float Trend : Type 0) : Type 0 where
  pub metric : Metric  -- the title names the metric, and the author, if it is of one
  pub author : Option Json
  pub points : List (Key × Float)
  pub trend : Option Trend

pub record Disk (Key Float Trend : Type 0) : Type 0 where
  pub directories : List FilePath
  pub files : Dict FilePath (Figure Key Float Trend)

abbrev pub begins_with : FilePath → FilePath → Bool
begins_with [] path = true
begins_with (x ∷ xs) [] = false
begins_with (x ∷ xs) (y ∷ ys) = (x == y) && begins_with xs ys

abbrev pub parent : FilePath → FilePath
parent [] = []
parent (x ∷ []) = []
parent (x ∷ y ∷ path) = x ∷ parent (y ∷ path)

-- `os.path.join(directory, name)`
unfoldable pub join_path : FilePath → String → FilePath
join_path directory name = from_directory directory (split b'/' name)

module _ {Key Float Trend : Type 0} where
  -- a made directory, or one above it
  unfoldable pub is_directory : FilePath → Disk Key Float Trend → Bool
  is_directory path disk = any (begins_with path) disk.directories

  -- `os.makedirs(directory, exist_ok=True)`
  unfoldable pub makedirs : FilePath → Disk Key Float Trend → Disk Key Float Trend
  makedirs directory disk = record disk { directories = directory ∷ disk.directories }

  -- `plt.savefig(path)`, which replaces what is there
  unfoldable pub savefig :
      FilePath → Figure Key Float Trend → Disk Key Float Trend → Result (Disk Key Float Trend)
  unfolding is_directory
  savefig path figure disk =
      if is_directory (parent path) disk
      then ok (record disk { files = put path figure disk.files })
      else raise io_error
