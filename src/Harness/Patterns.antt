-- ===== src/Harness/Patterns.antt =====
-- `Pattern`, `is_pattern_name` and `discover_patterns` of harness/src/lib.rs. The file system is a
-- parameter.
pub mod Discovery
pub mod Sorting
use slipstream_contracts.Common.{
  ℕ, Bool, true, false, ◌&&◌, Option, none, some, List, [], ◌∷◌, leb, ◌==◌, if◌then◌else◌,
}
use slipstream_contracts.Harness.Text.{Text, lit, text_le, join_path}

pub record Pattern : Type 0 where
  pub name : Text
  pub dir : Text
  pub naive : Option Text
  pub optimized : Option Text

abbrev pub is_some : {A : Type 0} → Option A → Bool
is_some none = false
is_some (some _) = true

unfoldable pub is_complete : Pattern → Bool
is_complete p = is_some p.naive && is_some p.optimized

abbrev pub is_ascii_digit : ℕ → Bool
is_ascii_digit b = leb b'0' b && leb b b'9'

unfoldable pub is_pattern_name : Text → Bool
is_pattern_name (a ∷ b ∷ c ∷ _) = is_ascii_digit a && is_ascii_digit b && c == b'-'
is_pattern_name _ = false

-- An entry of a directory: its path, and its name where that is valid UTF-8.
pub record DirEntry : Type 0 where
  pub path : Text
  pub file_name : Option Text

-- `read_dir` fails as a whole (`none`), or entry by entry.
pub record FileSystem : Type 0 where
  pub read_dir : Text → Option (List (Option DirEntry))
  pub is_dir : Text → Bool

-- `path.is_dir().then_some(path)`
abbrev pub side : FileSystem → Text → Option Text
side fs path = if fs.is_dir path then some path else none

-- The pattern that the loop pushes for a directory with a pattern name.
unfoldable pub pattern_at : FileSystem → Text → Text → Pattern
pattern_at fs path name = record {
  name = name;
  dir = path;
  naive = side fs (join_path path (lit "naive"));
  optimized = side fs (join_path path (lit "optimized"));
}

abbrev pub named : FileSystem → Text → Option Text → List Pattern → List Pattern
named fs path none rest = rest
named fs path (some name) rest =
    if is_pattern_name name then pattern_at fs path name ∷ rest else rest

-- The loop over the entries.
unfoldable pub collect : FileSystem → List (Option DirEntry) → List Pattern
collect fs [] = []
collect fs (none ∷ entries) = collect fs entries
collect fs (some entry ∷ entries) =
    let rest = collect fs entries in
    if fs.is_dir entry.path then named fs entry.path entry.file_name rest else rest

-- `patterns.sort_by(|a, b| a.name.cmp(&b.name))`, a stable sort.
unfoldable pub insert_by_name : Pattern → List Pattern → List Pattern
insert_by_name p [] = p ∷ []
insert_by_name p (q ∷ ps) = if text_le p.name q.name then p ∷ q ∷ ps else q ∷ insert_by_name p ps

unfoldable pub sort_by_name : List Pattern → List Pattern
unfolding insert_by_name
sort_by_name [] = []
sort_by_name (p ∷ ps) = insert_by_name p (sort_by_name ps)

abbrev pub discovered : FileSystem → Option (List (Option DirEntry)) → List Pattern
discovered fs none = []
discovered fs (some entries) = sort_by_name (collect fs entries)

unfoldable pub discover_patterns : FileSystem → Text → List Pattern
unfolding collect sort_by_name
discover_patterns fs patterns_dir = discovered fs (fs.read_dir patterns_dir)
