-- ===== src/Linux.antt =====
-- What the resolvers for Linux, lib/src/facts/linux, see of the machine: its files, the output of
-- commands, and the searches and splits of boost.
pub mod Virtualization
pub mod Hypervisor
pub mod System
pub mod Names
pub mod Release
pub mod Meminfo
pub mod Processors
pub mod ReleaseInfo
pub mod Collecting
use Prim.Native.String.{[], ◌∷◌}
use facter.Base.{
  ℕ, String, Char, code, Bool, true, false, ◌||◌, Option, none, some, List, [], ◌∷◌, ◌=?◌,
  if◌then◌else◌, is_empty_str,
}
use facter.Base.Int.{ℤ}
use facter.Resolvers.{starts_with}

-- What `stoi` gives, or which exception it throws.
pub data Stoi : Type 0 where
  number : ℤ → Stoi
  invalid_argument out_of_range : Stoi

-- The fields of `utsname` that are read.
pub record Uname : Type 0 where
  pub sysname : String
  pub release : String
  pub machine : String

pub record Machine : Type 0 where
  pub is_regular_file : String → Bool
  pub is_directory : String → Bool
  pub exists : String → Bool
  -- `boost::filesystem::is_empty`
  pub is_empty_path : String → Bool
  -- what `file::read` gives, and the lines that `file::each_line` reads if it can open the file
  pub contents : String → String
  pub lines : String → Option (List String)
  -- the lines of a command's output, and the output of one that succeeds
  pub output_lines : String → List String
  pub execute : String → List String → Option String
  -- `boost::split` at white space or at colons, neighbouring ones taken together
  pub split_spaces : String → List String
  pub split_colons : String → List String
  -- the subdirectories whose name matches a regular expression, in the order of the iteration
  pub subdirectories : String → String → List String
  -- `uname`, if it succeeds
  pub uname : Option Uname
  -- `lexical_cast<uint64_t>`, if it does not throw
  pub lexical_cast : String → Option ℕ
  pub stoi : String → Stoi
  -- `boost::trim`, `boost::trim_right`
  pub trim : String → String
  pub trim_right : String → String
  -- `re_search` of a text for a regular expression: the groups that it matched
  pub search : String → String → Option (List String)

-- `string::find`, as a test; `boost::contains`
unfoldable pub has_text : String → String → Bool
unfolding starts_with
has_text s [] = starts_with s []
has_text s (c ∷ t) = starts_with s (c ∷ t) || has_text s t

abbrev pub is_match : Machine → String → String → Bool
is_match m text regex = elim (m.search text regex) [ none ↦ false | some groups ↦ true ]

-- A callback of `each_line` that ends the loop where it sets the value.
unfoldable pub first_value : (String → Option String) → List String → String
first_value f [] = ""
first_value f (line ∷ lines) = elim (f line) [ some value ↦ value | none ↦ first_value f lines ]

abbrev pub lines_of : Machine → String → List String
lines_of m file = elim (m.lines file) [ none ↦ [] | some lines ↦ lines ]

-- The name that stands by the first regular expression that matches.
unfoldable pub first_match : Machine → List (String × String) → String → Option String
first_match m [] text = none
first_match m ((regex, name) ∷ table) text =
    let rest = first_match m table text in if is_match m text regex then some name else rest

-- A file that is there is said to be of the first name.
unfoldable pub first_file : Machine → List (String × String) → String
first_file m [] = ""
first_file m ((file, name) ∷ table) =
    let rest = first_file m table in if m.is_regular_file file then name else rest
