-- ===== src/Resolvers/Kernel.antt =====
-- lib/src/facts/resolvers/kernel_resolver.cc, with the data of
-- lib/inc/internal/facts/resolvers/kernel_resolver.hpp, and what
-- lib/src/facts/posix/kernel_resolver.cc and lib/src/facts/linux/kernel_resolver.cc collect.
use Prim.Native.String.{[], ◌∷◌}
use facter.Base.{
  ℕ, code, String, false, Option, none, some, List, [], ◌∷◌, ◌++◌, ◌=?◌, if◌then◌else◌,
  is_empty_str, ◌<>◌,
}
use facter.Values.{string_value}
use facter.Collection.{Resolver}
use facter.Resolvers.{Adds, publish}
use facter.Linux.{Machine, Uname}

pub record Kernel : Type 0 where
  pub name : String
  pub release : String
  pub version : String

abbrev pub visible_fact : String → String → Adds
visible_fact name s = if is_empty_str s then [] else (name, string_value false s) ∷ []

-- What stands before a character, and behind it.
unfoldable pub split_at : ℕ → String → String × Option String
split_at character [] = ("", none)
split_at character (c ∷ s) =
    let (before, after) = split_at character s in
    if code c =? character then ("", some s) else (c ∷ before, after)

-- `parse_version` of the base class: up to the second dot, or else the first.
abbrev pub version_parts : String → Option String → String → Option String → String × String
version_parts first none second rest = (first, "")
version_parts first (some after) second none = (first, after)
version_parts first (some after) second (some rest) = (first <> ("." <> second), rest)

abbrev pub from_option : Option String → String
from_option none = ""
from_option (some s) = s

unfoldable pub parse_version : String → String × String
unfolding split_at
parse_version version =
    let (first, after) = split_at b'.' version in
    let (second, rest) = split_at b'.' (from_option after) in version_parts first after second rest

-- `parse_version` on Linux
abbrev pub groups_of : String → Option (List String) → String × String
groups_of version (some (major ∷ minor ∷ rest)) = (major, minor)
groups_of version (some (major ∷ [])) = (major, "")
groups_of version (some []) = ("", "")
groups_of version none = (version, "")

unfoldable pub linux_parse_version : Machine → String → String × String
linux_parse_version m version = groups_of version (m.search version "(\\d+\\.\\d+)(.*)")

unfoldable pub kernel_adds : (String → String × String) → Kernel → Adds
kernel_adds parse d =
    visible_fact "kernel" d.name
    ++ (visible_fact "kernelrelease" d.release
        ++ (if is_empty_str d.version
            then []
            else visible_fact "kernelmajversion" ((parse d.version).0)
              ++ ("kernelversion", string_value false d.version) ∷ []))

-- `collect_data` on POSIX
abbrev pub kernel_of : Option Uname → Kernel
unfolding split_at
kernel_of none = record { name = ""; release = ""; version = "" }
kernel_of (some u) = record {
  name = u.sysname;
  release = u.release;
  version = (split_at b'-' u.release).0;
}

unfoldable pub kernel_resolver : Machine → Resolver
unfolding publish kernel_adds linux_parse_version split_at
kernel_resolver m = record {
  name = "kernel";
  names = "kernel" ∷ "kernelversion" ∷ "kernelrelease" ∷ "kernelmajversion" ∷ [];
  regexes = [];
  body = publish (kernel_adds (linux_parse_version m) (kernel_of m.uname));
}
