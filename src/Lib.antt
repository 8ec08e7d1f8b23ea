-- ===== src/Lib.antt =====
-- Facter: a program and library that gathers facts about a machine.
--
-- A fact is a named value. Resolvers compute facts and are asked as late as possible: a collection
-- keeps the resolvers by the names and the patterns that they declare, and runs those that could
-- provide a fact when the fact is asked for. A resolver that runs may itself ask the collection and
-- adds what it found. Files of external facts and variables of the environment add facts at once,
-- and custom facts written in Ruby choose among weighted resolutions, whose chunks may depend on
-- one another.
--
-- Base: the shared names, and small helpers on numbers, tests, lists and texts; Base/Int the
--   64-bit conversions, Base/Lower and Base/Text the comparisons of texts.
-- Values (lib/inc/facter/facts/*_value.hpp, lib/src/facts/array_value.cc, map_value.cc): the tree
--   of a fact's value. `std::map` is `Fields`, a list kept in the order of its keys.
-- Collection (lib/src/facts/collection.cc, resolver.cc): the state is the facts, the list of
--   resolvers, the multimap by name and the list of those with patterns; a pointer is a number, and
--   `heap` says which resolver it points to. The operations keep their names; the two overloads of
--   `add` and `remove` are `add`, `add_resolver`, `remove_fact`, `remove_resolver`. A loop over an
--   iterator that the resolver it runs may have erased ends as `dangling`.
-- Query (`query_value` and `lookup` of lib/src/facts/collection.cc).
-- External/Json, External/Yaml, External/Lines (lib/src/facts/external, lib/src/util/posix,
--   `add_environment_facts` of lib/src/facts/collection.cc): the calls of `collection::add`, in
--   order, for a document, a file of lines or the environment.
-- Ruby (lib/src/ruby): Ruby/Merge and Ruby/Chunk are aggregate_resolution.cc and chunk.cc,
--   Ruby/Resolution and Ruby/Confines are confine.cc, resolution.cc and simple_resolution.cc, Ruby/Fact is
--   fact.cc; `std::sort` is an argument that is given the comparison by weight.
--   Ruby/Module is the registry of module.cc: which files are loaded, and in which order;
--   Ruby/Module/Paths the search paths, Ruby/Module/Population the facts that the environment
--   sets, Ruby/Module/Execute the commands that custom facts run.
--   Ruby/Written is ruby_value.cc with `to_ruby` of api.cc: how a Ruby value is written.
-- Resolvers (lib/src/facts/resolvers): what a built-in resolver adds, given the data that the
--   platform collected: Resolvers/Dmi, Resolvers/Uptime, Resolvers/Ssh, Resolvers/Memory,
--   Resolvers/Networking, Resolvers/System, Resolvers/Processors, Resolvers/Disk,
--   Resolvers/Filesystem, Resolvers/Zone, Resolvers/Kernel, Resolvers/Identity,
--   Resolvers/Profiler (system_profiler_resolver.cc), Resolvers/Tools for the short ones,
--   Resolvers/Gce, the handler of the events of GCE's metadata, and Resolvers/Ec2, the walk over
--   that of EC2.
-- Execution (lib/src/execution/execution.cc): the lines of a command's output; `Stream` is the
--   buffer of `process_data` and the lines that the callback was given. Execution/Command is
--   `expand_command`, with `which` of lib/src/execution/posix/execution.cc.
-- Text (lib/src/util/string.cc): lines, quoting, hexadecimal digits, sizes and frequencies.
-- Output (`write` and `to_json` of the values, `write` of the collection): what is appended to the
--   stream, or handed to rapidjson and yaml-cpp, in the three formats.
-- Linux (lib/src/facts/linux/os_linux.cc, virtualization_resolver.cc, and
--   lib/src/facts/resolvers/virtualization_resolver.cc): the name, family and release of the system,
--   and its hypervisor. A `Machine` is the files, the output of commands and the searches of boost.
--   Linux/Collecting and Linux/ReleaseInfo are operating_system_resolver.cc with the reading of
--   os-release, Linux/Meminfo and Linux/Processors are memory_resolver.cc and processor_resolver.cc.
-- CommandLine (exe/facter.cc): conflicts of options, queries, and the calls on the collection.
-- Tests: the concrete inputs on which the theorems are applied.
--
-- Fuel. A resolver is taken out before it runs, so that calls nest at most as deep as there are
-- resolvers: `exec` is given their number, and `resolve_rounds` as many rounds. A chunk is marked
-- while it is resolved, so that `find_chunk` nests at most once deeper than there are chunks that
-- are not marked.
-- The value of an aggregate resolution is given fuel for one chunk more than it has.
-- A file of custom facts is noted before it is loaded, so that `load` nests at most as deep as there
-- are files that were not loaded.
-- The categories of EC2's metadata are followed as deep as the fuel says, which is more than they
-- nest deep; nothing in the code bounds the walk.
--
-- Not modelled: exceptions that leave a resolver, the logging, most of the collection of data on
-- each platform, processes, directories, HTTP and the binding to the Ruby interpreter (a block is a
-- function that may raise). `std::sort`, boost's formats, searches and splitting, floating-point
-- arithmetic, the printing of numbers, yaml-cpp's decoding of scalars and what is asked of Ruby are
-- arguments. The names that one resolver declares are taken to be distinct. A text that a callback
-- of rapidjson has as `char const*` ends at its first null character (`c_str` of Base/Text).
pub mod Base
pub mod Values
pub mod Collection
pub mod Query
pub mod External
pub mod Ruby
pub mod Resolvers
pub mod Execution
pub mod Tests
pub mod Text
pub mod Output
pub mod CommandLine
pub mod Linux
