-- ===== src/Linux/Meminfo.antt =====
-- lib/src/facts/linux/memory_resolver.cc: the sizes that /proc/meminfo gives. They are `uint64_t`,
-- in bytes.
pub mod Sums
use facter.Base.{
  ℕ, ◌+◌, ◌*◌, ◌%◌, ◌^◌, String, ◌||◌, Option, none, some, List, [], ◌∷◌, if◌then◌else◌,
}
use facter.Resolvers.{starts_with}
use facter.Resolvers.Memory.{Memory, unknown}
use facter.Linux.{Machine, lines_of}

-- What `variable` points to.
pub data Counter : Type 0 where
  total_memory free_memory total_swap free_swap : Counter

unfoldable pub variable_of : String → Option Counter
unfolding starts_with
variable_of line =
    if starts_with "MemTotal:" line
    then some total_memory
    else if starts_with "MemFree:" line
        || (starts_with "Buffers:" line || starts_with "Cached:" line)
    then some free_memory
    else if starts_with "SwapTotal:" line
    then some total_swap
    else if starts_with "SwapFree:" line
    then some free_swap
    else none

abbrev pub second_part : Machine → List String → Option ℕ
second_part m (label ∷ size ∷ rest) = m.lexical_cast size
second_part m _ = none

-- A line with one part, or whose second part is no number, is passed over.
abbrev pub amount : Machine → String → Option ℕ
amount m line = second_part m (m.split_spaces line)

abbrev pub plus : ℕ → ℕ → ℕ
plus size n = (size + n * 1024) % 2 ^ 64

unfoldable pub add_to : Counter → ℕ → Memory → Memory
add_to total_memory n d = record d { mem_total = plus d.mem_total n }
add_to free_memory n d = record d { mem_free = plus d.mem_free n }
add_to total_swap n d = record d { swap_total = plus d.swap_total n }
add_to free_swap n d = record d { swap_free = plus d.swap_free n }

abbrev pub add_amount : Option Counter → Option ℕ → Memory → Memory
unfolding add_to
add_amount (some c) (some n) d = add_to c n d
add_amount _ _ d = d

-- The callback of `each_line`, which never ends the loop.
unfoldable pub read_line : Machine → String → Memory → Memory
unfolding variable_of add_to
read_line m line d = add_amount (variable_of line) (amount m line) d

unfoldable pub read_lines : Machine → List String → Memory → Memory
unfolding read_line
read_lines m [] d = d
read_lines m (line ∷ lines) d = read_lines m lines (read_line m line d)

abbrev pub no_memory : Memory
no_memory = record {
  mem_total = 0;
  mem_free = 0;
  swap_total = 0;
  swap_free = 0;
  swap_encryption = unknown;
}

unfoldable pub collect_memory : Machine → Memory
unfolding read_lines
collect_memory m = read_lines m (lines_of m "/proc/meminfo") no_memory
