-- ===== src/Linux/Meminfo/Sums.antt =====
-- What the lines of /proc/meminfo add up to: lib/src/facts/linux/memory_resolver.cc.
use facter.Base.{
  ℕ, ◌+◌, ◌*◌, ◌%◌, ◌^◌, String, ◌≡◌, refl, ◌∙◌, ap, Bool, true, false, Option, none, some, List,
  [], ◌∷◌, if◌then◌else◌, arith,
}
use facter.Resolvers.{starts_with}
use facter.Resolvers.Beginnings.{starts_with-other}
use facter.Resolvers.Memory.{Memory}
use facter.Linux.{Machine, lines_of}
use facter.Linux.Meminfo.{
  Counter, total_memory, free_memory, total_swap, free_swap, variable_of, amount, add_to,
  add_amount, read_line, read_lines, no_memory, collect_memory,
}

abbrev get : Counter → Memory → ℕ
get total_memory d = d.mem_total
get free_memory d = d.mem_free
get total_swap d = d.swap_total
get free_swap d = d.swap_free

-- The bytes of an amount in kB.
abbrev bytes : Option ℕ → ℕ
bytes none = 0
bytes (some n) = n * 1024

abbrev same : Counter → Counter → Bool
same total_memory total_memory = true
same free_memory free_memory = true
same total_swap total_swap = true
same free_swap free_swap = true
same _ _ = false

abbrev counted : Counter → Option Counter → Option ℕ → ℕ
counted c none a = 0
counted c (some v) a = if same c v then bytes a else 0

get-add_amount :
    (c : Counter) (o : Option Counter) (a : Option ℕ) (d : Memory) (t : ℕ)
    → get c d ≡ t % 2 ^ 64
    → get c (add_amount o a d) ≡ (t + counted c o a) % 2 ^ 64
unfolding add_to
get-add_amount c none a d t h = ground (arith, h)
get-add_amount c (some v) none d t h = ground (arith, h)
get-add_amount total_memory (some v) (some n) d t h = grind arith
get-add_amount free_memory (some v) (some n) d t h = grind arith
get-add_amount total_swap (some v) (some n) d t h = grind arith
get-add_amount free_swap (some v) (some n) d t h = grind arith

-- The bytes that a line gives under a label.
abbrev under : String → String → Option ℕ → ℕ
under label line a = if starts_with label line then bytes a else 0

-- What a line counts for is what it gives under the labels of the counter.
abbrev labelled : Counter → String → Option ℕ → ℕ
labelled total_memory line a = under "MemTotal:" line a
labelled free_memory line a =
    under "MemFree:" line a + (under "Buffers:" line a + under "Cached:" line a)
labelled total_swap line a = under "SwapTotal:" line a
labelled free_swap line a = under "SwapFree:" line a

counted-labelled :
    (c : Counter) (line : String) (a : Option ℕ)
    → counted c (variable_of line) a ≡ labelled c line a
unfolding variable_of starts_with
counted-labelled total_memory line a = ground (arith)
counted-labelled free_memory line a = ground (
  arith,
  starts_with-other "MemTotal:" "MemFree:" line refl refl,
  starts_with-other "MemTotal:" "Buffers:" line refl refl,
  starts_with-other "MemTotal:" "Cached:" line refl refl,
  starts_with-other "MemFree:" "Buffers:" line refl refl,
  starts_with-other "MemFree:" "Cached:" line refl refl,
  starts_with-other "Buffers:" "Cached:" line refl refl,
)
counted-labelled total_swap line a = ground (
  arith,
  starts_with-other "MemTotal:" "SwapTotal:" line refl refl,
  starts_with-other "MemFree:" "SwapTotal:" line refl refl,
  starts_with-other "Buffers:" "SwapTotal:" line refl refl,
  starts_with-other "Cached:" "SwapTotal:" line refl refl,
)
counted-labelled free_swap line a = ground (
  arith,
  starts_with-other "MemTotal:" "SwapFree:" line refl refl,
  starts_with-other "MemFree:" "SwapFree:" line refl refl,
  starts_with-other "Buffers:" "SwapFree:" line refl refl,
  starts_with-other "Cached:" "SwapFree:" line refl refl,
  starts_with-other "SwapTotal:" "SwapFree:" line refl refl,
)

sum_of : (String → ℕ) → List String → ℕ
sum_of f [] = 0
sum_of f (x ∷ xs) = f x + sum_of f xs

module _ (m : Machine) where
  get-read_lines :
      (c : Counter) (lines : List String) (d : Memory) (t : ℕ)
      → get c d ≡ t % 2 ^ 64
      → get c (read_lines m lines d)
        ≡ (t + sum_of (λ line. labelled c line (amount m line)) lines) % 2 ^ 64
  unfolding read_lines read_line sum_of
  get-read_lines c [] d t h = omega (arith, h)
  get-read_lines c (line ∷ lines) d t h =
      get-read_lines c lines (read_line m line d) (t + labelled c line (amount m line)) (
        get-add_amount c (variable_of line) (amount m line) d t h
        ∙ ap (λ n. (t + n) % 2 ^ 64) (counted-labelled c line (amount m line)))
      ∙ omega arith

  -- The bytes that stand under a label in /proc/meminfo, in all its lines together.
  abbrev pub total_under : String → List String → ℕ
  unfolding sum_of
  total_under label lines = sum_of (λ line. under label line (amount m line)) lines

  sum_of-free :
      (lines : List String)
      → sum_of (λ line. labelled free_memory line (amount m line)) lines
        ≡ total_under "MemFree:" lines
          + (total_under "Buffers:" lines + total_under "Cached:" lines)
  unfolding sum_of
  sum_of-free [] = omega arith
  sum_of-free (line ∷ lines) = omega (arith, sum_of-free lines)

  -- The sizes that are collected are the sums of what stands under their labels, modulo 2 ^ 64: free
  -- memory is what is free, what buffers hold and what is cached. Lines without a number count
  -- for nothing, and there may be several lines with one label.
  pub collect_memory-sums :
      let lines = lines_of m "/proc/meminfo" in
      ((collect_memory m).mem_total ≡ total_under "MemTotal:" lines % 2 ^ 64)
      × ((collect_memory m).mem_free
          ≡ (total_under "MemFree:" lines
              + (total_under "Buffers:" lines + total_under "Cached:" lines))
            % 2 ^ 64)
      × ((collect_memory m).swap_total ≡ total_under "SwapTotal:" lines % 2 ^ 64)
      × ((collect_memory m).swap_free ≡ total_under "SwapFree:" lines % 2 ^ 64)
  unfolding collect_memory sum_of total_under
  collect_memory-sums =
      let lines : List String = lines_of m "/proc/meminfo" in
      (
        get-read_lines total_memory lines no_memory 0 (omega arith) ∙ omega arith,
        get-read_lines free_memory lines no_memory 0 (omega arith)
            ∙ omega (arith, sum_of-free lines),
        get-read_lines total_swap lines no_memory 0 (omega arith) ∙ omega arith,
        get-read_lines free_swap lines no_memory 0 (omega arith) ∙ omega arith,
      )
