-- ===== src/Ruby/Confines/Weight.antt =====
-- Confines and the weight of a resolution: lib/src/ruby/resolution.cc.
use facter.Base.{
  ℕ, suc, ◌+◌, ◌≤◌, ◌≡◌, false, Option, none, some, List, [], ◌∷◌, ◌++◌, length, length-append,
  arith, Bool-cases, inl, inr,
}
use facter.Ruby.Value.{
  Ruby, ruby_nil, ruby_false, ruby_true, symbol, text, number, object, array, hash, Pairs, no_pairs,
  pair, Raise,
}
use facter.Ruby.Resolution.{Confine, Resolution, sym_to_s, weight}
use facter.Ruby.Confines.{
  Block, is_text, Outcome, with_block, confine_pairs, with_pairs, add_confines, confine,
}

abbrev pub count_pairs : Pairs → ℕ
count_pairs no_pairs = 0
count_pairs (pair k v ps) = suc (count_pairs ps)

-- How many confines an argument stands for.
abbrev pub count_confines : Ruby → ℕ
count_confines (hash ps) = count_pairs ps
count_confines v = 1

-- As many confines more where there was no exception, and else at most so many.
abbrev Grows : ℕ → List Confine → Outcome → Type 0
Grows n cs (ds, none) = length ds ≡ length cs + n
Grows n cs (ds, some e) = (length cs ≤ length ds) × (length ds ≤ length cs + n)

with_block-Grows :
    (fact : Ruby) (block : Option Block) (cs : List Confine) → Grows 1 cs (with_block fact block cs)
with_block-Grows fact none cs = (omega arith, omega arith)
with_block-Grows fact (some block) cs = length-append cs _

module _ (key_of : ℕ → Ruby) where
  later-Grows :
      (n : ℕ) (cs : List Confine) (c : Confine) (o : Outcome)
      → Grows n (cs ++ c ∷ []) o
      → Grows (suc n) cs o
  later-Grows n cs c (ds, none) h = omega (arith, h, length-append cs (c ∷ []))
  later-Grows n cs c (ds, some e) (h, k) =
      (omega (arith, h, length-append cs (c ∷ [])), omega (arith, k, length-append cs (c ∷ [])))

  confine_pairs-Grows :
      (ps : Pairs) (cs : List Confine) → Grows (count_pairs ps) cs (confine_pairs key_of ps cs)
  unfolding confine_pairs
  confine_pairs-Grows no_pairs cs = omega arith
  confine_pairs-Grows (pair k v ps) cs = elim (Bool-cases (is_text (sym_to_s (key_of k)))) [
    | inl e ↦ rw (confine_pairs, e) (later-Grows (count_pairs ps) cs _ _ (confine_pairs-Grows ps _))
    | inr e ↦ rw (confine_pairs, e) (omega arith, omega arith)
  ]

  add_confines-Grows :
      (v : Ruby) (block : Option Block) (cs : List Confine)
      → Grows (count_confines v) cs (add_confines key_of v block cs)
  unfolding add_confines with_pairs
  add_confines-Grows ruby_nil block cs = with_block-Grows ruby_nil block cs
  add_confines-Grows (text s) block cs = with_block-Grows (text s) block cs
  add_confines-Grows (hash ps) none cs = confine_pairs-Grows ps cs
  add_confines-Grows (hash ps) (some block) cs = (omega arith, omega arith)
  add_confines-Grows (symbol s) block cs = (omega arith, omega arith)
  add_confines-Grows (number n) block cs = (omega arith, omega arith)
  add_confines-Grows (object n) block cs = (omega arith, omega arith)
  add_confines-Grows (array xs) block cs = (omega arith, omega arith)
  add_confines-Grows ruby_false block cs = (omega arith, omega arith)
  add_confines-Grows ruby_true block cs = (omega arith, omega arith)

  -- What confining does to the weight of a resolution that has none of its own.
  abbrev pub Weighs : ℕ → Resolution → Resolution × Option Raise → Type 0
  Weighs n r (s, none) = weight s ≡ weight r + n
  Weighs n r (s, some e) = (weight r ≤ weight s) × (weight s ≤ weight r + n)

  weighs :
      (n : ℕ) (r : Resolution) (o : Outcome)
      → r.has_weight ≡ false
      → Grows n r.confines o
      → Weighs n r (record r { confines = o.0 }, o.1)
  unfolding weight
  weighs n r (ds, none) h g = rw h g
  weighs n r (ds, some e) h g = rw h g

  -- For a resolution with no weight of its own: confining it makes it heavier by one, or with a hash
  -- by the number of its pairs; where an exception is raised, it is not lighter, and at most so much
  -- heavier.
  pub confine-Weighs :
      (v : Ruby) (block : Option Block) (r : Resolution)
      → r.has_weight ≡ false
      → Weighs (count_confines (sym_to_s v)) r (confine key_of v block r)
  unfolding confine weight
  confine-Weighs v block r h =
      weighs (count_confines (sym_to_s v)) r (add_confines key_of (sym_to_s v) block r.confines) h
        (add_confines-Grows (sym_to_s v) block r.confines)
