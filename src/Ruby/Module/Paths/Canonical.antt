-- ===== src/Ruby/Module/Paths/Canonical.antt =====
-- An invariant of the search paths of lib/src/ruby/module.cc.
use facter.Base.{
  String, ◌≡◌, refl, false, not, Option, none, some, List, [], ◌∷◌, ◌++◌, map, keep, All,
  is_empty_str, Option-cases, inl, inr,
}
use facter.Ruby.Value.{
  Ruby, text, ruby_nil, ruby_false, ruby_true, symbol, number, object, array, hash,
}
use facter.Ruby.Module.Paths.{
  Directories, Paths, path_or_empty, initialize_search_paths, push_canonical, search_one,
  ruby_search, search_external_one, ruby_search_external, reset_paths,
}

-- Each call of the API that changes the paths.
pub data Step (d : Directories) : Paths → Paths → Type 0 where
  search : (vs : List Ruby) (p : Paths) → Step d p (ruby_search d vs p)
  search_external : (vs : List Ruby) (p : Paths) → Step d p (ruby_search_external d vs p)
  reset : (p : Paths) → Step d p (reset_paths d p)

pub data Reach (d : Directories) (given : List String) (p : Paths) : Paths → Type 0 where
  start : Reach d given p (initialize_search_paths d given p)
  next : {q r : Paths} → Reach d given p q → Step d q r → Reach d given p r

-- `canonical` gives a path that is there, and whose canonical form is the path itself.
abbrev pub IsStable : Directories → Type 0
IsStable d =
    (s t : String) → d.canonical s ≡ some t → (d.canonical t ≡ some t) × (is_empty_str t ≡ false)

abbrev pub IsCanonical : Directories → String → Type 0
IsCanonical d s = (d.canonical s ≡ some s) × (is_empty_str s ≡ false)

abbrev pub AreCanonical : Directories → Paths → Type 0
AreCanonical d p = All (IsCanonical d) p.search_paths

All-append : (P : String → Type 0) (xs ys : List String) → All P xs → All P ys → All P (xs ++ ys)
All-append P [] ys h k = k
All-append P (x ∷ xs) ys (h, hs) k = (h, All-append P xs ys hs k)

module _ (d : Directories) (stable : IsStable d) where
  keep-IsCanonical :
      (xs : List String)
      → All
          (IsCanonical d)
          (keep (λ s. not (is_empty_str s)) (map (λ s. path_or_empty d (d.canonical s)) xs))
  keep-IsCanonical [] = tt
  keep-IsCanonical (x ∷ xs) = elim (Option-cases (d.canonical x)) [
    | inl e ↦ rw e (keep-IsCanonical xs)
    | inr (t, e) ↦ rw e (rw ((stable x t e).1) (stable x t e, keep-IsCanonical xs))
  ]

  push-IsCanonical :
      (s : String) (o : Option String) (p : Paths)
      → d.canonical s ≡ o
      → All (IsCanonical d) p.search_paths
      → All (IsCanonical d) (push_canonical d o p).search_paths
  push-IsCanonical s none p e h = h
  push-IsCanonical s (some t) p e h =
      All-append (IsCanonical d) p.search_paths (t ∷ []) h (stable s t e, tt)

  search_one-AreCanonical :
      (v : Ruby) (p : Paths) → AreCanonical d p → AreCanonical d (search_one d v p)
  search_one-AreCanonical (text s) p h =
      push-IsCanonical s (d.canonical s)
        (record p { additional_search_paths = p.additional_search_paths ++ s ∷ [] }) refl h
  search_one-AreCanonical ruby_nil p h = h
  search_one-AreCanonical ruby_false p h = h
  search_one-AreCanonical ruby_true p h = h
  search_one-AreCanonical (symbol s) p h = h
  search_one-AreCanonical (number n) p h = h
  search_one-AreCanonical (object n) p h = h
  search_one-AreCanonical (array xs) p h = h
  search_one-AreCanonical (hash ps) p h = h

  ruby_search-AreCanonical :
      (vs : List Ruby) (p : Paths) → AreCanonical d p → AreCanonical d (ruby_search d vs p)
  unfolding ruby_search
  ruby_search-AreCanonical [] p h = h
  ruby_search-AreCanonical (v ∷ vs) p h =
      ruby_search-AreCanonical vs (search_one d v p) (search_one-AreCanonical v p h)

  external_one-AreCanonical :
      (v : Ruby) (p : Paths) → AreCanonical d p → AreCanonical d (search_external_one d v p)
  external_one-AreCanonical (text s) p h = h
  external_one-AreCanonical ruby_nil p h = h
  external_one-AreCanonical _ p h = h

  ruby_search_external-AreCanonical :
      (vs : List Ruby) (p : Paths) → AreCanonical d p → AreCanonical d (ruby_search_external d vs p)
  unfolding ruby_search_external
  ruby_search_external-AreCanonical [] p h = h
  ruby_search_external-AreCanonical (v ∷ vs) p h =
      ruby_search_external-AreCanonical vs (search_external_one d v p)
        (external_one-AreCanonical v p h)

  Step-AreCanonical : {p q : Paths} → Step d p q → AreCanonical d p → AreCanonical d q
  unfolding reset_paths initialize_search_paths
  Step-AreCanonical (search vs p) h = ruby_search-AreCanonical vs p h
  Step-AreCanonical (search_external vs p) h = ruby_search_external-AreCanonical vs p h
  Step-AreCanonical (reset p) h = keep-IsCanonical _

  -- Whatever paths the module is made with and whatever is called afterwards, every directory that is
  -- searched for custom facts is one that is there, under its canonical name, where `canonical` gives
  -- such names.
  pub Reach-AreCanonical :
      (given : List String) {p q : Paths} → Reach d given p q → AreCanonical d q
  unfolding initialize_search_paths
  Reach-AreCanonical given start = keep-IsCanonical _
  Reach-AreCanonical given (next r s) = Step-AreCanonical s (Reach-AreCanonical given r)
