-- ===== src/Ruby/Module/Loading.antt =====
-- What loading does to the registry, and how deep files go that make others load.
use facter.Base.{
  ℕ, suc, ◌≤◌, ◌<◌, String, ◌≡◌, refl, ◌∙◌, inl, inr, Bool, true, false, ◌||◌, List, [], ◌∷◌, ◌++◌,
  any, keep, ◌==◌, eq_iff, eq_refl, if◌then◌else◌, arith, Bool-cases,
}
use facter.Ruby.Fact.{Fact}
use facter.Ruby.Module.{
  Disk, Registry, contains, has_fact, change_fact, new_fact, create_fact, add_fact,
}

-- No file stands twice in the list.
abbrev pub IsOnce : List String → Type 0
IsOnce [] = Unit
IsOnce (p ∷ ps) = (contains p ps ≡ false) × IsOnce ps

-- How many of the files have not been loaded.
unfoldable pub remaining : List String → List String → ℕ
remaining [] loaded = 0
remaining (p ∷ ps) loaded =
    if contains p loaded then remaining ps loaded else suc (remaining ps loaded)

remaining-le :
    (p : String) (files loaded : List String)
    → remaining files (p ∷ loaded) ≤ remaining files loaded
unfolding remaining contains
remaining-le p [] loaded = omega arith
remaining-le p (q ∷ files) loaded = ground (arith, remaining-le p files loaded)

pub remaining-lt :
    (p : String) (files loaded : List String)
    → contains p files ≡ true
    → contains p loaded ≡ false
    → remaining files (p ∷ loaded) < remaining files loaded
unfolding remaining contains
remaining-lt p [] loaded h k = ground arith
remaining-lt p (q ∷ files) loaded h k =
    ground (arith, remaining-lt p files loaded, remaining-le p files loaded, eq_iff q p, eq_iff p q)

pub contains-keep :
    (t : String → Bool) (p : String) (l : List String)
    → contains p (keep t l) ≡ true
    → contains p l ≡ true
unfolding contains
contains-keep t p [] h = h
contains-keep t p (q ∷ l) h = ground (arith, contains-keep t p l)

pub contains-tail :
    (p q : String) (l : List String) → contains p l ≡ true → contains p (q ∷ l) ≡ true
unfolding contains
contains-tail p q l h = ground arith

pub contains-head : (p : String) (l : List String) → contains p (p ∷ l) ≡ true
unfolding contains
contains-head p l = ground (arith, eq_refl p)

has_fact-append :
    (name : String) (fs gs : List (String × Fact))
    → has_fact name (fs ++ gs) ≡ (has_fact name fs || has_fact name gs)
unfolding has_fact
has_fact-append name [] gs = refl
has_fact-append name ((k, f) ∷ fs) gs = ground (arith, has_fact-append name fs gs)

has_fact-change_fact :
    (name k : String) (g : Fact → Fact) (fs : List (String × Fact))
    → has_fact name (change_fact k g fs) ≡ has_fact name fs
unfolding has_fact change_fact
has_fact-change_fact name k g [] = refl
has_fact-change_fact name k g ((j, f) ∷ fs) = ground (arith, has_fact-change_fact name k g fs)

pub has_fact-create_fact :
    (name k : String) (r : Registry)
    → has_fact name (create_fact k r).facts ≡ (has_fact name r.facts || k == name)
unfolding create_fact has_fact
has_fact-create_fact name k r =
    ground (arith, has_fact-append name r.facts ((k, new_fact k) ∷ []), eq_iff k name)

module _ (disk : Disk) where
  -- Every file that is listed in a directory of the search path was loaded.
  abbrev pub IsThorough : Registry → Type 0
  IsThorough r =
      (p : String)
      → contains p disk.files ≡ true
      → any (λ dir. disk.is_listed dir p) r.search_paths ≡ true
      → contains p r.loaded_files ≡ true

  -- No file was loaded twice, and all were where the flag says so.
  pub record IsWellFormed (r : Registry) : Type 0 where
    pub once : IsOnce r.loaded_files
    pub thorough : r.loaded_all ≡ true → IsThorough r

  -- What may change from one registry to a later one.
  pub record Extends (a b : Registry) : Type 0 where
    pub left : remaining disk.files b.loaded_files ≤ remaining disk.files a.loaded_files
    pub paths : b.search_paths ≡ a.search_paths
    pub files : (p : String) → contains p a.loaded_files ≡ true → contains p b.loaded_files ≡ true
    pub facts : (name : String) → has_fact name a.facts ≡ true → has_fact name b.facts ≡ true
    pub well_formed : IsWellFormed a → IsWellFormed b

  pub Extends-refl : (a : Registry) → Extends a a
  Extends-refl a = record {
    left = omega arith;
    paths = refl;
    files = λ p h. h;
    facts = λ n h. h;
    well_formed = λ w. w;
  }

  pub Extends-trans : {a b c : Registry} → Extends a b → Extends b c → Extends a c
  Extends-trans x y = record {
    left = omega (arith, x.left, y.left);
    paths = y.paths ∙ x.paths;
    files = λ p h. y.files p (x.files p h);
    facts = λ n h. y.facts n (x.facts n h);
    well_formed = λ w. y.well_formed (x.well_formed w);
  }

  Extends-facts :
      (a : Registry) (fs : List (String × Fact))
      → ((name : String) → has_fact name a.facts ≡ true → has_fact name fs ≡ true)
      → Extends a (record a { facts = fs })
  Extends-facts a fs h = record {
    left = omega arith;
    paths = refl;
    files = λ p k. k;
    facts = h;
    well_formed = λ w. record { once = w.once; thorough = w.thorough };
  }

  pub create_fact-Extends : (name : String) (a : Registry) → Extends a (create_fact name a)
  unfolding create_fact
  create_fact-Extends name a = elim (Bool-cases (has_fact name a.facts)) [
    | inl e ↦ rw e (Extends-refl a)
    | inr e ↦ rw e (
        Extends-facts a (a.facts ++ (name, new_fact name) ∷ [])
          λ k h. ground (arith, has_fact-append k a.facts ((name, new_fact name) ∷ [])))
  ]

  pub add_fact-Extends :
      (name : String) (g : Fact → Fact) (a : Registry) → Extends a (add_fact name g a)
  unfolding add_fact
  add_fact-Extends name g a =
      let created = create_fact name a in
      Extends-trans (create_fact-Extends name a) (
        Extends-facts created (change_fact name g created.facts)
          λ k h. has_fact-change_fact k name g created.facts ∙ h)

  pub insert-Extends :
      (p : String) (a : Registry)
      → contains p a.loaded_files ≡ false
      → Extends a (record a { loaded_files = p ∷ a.loaded_files })
  insert-Extends p a h = record {
    left = remaining-le p disk.files a.loaded_files;
    paths = refl;
    files = λ q k. contains-tail q p a.loaded_files k;
    facts = λ n k. k;
    well_formed = λ w. record {
      once = (h, w.once);
      thorough = λ e q k l. contains-tail q p a.loaded_files (w.thorough e q k l);
    };
  }

  pub all-Extends : (a : Registry) → IsThorough a → Extends a (record a { loaded_all = true })
  all-Extends a h = record {
    left = omega arith;
    paths = refl;
    files = λ p k. k;
    facts = λ n k. k;
    well_formed = λ w. record { once = w.once; thorough = λ e. h };
  }
