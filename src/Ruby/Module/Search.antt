-- ===== src/Ruby/Module/Search.antt =====
-- Looking for a custom fact: `load_fact` of lib/src/ruby/module.cc.
use facter.Base.{
  ℕ, zero, suc, ◌≤◌, ◌<◌, String, ◌≡◌, refl, sym, ap, ◌∙◌, Bool, true, false, Option, some, List,
  [], ◌∷◌, any, eq_refl, if◌then◌else◌, ◌<>◌, arith,
}
use facter.Ruby.Module.{
  Script, finished, raised, add, ask, Disk, Registry, contains, has_fact, create_fact, add_fact,
  load_file, load_directories, load_facts, search_directories, load_others, load_fact, run_script,
  load,
}
use facter.Ruby.Module.Loading.{
  remaining, IsThorough, IsWellFormed, Extends, Extends-refl, Extends-trans, create_fact-Extends,
  add_fact-Extends, all-Extends, has_fact-create_fact,
}
use facter.Ruby.Module.Ensures.{Ensures, Ensures-bind, Ensures-map, Ensures-if}
use facter.Ruby.Module.Directories.{
  Fits, AndLoads, AndListed, Fits-Extends, load_file-AndLoads, load_directories-AndListed,
}

-- The fact is there, or it is neither there nor in the collection, and all files were loaded.
abbrev pub Found : (String → Bool) → String → Bool → Registry → Type 0
Found native name true r = has_fact name r.facts ≡ true
Found native name false r =
    (has_fact name r.facts ≡ false) × (native name ≡ false) × (r.loaded_all ≡ true)

abbrev pub Finds : Disk → (String → Bool) → String → Registry → Bool × Registry → Type 0
Finds disk native name a (b, r) = Extends disk a r × Found native name b r

module _ (disk : Disk) (native : String → Bool) (load : String → Registry → Option Registry) (n : ℕ)
    (loads : (p : String) (a : Registry)
      → remaining disk.files a.loaded_files < n
      → Ensures (Extends disk a) (load p a)) where
  abbrev HasFuel : Registry → Type 0
  HasFuel = Fits disk native load n loads

  abbrev AndDone : Registry → Registry → Type 0
  AndDone a b = Extends disk a b × (b.loaded_all ≡ true)

  load_facts-AndDone :
      (a : Registry) → HasFuel a → Ensures (AndDone a) (load_facts disk native load a)
  unfolding load_facts
  load_facts-AndDone a f =
      Ensures-if (AndDone a) a.loaded_all (some a) _ (λ e. (Extends-refl disk a, e))
        λ e.
          Ensures-bind (AndListed disk native load n loads a.search_paths a) (AndDone a)
            (load_directories disk native load a.search_paths a)
            (λ b. some (record b { loaded_all = true }))
            (load_directories-AndListed disk native load n loads a.search_paths a f)
            λ b x.
              let thorough : IsThorough disk b = λ p h k.
                x.1 p h (ap (λ dirs. any (λ dir. disk.is_listed dir p) dirs) (sym x.0.paths) ∙ k) in
              (Extends-trans disk x.0 (all-Extends disk b thorough), refl)

  search-Extends :
      (name : String) (dirs : List String) (a : Registry)
      → HasFuel a
      → Ensures (Extends disk a) (search_directories disk native load name dirs a)
  unfolding search_directories
  search-Extends name [] a f = Extends-refl disk a
  search-Extends name (dir ∷ dirs) a f =
      let full_path = disk.path dir (name <> ".rb") in
      Ensures-bind (Extends disk a) (Extends disk a)
        (if contains full_path disk.files then load_file disk native load full_path a else some a)
        (search_directories disk native load name dirs)
        (Ensures-if (Extends disk a) (contains full_path disk.files)
          (load_file disk native load full_path a) (some a)
          (λ e.
            Ensures-map (AndLoads disk native load n loads full_path a) (Extends disk a)
              (load_file disk native load full_path a)
              (load_file-AndLoads disk native load n loads full_path a f e) λ b x. x.0)
          λ e. Extends-refl disk a)
        λ b x.
          Ensures-map (Extends disk b) (Extends disk a)
            (search_directories disk native load name dirs b)
            (search-Extends name dirs b (Fits-Extends disk native load n loads a b f x))
            λ c y. Extends-trans disk x y

  answer :
      {name : String} (b : Registry) (t : Bool)
      → has_fact name b.facts ≡ t
      → native name ≡ false
      → b.loaded_all ≡ true
      → Found native name t b
  answer b true h e l = h
  answer b false h e l = (h, e, l)

  load_others-Finds :
      (name : String) (a : Registry)
      → HasFuel a
      → Ensures (Finds disk native name a) (load_others disk native load name a)
  unfolding load_others
  load_others-Finds name a f =
      Ensures-if (Finds disk native name a) (native name) (some (true, create_fact name a)) _
        (λ e. (
          create_fact-Extends disk name a,
          has_fact-create_fact name name a ∙ ground (arith, eq_refl name),
        ))
        λ e.
          Ensures-bind (AndDone a) (Finds disk native name a) (load_facts disk native load a)
            (λ b. some (has_fact name b.facts, b)) (load_facts-AndDone a f)
            λ b x. (x.0, answer b (has_fact name b.facts) refl e x.1)

  load_fact-Finds :
      (name : String) (a : Registry)
      → HasFuel a
      → Ensures (Finds disk native name a) (load_fact disk native load name a)
  unfolding load_fact
  load_fact-Finds name a f =
      Ensures-if (Finds disk native name a) (has_fact name a.facts) (some (true, a)) _
        (λ e. (Extends-refl disk a, e))
        λ e.
          Ensures-if (Finds disk native name a) a.loaded_all (load_others disk native load name a) _
            (λ l. load_others-Finds name a f)
            λ l.
              Ensures-bind (Extends disk a) (Finds disk native name a)
                (search_directories disk native load name a.search_paths a)
                (λ b.
                  if has_fact name b.facts
                  then some (true, b)
                  else load_others disk native load name b)
                (search-Extends name a.search_paths a f)
                λ b x.
                  Ensures-if (Finds disk native name a) (has_fact name b.facts) (some (true, b))
                    (load_others disk native load name b) (λ h. (x, h))
                    λ h.
                      Ensures-map (Finds disk native name b) (Finds disk native name a)
                        (load_others disk native load name b)
                        (load_others-Finds name b (Fits-Extends disk native load n loads a b f x))
                        λ c y. (Extends-trans disk x y.0, y.1)

  run_script-Extends :
      (s : Script) (a : Registry)
      → HasFuel a
      → Ensures (Extends disk a) (run_script disk native load s a)
  unfolding run_script
  run_script-Extends finished a f = Extends-refl disk a
  run_script-Extends raised a f = Extends-refl disk a
  run_script-Extends (add name g s) a f =
      let x = add_fact-Extends disk name g a in
      Ensures-map (Extends disk (add_fact name g a)) (Extends disk a)
        (run_script disk native load s (add_fact name g a))
        (run_script-Extends s (add_fact name g a)
          (Fits-Extends disk native load n loads a (add_fact name g a) f x))
        λ b y. Extends-trans disk x y
  run_script-Extends (ask name k) a f =
      Ensures-bind (Finds disk native name a) (Extends disk a) (load_fact disk native load name a)
        (λ (t, b). run_script disk native load (k t) b) (load_fact-Finds name a f)
        λ (t, b) x.
          Ensures-map (Extends disk b) (Extends disk a) (run_script disk native load (k t) b)
            (run_script-Extends (k t) b (Fits-Extends disk native load n loads a b f x.0))
            λ c y. Extends-trans disk x.0 y

load-Extends :
    (disk : Disk) (native : String → Bool) (n : ℕ) (p : String) (a : Registry)
    → remaining disk.files a.loaded_files < n
    → Ensures (Extends disk a) (load disk native n p a)
unfolding load
load-Extends disk native zero p a h = absurd (omega arith)
load-Extends disk native (suc n) p a h =
    run_script-Extends disk native (load disk native n) n (load-Extends disk native n)
      (disk.script p) a (omega arith)

-- The search of a registry that keeps its promises.
abbrev pub Thoroughly : Disk → (String → Bool) → String → Registry → Bool × Registry → Type 0
Thoroughly disk native name a (true, b) = Extends disk a b × (has_fact name b.facts ≡ true)
Thoroughly disk native name a (false, b) =
    Extends disk a b × (has_fact name b.facts ≡ false) × (native name ≡ false) × IsThorough disk b

thoroughly :
    (disk : Disk) (native : String → Bool) (name : String) (a : Registry) (x : Bool × Registry)
    → IsWellFormed disk a
    → Finds disk native name a x
    → Thoroughly disk native name a x
thoroughly disk native name a (true, b) w h = h
thoroughly disk native name a (false, b) w h =
    (h.0, h.1.0, h.1.1, (h.0.well_formed w).thorough h.1.2)

-- Looking for a fact comes to an end, with as much fuel as there are files that were not loaded,
-- however the files ask for one another's facts. What was loaded and defined stays, and no file is
-- loaded twice. Where the answer is that there is no such fact, none is registered, the collection
-- has none, and every file of the search path was loaded.
pub load_fact-Thoroughly :
    (disk : Disk) (native : String → Bool) (n : ℕ) (name : String) (a : Registry)
    → IsWellFormed disk a
    → remaining disk.files a.loaded_files ≤ n
    → Ensures (Thoroughly disk native name a) (load_fact disk native (load disk native n) name a)
load_fact-Thoroughly disk native n name a w f =
    Ensures-map (Finds disk native name a) (Thoroughly disk native name a)
      (load_fact disk native (load disk native n) name a)
      (load_fact-Finds disk native (load disk native n) n (load-Extends disk native n) name a f)
      λ x h. thoroughly disk native name a x w h
