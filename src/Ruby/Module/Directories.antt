-- ===== src/Ruby/Module/Directories.antt =====
-- Loading the files of the search path: `load_file` and `load_facts` of lib/src/ruby/module.cc.
use facter.Base.{
  ℕ, ◌≤◌, ◌<◌, String, ◌≡◌, inl, inr, Bool, true, Option, List, [], ◌∷◌, any, keep, All, arith,
  Bool-cases,
}
use facter.Ruby.Module.{Disk, Registry, contains, load_file, load_files, load_directories}
use facter.Ruby.Module.Loading.{
  remaining, remaining-lt, contains-keep, contains-head, Extends, Extends-refl, Extends-trans,
  insert-Extends,
}
use facter.Ruby.Module.Ensures.{Ensures, Ensures-bind, Ensures-map, All-contains, All-intro}

module _ (disk : Disk) (native : String → Bool) (load : String → Registry → Option Registry) (n : ℕ)
    (loads : (p : String) (a : Registry)
      → remaining disk.files a.loaded_files < n
      → Ensures (Extends disk a) (load p a)) where
  -- What is left fits the fuel.
  abbrev pub Fits : Registry → Type 0
  Fits a = remaining disk.files a.loaded_files ≤ n

  abbrev pub IsFile : String → Type 0
  IsFile p = contains p disk.files ≡ true

  pub Fits-Extends : (a b : Registry) → Fits a → Extends disk a b → Fits b
  Fits-Extends a b f x = omega (arith, x.left)

  abbrev pub AndLoads : String → Registry → Registry → Type 0
  AndLoads p a b = Extends disk a b × (contains p b.loaded_files ≡ true)

  pub load_file-AndLoads :
      (p : String) (a : Registry)
      → Fits a
      → IsFile p
      → Ensures (AndLoads p a) (load_file disk native load p a)
  unfolding load_file
  load_file-AndLoads p a f h = elim (Bool-cases (contains p a.loaded_files)) [
    | inl e ↦ rw e (Extends-refl disk a, e)
    | inr e ↦
        let b : Registry = record a { loaded_files = p ∷ a.loaded_files } in
        rw e (
          Ensures-map (Extends disk b) (AndLoads p a) (load p b)
            (loads p b (omega (arith, remaining-lt p disk.files a.loaded_files h e)))
            λ c x. (
              Extends-trans disk (insert-Extends disk p a e) x,
              x.files p (contains-head p a.loaded_files),
            ))
  ]

  abbrev AndAll : List String → Registry → Registry → Type 0
  AndAll ps a b = Extends disk a b × All (λ p. contains p b.loaded_files ≡ true) ps

  load_files-AndAll :
      (ps : List String) (a : Registry)
      → Fits a
      → All IsFile ps
      → Ensures (AndAll ps a) (load_files disk native load ps a)
  unfolding load_files
  load_files-AndAll [] a f h = (Extends-refl disk a, tt)
  load_files-AndAll (p ∷ ps) a f h =
      Ensures-bind (AndLoads p a) (AndAll (p ∷ ps) a) (load_file disk native load p a)
        (load_files disk native load ps) (load_file-AndLoads p a f h.0)
        λ b x.
          Ensures-map (AndAll ps b) (AndAll (p ∷ ps) a) (load_files disk native load ps b)
            (load_files-AndAll ps b (Fits-Extends a b f x.0) h.1)
            λ c y. (Extends-trans disk x.0 y.0, (y.0.files p x.1, y.1))

  -- Every file that is listed in one of the directories was loaded.
  abbrev pub AndListed : List String → Registry → Registry → Type 0
  AndListed dirs a b =
      Extends disk a b
      × ((p : String)
          → IsFile p
          → any (λ dir. disk.is_listed dir p) dirs ≡ true
          → contains p b.loaded_files ≡ true)

  pub load_directories-AndListed :
      (dirs : List String) (a : Registry)
      → Fits a
      → Ensures (AndListed dirs a) (load_directories disk native load dirs a)
  unfolding load_directories
  load_directories-AndListed [] a f = (Extends-refl disk a, λ p h k. ground arith)
  load_directories-AndListed (dir ∷ dirs) a f =
      let ps = keep (disk.is_listed dir) disk.files in
      Ensures-bind (AndAll ps a) (AndListed (dir ∷ dirs) a) (load_files disk native load ps a)
        (load_directories disk native load dirs)
        (load_files-AndAll ps a f
          (All-intro IsFile ps λ p h. contains-keep (disk.is_listed dir) p disk.files h))
        λ b x.
          Ensures-map (AndListed dirs b) (AndListed (dir ∷ dirs) a)
            (load_directories disk native load dirs b)
            (load_directories-AndListed dirs b (Fits-Extends a b f x.0))
            λ c y. (
              Extends-trans disk x.0 y.0,
              λ p h k. elim (Bool-cases (disk.is_listed dir p)) [
                | inl e ↦ y.0.files p (
                    All-contains (λ q. contains q b.loaded_files ≡ true) p (disk.is_listed dir)
                      disk.files x.1 h e)
                | inr e ↦ y.1 p h (ground (arith, e))
              ],
            )
