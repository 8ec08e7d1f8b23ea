-- ===== src/Ruby/Module.antt =====
-- The registry of custom facts: `load_facts`, `load_fact`, `load_file`, `create_fact`, `clear_facts`
-- and the messages that are logged once, of lib/src/ruby/module.cc. A file of custom facts is a
-- script: the calls that it makes of the Facter API, one after the other, up to an exception. The
-- collection is one that has been populated; `native` says which facts it has. The log is left out.
pub mod Loading
pub mod Ensures
pub mod Directories
pub mod Search
pub mod Population
pub mod Paths
pub mod Execute
use facter.Base.{
  ℕ, zero, suc, String, Bool, true, false, not, ◌&&◌, Option, none, some, List, [], ◌∷◌, ◌++◌, any,
  keep, ◌==◌, if◌then◌else◌, ◌<>◌,
}
use facter.Ruby.Value.{Ruby, ruby_nil, Result, ok, raise}
use facter.Ruby.Fact.{Fact, flush}

pub data Script : Type 0 where
  finished : Script
  raised : Script
  -- `Facter.add`: what it defines of the fact of that name, given in lower case
  add : String → (Fact → Fact) → Script → Script
  -- `Facter.fact`: whether there is one
  ask : String → (Bool → Script) → Script

pub record Disk : Type 0 where
  pub files : List String
  -- whether the file stands in the directory and ends in `.rb`
  pub is_listed : String → String → Bool
  -- a file's name under a directory
  pub path : String → String → String
  pub script : String → Script

pub record Registry : Type 0 where
  pub facts : List (String × Fact)
  pub loaded_files : List String
  pub loaded_all : Bool
  pub search_paths : List String

unfoldable pub contains : String → List String → Bool
contains p l = any (λ q. q == p) l

unfoldable pub find_fact : String → List (String × Fact) → Option Fact
find_fact name [] = none
find_fact name ((k, f) ∷ fs) = if k == name then some f else find_fact name fs

unfoldable pub has_fact : String → List (String × Fact) → Bool
has_fact name [] = false
has_fact name ((k, f) ∷ fs) = if k == name then true else has_fact name fs

unfoldable pub change_fact : String → (Fact → Fact) → List (String × Fact) → List (String × Fact)
change_fact name g [] = []
change_fact name g ((k, f) ∷ fs) =
    let rest = change_fact name g fs in if k == name then (k, g f) ∷ fs else (k, f) ∷ rest

abbrev pub new_fact : String → Fact
new_fact name = record {
  name = name;
  value = ruby_nil;
  resolutions = [];
  resolving = false;
  resolved = false;
}

-- A fact that is there is left as it is.
unfoldable pub create_fact : String → Registry → Registry
unfolding has_fact
create_fact name r =
    if has_fact name r.facts then r else record r { facts = r.facts ++ (name, new_fact name) ∷ [] }

-- `Facter.add`: creates the fact, and defines a resolution of it.
unfoldable pub add_fact : String → (Fact → Fact) → Registry → Registry
unfolding create_fact change_fact
add_fact name g r =
    let created = create_fact name r in record created { facts = change_fact name g created.facts }

unfoldable pub clear_facts : Registry → Registry
clear_facts r = record r { facts = [] }

-- The loop ends at the first exception.
abbrev flush_rest :
    String
    → Result Ruby × Fact
    → List (String × Fact)
    → Result Ruby × List (String × Fact)
    → Result Ruby × List (String × Fact)
flush_rest k (raise e, f) fs rest = (raise e, (k, f) ∷ fs)
flush_rest k (ok v, f) fs (r, fs') = (r, (k, f) ∷ fs')

unfoldable pub flush_facts : List (String × Fact) → Result Ruby × List (String × Fact)
unfolding flush
flush_facts [] = (ok ruby_nil, [])
flush_facts ((k, f) ∷ fs) = flush_rest k (flush f) fs (flush_facts fs)

-- `debugonce` and `warnonce`: the messages that were logged before, and whether this one is logged.
unfoldable pub log_once : String → List String → Bool × List String
unfolding contains
log_once message seen = if contains message seen then (false, seen) else (true, message ∷ seen)

-- `none`: the fuel of the model ran out.
infixl 5 ◌>>=◌
abbrev pub ◌>>=◌ {ℓ κ} : {A : Type ℓ} {B : Type κ} → Option A → (A → Option B) → Option B
none >>= f = none
some a >>= f = f a

module _ (disk : Disk) (native : String → Bool) where
  -- `load` stands for `rb_load`, under the rescue.
  module _ (load : String → Registry → Option Registry) where
    unfoldable pub load_file : String → Registry → Option Registry
    unfolding contains
    load_file p r =
        if contains p r.loaded_files
        then some r
        else load p (record r { loaded_files = p ∷ r.loaded_files })

    unfoldable pub load_files : List String → Registry → Option Registry
    unfolding load_file
    load_files [] r = some r
    load_files (p ∷ ps) r = load_file p r >>= load_files ps

    unfoldable pub load_directories : List String → Registry → Option Registry
    unfolding load_files
    load_directories [] r = some r
    load_directories (dir ∷ dirs) r =
        load_files (keep (disk.is_listed dir) disk.files) r >>= load_directories dirs

    unfoldable pub load_facts : Registry → Option Registry
    unfolding load_directories
    load_facts r =
        if r.loaded_all
        then some r
        else (load_directories r.search_paths r >>= λ r'. some (record r' { loaded_all = true }))

    -- The files of the fact's name, in the directories that have one.
    unfoldable pub search_directories : String → List String → Registry → Option Registry
    unfolding load_file contains
    search_directories name [] r = some r
    search_directories name (dir ∷ dirs) r =
        let full_path = disk.path dir (name <> ".rb") in
        (if contains full_path disk.files then load_file full_path r else some r)
        >>= search_directories name dirs

    -- Where the file names did not help: whether the fact is there now.
    unfoldable pub load_others : String → Registry → Option (Bool × Registry)
    unfolding load_facts create_fact has_fact
    load_others name r =
        if native name
        then some (true, create_fact name r)
        else (load_facts r >>= λ r'. some (has_fact name r'.facts, r'))

    unfoldable pub load_fact : String → Registry → Option (Bool × Registry)
    unfolding load_others search_directories has_fact
    load_fact name r =
        if has_fact name r.facts
        then some (true, r)
        else if r.loaded_all
        then load_others name r
        else (search_directories name r.search_paths r >>= λ r'.
            if has_fact name r'.facts then some (true, r') else load_others name r')

    unfoldable pub run_script : Script → Registry → Option Registry
    unfolding load_fact add_fact
    run_script finished r = some r
    run_script raised r = some r
    run_script (add name g s) r = run_script s (add_fact name g r)
    run_script (ask name k) r = load_fact name r >>= λ (b, r'). run_script (k b) r'

  -- A file that is loaded may make the registry load others, `fuel` deep.
  unfoldable pub load : ℕ → String → Registry → Option Registry
  unfolding run_script
  load zero p r = none
  load (suc fuel) p r = run_script (load fuel) (disk.script p) r
