-- ===== src/Ruby/Chunk/Cycles.antt =====
-- The flag `_resolving` of the chunks: lib/src/ruby/chunk.cc.
use facter.Base.{
  ℕ, zero, suc, ◌<◌, String, ◌≡◌, refl, ap, ◌∙◌, Bool, true, false, Option, none, some, List, [],
  ◌∷◌, ◌==◌, eq_iff, arith, if◌then◌else◌, Option-cases, Bool-cases, inl, inr,
}
use facter.Ruby.Value.{Ruby, Result, ok, raise}
use facter.Ruby.Chunk.{
  Chunk, Chunks, Run, get, modify, names_of, start, finish, collect, chunk_value, find_with,
  find_chunk,
}

-- The names, each with its flag.
unfoldable pub flags : Chunks → List (String × Bool)
flags [] = []
flags ((k, c) ∷ cs) = (k, c.resolving) ∷ flags cs

-- How many chunks are not being resolved.
unfoldable pub idle : List (String × Bool) → ℕ
idle [] = 0
idle ((k, b) ∷ fs) = if b then idle fs else suc (idle fs)

unfoldable set_flag : String → Bool → List (String × Bool) → List (String × Bool)
set_flag name b [] = []
set_flag name b ((k, a) ∷ fs) =
    let rest = set_flag name b fs in if k == name then (k, b) ∷ fs else (k, a) ∷ rest

flags-start :
    (name : String) (cs : Chunks) → flags (modify name start cs) ≡ set_flag name true (flags cs)
unfolding flags modify set_flag
flags-start name [] = refl
flags-start name ((k, c) ∷ cs) = ground (arith, flags-start name cs, eq_iff k name)

flags-finish :
    (name : String) (r : Result Ruby) (cs : Chunks)
    → flags (modify name (finish r) cs) ≡ set_flag name false (flags cs)
unfolding flags modify set_flag
flags-finish name r [] = refl
flags-finish name (ok v) ((k, c) ∷ cs) = ground (arith, flags-finish name (ok v) cs, eq_iff k name)
flags-finish name (raise e) ((k, c) ∷ cs) =
    ground (arith, flags-finish name (raise e) cs, eq_iff k name)

-- An idle chunk that starts leaves one fewer idle, and putting its flag back restores all flags.
start-idle :
    (name : String) (c : Chunk) (cs : Chunks)
    → get name cs ≡ some c
    → c.resolving ≡ false
    → (suc (idle (set_flag name true (flags cs))) ≡ idle (flags cs))
      × (set_flag name false (set_flag name true (flags cs)) ≡ flags cs)
unfolding get flags idle set_flag
start-idle name c [] h b = cc
start-idle name c ((k, d) ∷ cs) h b = ground (arith, start-idle name c cs, eq_iff k name)

-- The call ends, and leaves every flag as it was.
abbrev pub Restores {ℓ} : {A : Type ℓ} → Chunks → Option (A × Chunks) → Type 0
Restores cs none = ⊥
Restores cs (some (r, cs')) = flags cs' ≡ flags cs

pub Restores-cases {ℓ} :
    {A : Type ℓ} (cs : Chunks) (o : Option (A × Chunks))
    → Restores cs o
    → (r : A) × (cs' : Chunks) × (o ≡ some (r, cs')) × (flags cs' ≡ flags cs)
Restores-cases cs (some (r, cs')) h = (r, cs', refl, h)
Restores-cases cs none h = absurd h

module _ (find : String → Chunks → Run Ruby) (n : ℕ)
    (runs : (name : String) (cs : Chunks) → idle (flags cs) < n → Restores cs (find name cs)) where
  collect-step :
      (d : String) (ds : List String) (cs : Chunks) (r : Result Ruby) (cs' : Chunks)
      → find d cs ≡ some (r, cs')
      → flags cs' ≡ flags cs
      → (rs : Result (List Ruby)) (cs'' : Chunks) → collect find ds cs' ≡ some (rs, cs'')
      → flags cs'' ≡ flags cs'
      → Restores cs (collect find (d ∷ ds) cs)
  unfolding collect
  collect-step d ds cs (raise x) cs' e same rs cs'' e' same' = rw (e, Restores) same
  collect-step d ds cs (ok v) cs' e same (raise x) cs'' e' same' =
      rw (e, Restores, e') (same' ∙ same)
  collect-step d ds cs (ok v) cs' e same (ok vs) cs'' e' same' = rw (e, Restores, e') (same' ∙ same)

  collect-Restores :
      (ds : List String) (cs : Chunks) → idle (flags cs) < n → Restores cs (collect find ds cs)
  unfolding collect
  collect-Restores [] cs h = refl
  collect-Restores (d ∷ ds) cs h =
      let (r, cs', e, same) = Restores-cases cs (find d cs) (runs d cs h) in
      let (rs, cs'', e', same') =
        Restores-cases cs' (collect find ds cs') (collect-Restores ds cs' (rw same h)) in
      collect-step d ds cs r cs' e same rs cs'' e' same'

  chunk_value-Restores :
      (name : String) (c : Chunk) (cs : Chunks)
      → get name cs ≡ some c
      → idle (flags cs) < suc n
      → Restores cs (chunk_value find name c cs)
  unfolding chunk_value
  chunk_value-Restores name c cs g h = elim (Bool-cases c.resolving) [
    | inl e ↦ rw (e, Restores) refl
    | inr e ↦ elim (Bool-cases c.resolved) [
      | inl e' ↦ rw (e, e', Restores) refl
      | inr e' ↦
          let begun = start-idle name c cs g e in
          let fewer : idle (flags (modify name start cs)) < n =
            rw (flags-start name cs) (omega (arith, begun.0)) in
          let (rs, cs', run, same) =
            Restores-cases _ (collect find (names_of c.needs) (modify name start cs))
              (collect-Restores (names_of c.needs) (modify name start cs) fewer) in
          rw (e, e', run, Restores)
            (flags-finish name _ cs'
              ∙ (ap (set_flag name false) (same ∙ flags-start name cs) ∙ begun.1))
    ]
  ]

  find_with-Restores :
      (name : String) (cs : Chunks) → idle (flags cs) < suc n → Restores cs (find_with find name cs)
  unfolding find_with
  find_with-Restores name cs h = elim (Option-cases (get name cs)) [
    | inl e ↦ rw (e, Restores) refl
    | inr (c, e) ↦ rw (e, Restores, find_with) (chunk_value-Restores name c cs e h)
  ]

-- With more fuel than chunks that are not being resolved, finding the value of a chunk ends, however
-- the chunks depend on one another and whatever their blocks raise, and leaves the flag of every
-- chunk as it was.
pub find_chunk-Restores :
    (fuel : ℕ) (name : String) (cs : Chunks)
    → idle (flags cs) < fuel
    → Restores cs (find_chunk fuel name cs)
unfolding find_chunk
find_chunk-Restores zero name cs h = elim h [ ]
find_chunk-Restores (suc fuel) name cs h =
    find_with-Restores (find_chunk fuel) fuel (find_chunk-Restores fuel) name cs h
