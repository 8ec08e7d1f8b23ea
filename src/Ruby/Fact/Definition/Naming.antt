-- ===== src/Ruby/Fact/Definition/Naming.antt =====
-- Which resolution a definition makes or changes: lib/src/ruby/fact.cc.
use facter.Base.{
  ℕ, zero, suc, String, ◌≡◌, refl, sym, ◌∙◌, ap, ◌⊎◌, inl, inr, true, Option, none, some, List, [],
  ◌∷◌, ◌++◌, length, arith, Option-cases,
}
use facter.Ruby.Value.{Ruby, text, Result, ok, raise}
use facter.Ruby.Resolution.{Interpreter, Kind, Resolution, new_resolution}
use facter.Ruby.Fact.{Fact, find_resolution}
use facter.Ruby.Fact.Definition.{
  Options, default_options, set_at, resolution_at, read_options, kind_of, find_or_create,
  set_options, evaluate, outcome, define_at, define_with, define_resolution,
}

set_at-set_at :
    (i : ℕ) (g h : Resolution → Resolution) (rs : List Resolution)
    → set_at i g (set_at i h rs) ≡ set_at i (λ r. g (h r)) rs
unfolding set_at
set_at-set_at i g h [] = refl
set_at-set_at zero g h (r ∷ rs) = refl
set_at-set_at (suc i) g h (r ∷ rs) = ap (λ l. r ∷ l) (set_at-set_at i g h rs)

module _ (ruby : Interpreter) where
  find_set_at :
      (name : Ruby) (g : Resolution → Resolution) (i : ℕ) (rs : List Resolution)
      → ((r : Resolution) → ruby.equals (g r).name name ≡ true)
      → find_resolution ruby name rs ≡ some i
      → find_resolution ruby name (set_at i g rs) ≡ some i
  unfolding find_resolution set_at
  find_set_at name g i [] k h = h
  find_set_at name g zero (r ∷ rs) k h = ground (arith, k r)
  find_set_at name g (suc i) (r ∷ rs) k h = ground (arith, find_set_at name g i rs k)

  find_append :
      (name : Ruby) (g : Resolution → Resolution) (x : Resolution) (rs : List Resolution)
      → ((r : Resolution) → ruby.equals (g r).name name ≡ true)
      → find_resolution ruby name rs ≡ none
      → find_resolution ruby name (set_at (length rs) g (rs ++ (x ∷ []))) ≡ some (length rs)
  unfolding find_resolution set_at
  find_append name g x [] k h = ground (arith, k x)
  find_append name g x (r ∷ rs) k h = ground (arith, find_append name g x rs k)

  found_or_created :
      (s : String) (kind : Kind) (rs rs' : List Resolution) (i : ℕ)
      → find_or_create ruby (text s) kind rs ≡ ok (i, rs')
      → ((find_resolution ruby (text s) rs ≡ some i) × (rs' ≡ rs))
        ⊎ ((find_resolution ruby (text s) rs ≡ none)
            × (i ≡ length rs)
            × (rs' ≡ rs ++ (new_resolution kind ∷ [])))
  unfolding find_or_create
  found_or_created s kind rs rs' i h = elim (Option-cases (find_resolution ruby (text s) rs)) [
    | inl f ↦ inr (ground (arith, f))
    | inr (j, f) ↦ elim (Option-cases (resolution_at j rs)) [
      | inl a ↦ inl (ground (arith, f, a))
      | inr (r, a) ↦ inl (ground (arith, f, a))
    ]
  ]

  find-find_or_create :
      (s : String) (kind : Kind) (rs rs' : List Resolution) (i : ℕ) (g : Resolution → Resolution)
      → ((r : Resolution) → ruby.equals (g r).name (text s) ≡ true)
      → find_or_create ruby (text s) kind rs ≡ ok (i, rs')
      → find_resolution ruby (text s) (set_at i g rs') ≡ some i
  find-find_or_create s kind rs rs' i g k h = elim (found_or_created s kind rs rs' i h) [
    | inl (f, e) ↦ rw e (find_set_at (text s) g i rs k f)
    | inr (f, e, e') ↦ rw (e, e') (find_append (text s) g (new_resolution kind) rs k f)
  ]

  module _ (block : Option (Resolution → Result Ruby × Resolution)) where
    names_kept :
        (s : String) (o : Options) (r : Resolution)
        → ((x : Resolution) → (evaluate ruby block x).name ≡ x.name)
        → (evaluate ruby block (set_options ruby (text s) o r)).name ≡ text s
    names_kept s o r n = n (set_options ruby (text s) o r) ∙ ground arith

    outcome_ok : (i j : ℕ) (r : Option Resolution) → outcome ruby block j r ≡ ok i → j ≡ i
    outcome_ok i j r h = ground arith

    find-define_at :
        (s : String) (o : Options) (f : Fact) (i : ℕ) (r : Result (ℕ × List Resolution))
        → ruby.equals (text s) (text s) ≡ true
        → ((x : Resolution) → (evaluate ruby block x).name ≡ x.name)
        → find_or_create ruby (text s) (kind_of ruby o) f.resolutions ≡ r
        → (define_at ruby block (text s) o f r).0 ≡ ok i
        → find_resolution ruby (text s) (define_at ruby block (text s) o f r).1.resolutions ≡ some i
    unfolding define_at
    find-define_at s o f i (raise x) r n e h = ground arith
    find-define_at s o f i (ok (j, rs)) r n e h =
        let g : Resolution → Resolution =
          λ x. evaluate ruby block (set_options ruby (text s) o x) in
        let named : (x : Resolution) → ruby.equals (g x).name (text s) ≡ true =
          λ x. ap (λ m. ruby.equals m (text s)) (names_kept s o x n) ∙ r in
        let set = set_at j (set_options ruby (text s) o) rs in
        rw
          (
            set_at-set_at j (evaluate ruby block) (set_options ruby (text s) o) rs,
            sym (outcome_ok i j (resolution_at j set) h),
          )
          (find-find_or_create s (kind_of ruby o) f.resolutions rs j g named e)

    -- A definition that returns has made the resolution that the name finds: where a text is equal to
    -- itself and the block leaves names alone, looking up the name after it gives the place that it
    -- returned, for a resolution that was there and for a new one.
    pub find_resolution-define_resolution :
        (s : String) (options : List (Ruby × Ruby)) (f : Fact) (i : ℕ)
        → ruby.equals (text s) (text s) ≡ true
        → ((x : Resolution) → (evaluate ruby block x).name ≡ x.name)
        → (define_resolution ruby block (text s) options f).0 ≡ ok i
        → find_resolution ruby
            (text s)
            (define_resolution ruby block (text s) options f).1.resolutions
          ≡ some i
    unfolding define_resolution define_with
    find_resolution-define_resolution s options f i r n h =
        elim (read_options ruby options default_options)
            as (λ o.
              (define_with ruby block (text s) f o).0 ≡ ok i
              → find_resolution ruby (text s) (define_with ruby block (text s) f o).1.resolutions
                ≡ some i) [
                  | raise e ↦ λ h. ground arith
                  | ok o ↦ λ h.
                      find-define_at s o f i
                        (find_or_create ruby (text s) (kind_of ruby o) f.resolutions) r n refl h
                ]
          h
