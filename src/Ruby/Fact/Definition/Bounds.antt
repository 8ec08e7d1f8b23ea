-- ===== src/Ruby/Fact/Definition/Bounds.antt =====
-- The number of resolutions of a fact: lib/src/ruby/fact.cc.
use facter.Base.{
  ℕ, zero, suc, ◌≤◌, ◌≡◌, refl, ap, Option, List, [], ◌∷◌, length, length-append, arith,
}
use facter.Ruby.Value.{Ruby, Result, ok, raise}
use facter.Ruby.Resolution.{Interpreter, Kind, Resolution, new_resolution, sym_to_s}
use facter.Ruby.Fact.{Fact}
use facter.Ruby.Fact.Definition.{
  Options, default_options, maximum_resolutions, set_at, read_options, kind_of, find_or_create,
  set_options, evaluate, define_at, define_with, define_resolution,
}

length-set_at :
    (i : ℕ) (g : Resolution → Resolution) (rs : List Resolution)
    → length (set_at i g rs) ≡ length rs
unfolding set_at
length-set_at i g [] = refl
length-set_at zero g (r ∷ rs) = refl
length-set_at (suc i) g (r ∷ rs) = ap suc (length-set_at i g rs)

abbrev IsBounded : Result (ℕ × List Resolution) → Type 0
IsBounded (raise e) = Unit
IsBounded (ok (i, rs)) = length rs ≤ maximum_resolutions

module _ (ruby : Interpreter) where
  find_or_create-IsBounded :
      (name : Ruby) (kind : Kind) (rs : List Resolution)
      → length rs ≤ maximum_resolutions
      → IsBounded (find_or_create ruby name kind rs)
  unfolding find_or_create
  find_or_create-IsBounded name kind rs h =
      ground (arith, length-append rs (new_resolution kind ∷ []))

  module _ (block : Option (Resolution → Result Ruby × Resolution)) where
    define_at_bound :
        (name : Ruby) (o : Options) (f : Fact) (r : Result (ℕ × List Resolution))
        → length f.resolutions ≤ maximum_resolutions
        → IsBounded r
        → length (define_at ruby block name o f r).1.resolutions ≤ maximum_resolutions
    unfolding define_at
    define_at_bound name o f (raise e) h b = h
    define_at_bound name o f (ok (i, rs)) h b =
        let set = set_at i (set_options ruby name o) rs in
        omega (
          arith,
          b,
          length-set_at i (set_options ruby name o) rs,
          length-set_at i (evaluate ruby block) set,
        )

    define_with_bound :
        (name : Ruby) (f : Fact) (o : Result Options)
        → length f.resolutions ≤ maximum_resolutions
        → length (define_with ruby block name f o).1.resolutions ≤ maximum_resolutions
    unfolding define_with define_at
    define_with_bound name f (raise e) h = h
    define_with_bound name f (ok o) h =
        let kind = kind_of ruby o in
        define_at_bound name o f (find_or_create ruby name kind f.resolutions) h
          (find_or_create-IsBounded name kind f.resolutions h)

    -- A fact never has more than a hundred resolutions: a call that starts from at most that many
    -- leaves at most that many, whatever the arguments, the block and the exceptions.
    pub define_resolution_bound :
        (name : Ruby) (options : List (Ruby × Ruby)) (f : Fact)
        → length f.resolutions ≤ maximum_resolutions
        → length (define_resolution ruby block name options f).1.resolutions ≤ maximum_resolutions
    unfolding define_resolution
    define_resolution_bound name options f h =
        let bound =
          define_with_bound (sym_to_s name) f (read_options ruby options default_options) h in
        ground (arith, bound)
