-- ===== src/Collection/Complete.antt =====
-- The end of `resolve_facts`, lib/src/facts/collection.cc.
use facter.Base.{ℕ, ◌≤◌, String, ◌≡◌, refl, false, List, [], ◌∷◌, arith, length}
use facter.Values.Sorted.{IsSorted}
use facter.Collection.{
  Resolver, Collection, Outcome, returned, dangling, exhausted, points_to, resolve_facts,
}
use facter.Collection.Tidy.{IsTidy}
use facter.Collection.Follows.{Follows, Ends}
use facter.Collection.Fuel.{resolve_facts-Ends}
use facter.Collection.Pending.{IsQuiet}

module _ (heap : ℕ → Resolver) where
  -- Nothing is left: no resolver, and for no name anything that could still provide it.
  pub record IsComplete (c : Collection) : Type 0 where
    pub none_left : c.resolvers ≡ []
    pub quiet : (name : String) → IsQuiet heap name c
    pub sorted : IsSorted c.facts

  abbrev pub Completes : Outcome Collection → Type 0
  Completes (returned c) = IsComplete c
  Completes dangling = Unit
  Completes exhausted = ⊥

  none_of_length : (l : List ℕ) → length l ≤ 0 → l ≡ []
  none_of_length [] h = refl
  none_of_length (p ∷ l) h = absurd (omega arith)

  nothing_points : (p : ℕ) (l : List ℕ) → l ≡ [] → points_to p l ≡ false
  unfolding points_to
  nothing_points p l e = rw e

  complete : {a : Collection} (c : Collection) → Follows heap 0 a c → IsComplete c
  complete c x =
      let gone = none_of_length c.resolvers x.fits.left in
      record {
        none_left = gone;
        quiet = λ name. record {
          names =
              λ p. ground (arith, x.fits.tidy.entries name p, nothing_points p c.resolvers gone);
          patterns = λ p h.
              absurd (ground (arith, x.fits.tidy.patterns p h, nothing_points p c.resolvers gone));
        };
        sorted = x.fits.sorted;
      }

  completes : (a : Collection) (o : Outcome Collection) → Ends heap 0 a o → Completes o
  completes a (returned c) x = complete c x
  completes a dangling x = tt
  completes a exhausted x = x

  -- From a tidy collection with its facts in order, `resolve_facts` ends, and where it returns no
  -- resolver is left, asking for any fact resolves nothing more, and the facts are in order.
  pub resolve_facts-IsComplete :
      (c : Collection) → IsTidy heap c → IsSorted c.facts → Completes (resolve_facts heap c)
  resolve_facts-IsComplete c t s = completes c (resolve_facts heap c) (
      resolve_facts-Ends heap c (length c.resolvers)
        (record { tidy = t; left = omega arith; sorted = s }))
