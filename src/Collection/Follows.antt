-- ===== src/Collection/Follows.antt =====
-- What an operation of the collection leaves behind: the states between which it moves, and the
-- rules by which such statements are put together.
use facter.Base.{ℕ, suc, ◌≤◌, String, ◌≡◌, true, Option, arith, length}
use facter.Values.{Value, find}
use facter.Values.Sorted.{IsSorted}
use facter.Collection.{
  Resolver, Collection, Outcome, returned, dangling, exhausted, ◌>>=◌, has_entry, points_to,
  remove_resolver,
}
use facter.Collection.Tidy.{
  IsTidy, remove_resolver-IsTidy, has_entry-erase_entries, points_to-list_remove,
  length-list_remove-lt,
}

-- Nothing is registered in `after` that is not registered in `before`.
pub record Shrinks (before after : Collection) : Type 0 where
  pub entries :
      (k : String) (p : ℕ)
      → has_entry k p after.resolver_map ≡ true
      → has_entry k p before.resolver_map ≡ true
  pub patterns :
      (p : ℕ)
      → points_to p after.pattern_resolvers ≡ true
      → points_to p before.pattern_resolvers ≡ true

pub Shrinks-refl : (c : Collection) → Shrinks c c
Shrinks-refl c = record { entries = λ k p h. h; patterns = λ p h. h }

pub Shrinks-trans : {a b c : Collection} → Shrinks a b → Shrinks b c → Shrinks a c
Shrinks-trans x y = record {
  entries = λ k p h. x.entries k p (y.entries k p h);
  patterns = λ p h. x.patterns p (y.patterns p h);
}

module _ (heap : ℕ → Resolver) where
  -- At most `n` resolvers are left, the indexes are tidy and the facts in order.
  pub record Fits (n : ℕ) (c : Collection) : Type 0 where
    pub tidy : IsTidy heap c
    pub left : length c.resolvers ≤ n
    pub sorted : IsSorted c.facts

  pub record Follows (n : ℕ) (c c' : Collection) : Type 0 where
    pub fits : Fits n c'
    pub shrinks : Shrinks c c'

  -- The operation did not run out of fuel, and where it returned, it left a collection as above.
  abbrev pub Ends : ℕ → Collection → Outcome Collection → Type 0
  Ends n c (returned c') = Follows n c c'
  Ends n c dangling = Unit
  Ends n c exhausted = ⊥

  abbrev pub EndsWith : ℕ → Collection → Outcome (Option Value × Collection) → Type 0
  EndsWith n c (returned (v, c')) = Follows n c c'
  EndsWith n c dangling = Unit
  EndsWith n c exhausted = ⊥

  pub Follows-refl : {n : ℕ} {c : Collection} → Fits n c → Follows n c c
  Follows-refl {n} {c} f = record { fits = f; shrinks = Shrinks-refl c }

  pub Ends-trans :
      {m : ℕ} (n : ℕ) {a b : Collection} (o : Outcome Collection)
      → Follows m a b
      → Ends n b o
      → Ends n a o
  Ends-trans n (returned c) x y = record {
    fits = y.fits;
    shrinks = Shrinks-trans x.shrinks y.shrinks;
  }
  Ends-trans n dangling x y = tt
  Ends-trans n exhausted x y = y

  pub Ends-bind :
      (n : ℕ) (a : Collection) (o : Outcome Collection) (f : Collection → Outcome Collection)
      → Ends n a o
      → ((b : Collection) → Fits n b → Ends n b (f b))
      → Ends n a (o >>= f)
  Ends-bind n a (returned b) f x y = Ends-trans n (f b) x (y b x.fits)
  Ends-bind n a dangling f x y = tt
  Ends-bind n a exhausted f x y = x

  pub Ends-then :
      (m n : ℕ) (a : Collection) (o : Outcome Collection) (f : Collection → Outcome Collection)
      → Ends m a o
      → ((b : Collection) → Fits m b → Ends n b (f b))
      → Ends n a (o >>= f)
  Ends-then m n a (returned b) f x y = Ends-trans n (f b) x (y b x.fits)
  Ends-then m n a dangling f x y = tt
  Ends-then m n a exhausted f x y = x

  pub Ends-bind_with :
      (n : ℕ) (a : Collection) (o : Outcome (Option Value × Collection))
      (f : Option Value × Collection → Outcome Collection)
      → EndsWith n a o
      → ((v : Option Value) (b : Collection) → Fits n b → Ends n b (f (v, b)))
      → Ends n a (o >>= f)
  Ends-bind_with n a (returned (v, b)) f x y = Ends-trans n (f (v, b)) x (y v b x.fits)
  Ends-bind_with n a dangling f x y = tt
  Ends-bind_with n a exhausted f x y = x

  pub EndsWith-found :
      (name : String) (n : ℕ) (a : Collection) (o : Outcome Collection)
      → Ends n a o
      → EndsWith n a (o >>= λ c. returned (find name c.facts, c))
  EndsWith-found name n a (returned c) x = x
  EndsWith-found name n a dangling x = tt
  EndsWith-found name n a exhausted x = x

  -- Taking out a resolver that is there leaves one fewer.
  pub remove-Fits :
      {n : ℕ} {c : Collection} (p : ℕ)
      → Fits (suc n) c
      → points_to p c.resolvers ≡ true
      → Follows n c (remove_resolver heap p c)
  unfolding remove_resolver
  remove-Fits {n} {c} p f h = record {
    fits = record {
      tidy = unfold remove_resolver in (remove_resolver-IsTidy heap p f.tidy).0;
      left = omega (arith, length-list_remove-lt p c.resolvers h, f.left);
      sorted = f.sorted;
    };
    shrinks = record {
      entries =
          λ k q e. ground (arith, has_entry-erase_entries k (heap p).names q p c.resolver_map);
      patterns = λ q e. ground (arith, points_to-list_remove q p c.pattern_resolvers);
    };
  }
