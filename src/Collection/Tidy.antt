-- ===== src/Collection/Tidy.antt =====
-- A collection is tidy when every entry of its two indexes points to a resolver that is still
-- waiting in the list of resolvers, and stands under a name that the resolver has declared.
use facter.Base.{
  ℕ, ◌<◌, String, ◌≡◌, refl, Bool, true, false, not, ◌&&◌, ◌||◌, Option, none, some, List, [], ◌∷◌,
  ◌++◌, arith, ◌==◌, eq_iff, ◌=?◌, any, length, length-keep-le, keep,
}
use facter.Collection.{
  Resolver, Collection, empty_collection, insert_entry, insert_entries, erase_entries, has_entry,
  points_to, list_remove, add_resolver, remove_resolver, is_entry,
}

abbrev pub declares : Resolver → String → Bool
declares r name = any (λ k. k == name) r.names

module _ (heap : ℕ → Resolver) where
  pub record IsTidy (c : Collection) : Type 0 where
    pub entries :
        (k : String) (p : ℕ)
        → has_entry k p c.resolver_map ≡ true
        → (points_to p c.resolvers ≡ true) × (declares (heap p) k ≡ true)
    pub patterns : (p : ℕ) → points_to p c.pattern_resolvers ≡ true → points_to p c.resolvers ≡ true

pub has_entry-insert_entry :
    (j k : String) (q p : ℕ) (m : List (String × ℕ))
    → has_entry j q (insert_entry k p m) ≡ (is_entry j q (k, p) || has_entry j q m)
unfolding has_entry insert_entry
has_entry-insert_entry j k q p [] = refl
has_entry-insert_entry j k q p ((i, r) ∷ m) = ground (arith, has_entry-insert_entry j k q p m)

pub has_entry-insert_entries :
    (j : String) (ks : List String) (q p : ℕ) (m : List (String × ℕ))
    → has_entry j q (insert_entries ks p m) ≡ (any (λ k. k == j) ks && p =? q || has_entry j q m)
unfolding insert_entries
has_entry-insert_entries j [] q p m = refl
has_entry-insert_entries j (k ∷ ks) q p m = ground (
  arith,
  has_entry-insert_entries j ks q p (insert_entry k p m),
  has_entry-insert_entry j k q p m,
)

has_entry-keep :
    (j k : String) (q p : ℕ) (m : List (String × ℕ))
    → has_entry j q (keep (λ e. not (is_entry k p e)) m)
      ≡ (has_entry j q m && not (k == j && p =? q))
unfolding has_entry
has_entry-keep j k q p [] = refl
has_entry-keep j k q p ((i, r) ∷ m) =
    ground (arith, has_entry-keep j k q p m, eq_iff i k, eq_iff i j, eq_iff k j)

pub has_entry-erase_entries :
    (j : String) (ks : List String) (q p : ℕ) (m : List (String × ℕ))
    → has_entry j q (erase_entries ks p m)
      ≡ (has_entry j q m && not (any (λ k. k == j) ks && p =? q))
unfolding erase_entries
has_entry-erase_entries j [] q p m = ground arith
has_entry-erase_entries j (k ∷ ks) q p m = ground (
  arith,
  has_entry-erase_entries j ks q p (keep (λ e. not (is_entry k p e)) m),
  has_entry-keep j k q p m,
)

pub points_to-list_remove :
    (q p : ℕ) (l : List ℕ) → points_to q (list_remove p l) ≡ (points_to q l && not (p =? q))
unfolding points_to list_remove
points_to-list_remove q p [] = refl
points_to-list_remove q p (r ∷ l) = ground (arith, points_to-list_remove q p l)

pub points_to-append :
    (q p : ℕ) (l : List ℕ) → points_to q (l ++ p ∷ []) ≡ (points_to q l || p =? q)
unfolding points_to
points_to-append q p [] = ground arith
points_to-append q p (r ∷ l) = ground (arith, points_to-append q p l)

pub length-list_remove-lt :
    (p : ℕ) (l : List ℕ) → points_to p l ≡ true → length (list_remove p l) < length l
unfolding points_to list_remove
length-list_remove-lt p [] h = ground arith
length-list_remove-lt p (q ∷ l) h =
    ground (arith, length-list_remove-lt p l, length-keep-le (λ q. not (q =? p)) l)

module _ (heap : ℕ → Resolver) where
  -- Taking a resolver out leaves no pointer to it behind, and the rest tidy.
  pub remove_resolver-IsTidy :
      (p : ℕ) {c : Collection}
      → IsTidy heap c
      → IsTidy heap (remove_resolver heap p c)
        × ((k : String) → has_entry k p (remove_resolver heap p c).resolver_map ≡ false)
        × (points_to p (remove_resolver heap p c).pattern_resolvers ≡ false)
        × (points_to p (remove_resolver heap p c).resolvers ≡ false)
  unfolding remove_resolver
  remove_resolver-IsTidy p {c} t = (
    record {
      entries = λ k q h. ground (
        arith,
        has_entry-erase_entries k (heap p).names q p c.resolver_map,
        points_to-list_remove q p c.resolvers,
        t.entries k q,
      );
      patterns = λ q h. ground (
        arith,
        points_to-list_remove q p c.pattern_resolvers,
        points_to-list_remove q p c.resolvers,
        t.patterns q,
      );
    },
    λ k. ground (arith, has_entry-erase_entries k (heap p).names p p c.resolver_map, t.entries k p),
    ground (arith, points_to-list_remove p p c.pattern_resolvers),
    ground (arith, points_to-list_remove p p c.resolvers),
  )

  -- Adding a resolver keeps the collection tidy.
  pub add_resolver-IsTidy :
      (r : Option ℕ) {c : Collection} → IsTidy heap c → IsTidy heap (add_resolver heap r c)
  unfolding add_resolver
  add_resolver-IsTidy none t = t
  add_resolver-IsTidy (some p) {c} t = record {
    entries = λ k q h. ground (
      arith,
      has_entry-insert_entries k (heap p).names q p c.resolver_map,
      points_to-append q p c.resolvers,
      t.entries k q,
    );
    patterns = λ q h. ground (
      arith,
      points_to-append q p c.resolvers,
      points_to-append q p c.pattern_resolvers,
      t.patterns q,
    );
  }

  pub empty-IsTidy : IsTidy heap empty_collection
  unfolding has_entry points_to
  empty-IsTidy = record { entries = λ k p h. ground arith; patterns = λ p h. ground arith }
