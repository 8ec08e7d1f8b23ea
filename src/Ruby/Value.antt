-- ===== src/Ruby/Value.antt =====
-- What the code in lib/src/ruby asks of a Ruby `VALUE`. A hash keeps its pairs in order; a key is
-- the number of its class under `eql?`.
use facter.Base.{
  ℕ, String, ◌≡◌, refl, arith, Bool, true, false, Option, none, some, ◌=?◌, if◌then◌else◌,
}

mutual
  pub data Ruby : Type 0 where
    ruby_nil ruby_false ruby_true : Ruby
    symbol text : String → Ruby
    number : ℕ → Ruby
    object : ℕ → Ruby
    array : Items → Ruby
    hash : Pairs → Ruby

  pub data Items : Type 0 where
    no_items : Items
    item : Ruby → Items → Items

  pub data Pairs : Type 0 where
    no_pairs : Pairs
    pair : ℕ → Ruby → Pairs → Pairs

pub data Raise : Type 0 where
  cannot_merge : Ruby → Ruby → Raise
  cycle_detected : Raise
  block_raised : ℕ → Raise
  type_error argument_error runtime_error : String → Raise

-- What a call gives back, or the exception that it raises.
pub data Result {ℓ} (A : Type ℓ) : Type ℓ where
  ok : A → Result A
  raise : Raise → Result A

infixl 5 ◌>>=◌
abbrev pub ◌>>=◌ {ℓ κ} : {A : Type ℓ} {B : Type κ} → Result A → (A → Result B) → Result B
ok a >>= f = f a
raise e >>= f = raise e

abbrev pub is_nil : Ruby → Bool
is_nil ruby_nil = true
is_nil _ = false

abbrev pub is_truthy : Ruby → Bool
is_truthy ruby_nil = false
is_truthy ruby_false = false
is_truthy _ = true

unfoldable pub append_items : Items → Items → Items
append_items no_items ys = ys
append_items (item x xs) ys = item x (append_items xs ys)

unfoldable pub lookup : ℕ → Pairs → Option Ruby
lookup k no_pairs = none
lookup k (pair j v ps) = if j =? k then some v else lookup k ps

-- `hash[k] = v`: in place where the key is there, else at the end
unfoldable pub store : ℕ → Ruby → Pairs → Pairs
store k v no_pairs = pair k v no_pairs
store k v (pair j w ps) = let rest = store k v ps in if j =? k then pair j v ps else pair j w rest

pub lookup-store :
    (k j : ℕ) (v : Ruby) (ps : Pairs)
    → lookup j (store k v ps) ≡ (if k =? j then some v else lookup j ps)
unfolding lookup store
lookup-store k j v no_pairs = refl
lookup-store k j v (pair i w ps) = ground (arith, lookup-store k j v ps)
