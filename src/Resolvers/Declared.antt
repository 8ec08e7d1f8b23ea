-- ===== src/Resolvers/Declared.antt =====
-- The names and patterns that a resolver declares, and the names of the facts that it adds.
pub mod Both
pub mod System
pub mod Builtins
use facter.Base.{
  ℕ, String, ◌≡◌, refl, ap, ◌∙◌, Bool, true, false, ◌||◌, Option, none, some, List, [], ◌∷◌, ◌++◌,
  any, ◌==◌, eq_refl, eq_iff, arith, Bool-cases, inl, inr, if◌then◌else◌, ◌<>◌, map,
}
use text.Mathlib.TextLemmas.{cons-append}
use facter.Base.Int.{ℤ, pos, negsuc}
use facter.Values.{Fields}
use facter.Collection.{Resolver, is_match}
use facter.Resolvers.{Adds, text_facts, map_facts, starts_with}
use facter.Resolvers.Dmi.{Dmi, dmi_adds, dmi_resolver}
use facter.Resolvers.Uptime.{Format, uptime_adds, uptime_resolver}
use facter.Resolvers.Ssh.{SshData, SshKey, ssh_adds, key_adds, ssh_resolver, fingerprint}
use facter.Resolvers.Networking.{
  Networking, Interface, networking_names, networking_prefixes, networking_adds, interface_adds,
  text_pair, all_interface_adds, networking_resolver, mtu_facts,
}

-- The test that puts a resolver in line for a name.
abbrev pub declares_name : Resolver → String → Bool
unfolding is_match
declares_name r name = any (λ n. n == name) r.names || is_match r name

unfoldable pub are_declared : Resolver → Adds → Bool
are_declared r [] = true
are_declared r ((name, v) ∷ adds) = if declares_name r name then are_declared r adds else false

pub are_declared-append :
    (r : Resolver) (xs ys : Adds)
    → are_declared r xs ≡ true
    → are_declared r ys ≡ true
    → are_declared r (xs ++ ys) ≡ true
unfolding are_declared
are_declared-append r [] ys h k = k
are_declared-append r ((name, v) ∷ xs) ys h k = ground (arith, are_declared-append r xs ys)

pub are_declared-text_facts :
    (r : Resolver) (name s : String)
    → declares_name r name ≡ true
    → are_declared r (text_facts name s) ≡ true
unfolding are_declared text_facts
are_declared-text_facts r name s h = ground (arith, h)

pub are_declared-map_facts :
    (r : Resolver) (name : String) (b : Bool) (m : Fields)
    → declares_name r name ≡ true
    → are_declared r (map_facts name b m) ≡ true
unfolding are_declared map_facts
are_declared-map_facts r name b m h = ground (arith, h)

-- Whatever the firmware reports, every fact that is added has a declared name.
pub dmi_adds-are_declared : (d : Dmi) → are_declared (dmi_resolver d) (dmi_adds d) ≡ true
unfolding dmi_adds is_match dmi_resolver
dmi_adds-are_declared d =
    search (are_declared-append, are_declared-text_facts, are_declared-map_facts) depth 20

-- The same of the uptime, and of a negative one.
pub uptime_adds-are_declared :
    (format : Format) (n : ℤ)
    → are_declared (uptime_resolver format n) (uptime_adds format n) ≡ true
unfolding uptime_adds are_declared is_match uptime_resolver
uptime_adds-are_declared format (pos n) = refl
uptime_adds-are_declared format (negsuc n) = refl

are_declared-key_adds :
    (d : SshData) (k : SshKey) (key_fact fingerprint_fact : String)
    → declares_name (ssh_resolver d) key_fact ≡ true
    → declares_name (ssh_resolver d) fingerprint_fact ≡ true
    → are_declared (ssh_resolver d) (key_adds k key_fact fingerprint_fact) ≡ true
unfolding key_adds are_declared
are_declared-key_adds d k key_fact fingerprint_fact h g =
    ground (arith, h, are_declared-text_facts (ssh_resolver d) fingerprint_fact (fingerprint k) g)

-- Whatever keys there are, every fact that is added has a declared name.
pub ssh_adds-are_declared : (d : SshData) → are_declared (ssh_resolver d) (ssh_adds d) ≡ true
unfolding ssh_adds is_match ssh_resolver
ssh_adds-are_declared d =
    search (are_declared-append, are_declared-key_adds, are_declared-map_facts) depth 20

pub starts_with-append : (p s : String) → starts_with p (p <> s) ≡ true
unfolding starts_with
starts_with-append String.[] s = refl
starts_with-append (String.◌∷◌ a p) s =
    rw cons-append (ground (arith, eq_refl (String.◌∷◌ a String.[]), starts_with-append p s))

-- A pattern of the list matches a name that begins with it.
any-starts_with :
    (p s : String) (l : List String)
    → any (λ q. q == p) l ≡ true
    → any (λ m. m (p <> s)) (map starts_with l) ≡ true
any-starts_with p s [] h = ground arith
any-starts_with p s (q ∷ l) h = elim (Bool-cases (q == p)) [
  | inl e ↦ ap (λ b. b || any (λ m. m (p <> s)) (map starts_with l)) (starts_same e)
  | inr e ↦
      ap (λ b. starts_with q (p <> s) || b) (any-starts_with p s l (ground (arith, e)))
      ∙ ground arith
]
  where
    starts_same : q == p ≡ true → starts_with q (p <> s) ≡ true
    starts_same e = ap (λ t. starts_with t (p <> s)) ((eq_iff q p).0 e) ∙ starts_with-append p s

or_true : (b : Bool) → (b || true) ≡ true
or_true b = ground arith

module _ (d : Networking) where
  prefix_declared :
      (p s : String)
      → any (λ q. q == p) networking_prefixes ≡ true
      → declares_name (networking_resolver d) (p <> s) ≡ true
  unfolding networking_resolver is_match
  prefix_declared p s h =
      ap (λ b. any (λ n. n == p <> s) networking_names || b)
        (any-starts_with p s networking_prefixes h)
      ∙ or_true (any (λ n. n == p <> s) networking_names)

  are_declared-text_pair :
      (primary : Bool) (prefix plain name s : String)
      → any (λ q. q == prefix) networking_prefixes ≡ true
      → declares_name (networking_resolver d) plain ≡ true
      → are_declared (networking_resolver d) (text_pair primary prefix plain name s) ≡ true
  unfolding text_pair are_declared
  are_declared-text_pair primary prefix plain name s h g =
      are_declared-append (networking_resolver d) (text_facts (prefix <> name) s)
        (if primary then text_facts plain s else [])
        (are_declared-text_facts (networking_resolver d) (prefix <> name) s
          (prefix_declared prefix name h))
        (plain_declared primary)
    where
      plain_declared :
          (b : Bool)
          → are_declared (networking_resolver d) (if b then text_facts plain s else []) ≡ true
      plain_declared true = are_declared-text_facts (networking_resolver d) plain s g
      plain_declared false = refl

  are_declared-mtu_facts :
      (name : String) (mtu : Option ℕ)
      → are_declared (networking_resolver d) (mtu_facts name mtu) ≡ true
  unfolding are_declared
  are_declared-mtu_facts name none = refl
  are_declared-mtu_facts name (some n) = ground (arith, prefix_declared "mtu_" name refl)

  are_declared-interface_adds :
      (primary_name : String) (i : Interface)
      → are_declared (networking_resolver d) (interface_adds primary_name i) ≡ true
  unfolding interface_adds networking_resolver is_match
  are_declared-interface_adds primary_name i =
      search (are_declared-append, are_declared-text_pair, are_declared-mtu_facts) depth 20

  are_declared-all_interface_adds :
      (primary_name : String) (is : List Interface)
      → are_declared (networking_resolver d) (all_interface_adds primary_name is) ≡ true
  unfolding all_interface_adds are_declared
  are_declared-all_interface_adds primary_name [] = refl
  are_declared-all_interface_adds primary_name (i ∷ is) =
      are_declared-append (networking_resolver d) (interface_adds primary_name i)
        (all_interface_adds primary_name is) (are_declared-interface_adds primary_name i)
        (are_declared-all_interface_adds primary_name is)

-- Whatever the interfaces are called, every fact that is added has a declared name or one that a
-- declared pattern matches.
pub networking_adds-are_declared :
    (d : Networking) → are_declared (networking_resolver d) (networking_adds d) ≡ true
unfolding networking_adds is_match networking_resolver
networking_adds-are_declared d =
    search
      (
        are_declared-append, are_declared-text_facts, are_declared-all_interface_adds,
        are_declared-map_facts,
      )
      depth 20
