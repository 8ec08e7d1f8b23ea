-- ===== src/Query/Paths.antt =====
-- Queries that spell a path, each key plain or in quotes: `query_value` of
-- lib/src/facts/collection.cc.
use Prim.Native.String.{[], ◌∷◌}
use text.Mathlib.TextLemmas.{append_assoc, append-nil, cons-append, nil-append}
use facter.Base.{
  ℕ, String, Char, code, ◌≡◌, refl, ◌∙◌, ap, Bool, true, false, not, ◌||◌, Option, none, some, List,
  [], ◌∷◌, ◌=?◌, arith, Bool-cases, inl, inr, if◌then◌else◌, push_back, is_empty_str, ◌<>◌,
}
use facter.Values.{Value}
use facter.Collection.{
  Action, Resolver, Collection, Outcome, returned, dangling, exhausted, ◌>>=◌, get_value,
}
use facter.Query.{lookup, query_loop, query_value}

abbrev pub has_char : (Char → Bool) → String → Bool
has_char p [] = false
has_char p (c ∷ s) = p c || has_char p s

-- A key as it is written in a query: in quotes or plain.
pub record Key : Type 0 where
  pub quoted : Bool
  pub text : String

abbrev b_quote : Char
b_quote = "\""

abbrev b_dot : Char
b_dot = "."

abbrev pub is_quote : Char → Bool
is_quote c = code c =? b'"'

abbrev pub is_dot : Char → Bool
is_dot c = code c =? b'.'

-- It is not empty, has no quote, and no dot unless it is in quotes.
abbrev pub CanSpell : Key → Type 0
CanSpell k =
    (is_empty_str k.text ≡ false)
    × (has_char is_quote k.text ≡ false)
    × ((k.quoted || not (has_char is_dot k.text)) ≡ true)

-- The key, and what follows it in the query.
abbrev pub spell : Key → String → String
spell k rest = if k.quoted then b_quote ∷ (k.text <> (b_quote ∷ rest)) else k.text <> rest

abbrev pub spell_path : List Key → String
spell_path [] = ""
spell_path (k ∷ ks) = elim ks [ [] ↦ spell k "" | j ∷ js ↦ spell k (b_dot ∷ spell_path ks) ]

abbrev pub AllSpell : List Key → Type 0
AllSpell [] = Unit
AllSpell (k ∷ ks) = CanSpell k × AllSpell ks

push_back-append : (s : String) (c : Char) (t : String) → push_back s c <> t ≡ s <> (c ∷ t)
push_back-append s c t =
    append_assoc s (c ∷ []) t
    ∙ ap (λ x. s <> x) (cons-append c [] t ∙ ap (λ x. c ∷ x) (nil-append t))

abbrev Found : Type 0
Found = Option Value × Collection

abbrev walk : Outcome Found → (Value → Collection → Outcome Found) → Outcome Found
walk o f = o >>= λ (w, c'). elim w [ none ↦ returned (none, c') | some x ↦ f x c' ]

walk-last : (o : Outcome Found) → o ≡ walk o (λ x c. returned (some x, c))
walk-last (returned (none, c)) = refl
walk-last (returned (some v, c)) = refl
walk-last dangling = refl
walk-last exhausted = refl

walk-cong :
    (f g : Value → Collection → Outcome Found)
    → ((w : Value) (c : Collection) → f w c ≡ g w c)
    → (o : Outcome Found) → walk o f ≡ walk o g
walk-cong f g h (returned (none, c)) = refl
walk-cong f g h (returned (some v, c)) = h v c
walk-cong f g h dangling = refl
walk-cong f g h exhausted = refl

module _ (heap : ℕ → Resolver) (resolve : Action → Collection → Outcome Collection) where
  -- From a value, or from the facts themselves, one step for each key, as long as there is a value.
  abbrev pub descend : List Key → Option Value → Collection → Outcome (Option Value × Collection)
  descend [] v c = returned (v, c)
  descend (k ∷ ks) v c = lookup heap resolve v k.text c >>= λ (w, c'). elim w [
    | none ↦ returned (none, c')
    | some x ↦ descend ks (some x) c'
  ]

  loop-append :
      (b : Bool) (seg : String) (v : Option Value) (text rest : String) (c : Collection)
      → has_char is_quote text ≡ false
      → (b || not (has_char is_dot text)) ≡ true
      → query_loop heap resolve b seg v (text <> rest) c
        ≡ query_loop heap resolve b (seg <> text) v rest c
  unfolding query_loop
  loop-append b seg v [] rest c h k = rw (append-nil seg, nil-append rest)
  loop-append b seg v (ch ∷ text) rest c h k =
      rw (cons-append ch text rest) (
        ground
          (arith, push_back-append seg ch text, loop-append b (push_back seg ch) v text rest c))

  loop-spell :
      (k : Key) (v : Option Value) (rest : String) (c : Collection)
      → CanSpell k
      → query_loop heap resolve false "" v (spell k rest) c
        ≡ query_loop heap resolve false k.text v rest c
  unfolding query_loop
  loop-spell k v rest c h = elim (Bool-cases k.quoted) [
    | inl q ↦
        rw q (loop-append true "" v k.text (b_quote ∷ rest) c h.1 refl ∙ rw (nil-append k.text))
    | inr q ↦ rw q (loop-append false "" v k.text rest c h.1 (rw q at h.2) ∙ rw (nil-append k.text))
  ]

  loop-path :
      (ks : List Key) (v : Option Value) (c : Collection)
      → AllSpell ks
      → query_loop heap resolve false "" v (spell_path ks) c ≡ descend ks v c
  unfolding query_loop
  loop-path [] v c h = refl
  loop-path (k ∷ []) v c h =
      loop-spell k v "" c h.0 ∙ rw (h.0.0) (walk-last (lookup heap resolve v k.text c))
  loop-path (k ∷ j ∷ ks) v c h =
      loop-spell k v (b_dot ∷ spell_path (j ∷ ks)) c h.0
      ∙ walk-cong (λ w d. query_loop heap resolve false "" (some w) (spell_path (j ∷ ks)) d)
          (λ w d. descend (j ∷ ks) (some w) d) (λ w d. loop-path (j ∷ ks) (some w) d h.1)
          (lookup heap resolve v k.text c)

  -- A query that is no fact's own name but spells a path of keys walks that path: the first key is
  -- a fact, each further key is looked up in the value so far, and the answer is null as soon as
  -- one is not there.
  pub query_value-spell_path :
      (ks : List Key) (c : Collection) {b : Collection}
      → AllSpell ks
      → get_value heap resolve (spell_path ks) c ≡ returned (none, b)
      → query_value heap resolve (spell_path ks) c ≡ descend ks none b
  unfolding query_value
  query_value-spell_path ks c {b} h e = rw (e, ◌>>=◌) (loop-path ks none b h)
