-- ===== src/Ruby/Module/Ensures.antt =====
-- What holds after a call that may run out of fuel, and of all files of a list.
use facter.Base.{
  String, ◌≡◌, refl, ap, subst, ◌∙◌, inl, inr, Bool, true, false, Option, none, some, List, [], ◌∷◌,
  keep, All, ◌==◌, eq_iff, if◌then◌else◌, arith, Bool-cases,
}
use facter.Ruby.Module.{contains, ◌>>=◌}
use facter.Ruby.Module.Loading.{contains-head, contains-tail}

-- The call did not run out of fuel, and where it came to, the predicate holds.
abbrev pub Ensures {ℓ} : {A : Type ℓ} → (A → Type 0) → Option A → Type 0
Ensures P none = ⊥
Ensures P (some a) = P a

pub Ensures-bind {ℓ κ} :
    {A : Type ℓ} {B : Type κ} (P : A → Type 0) (Q : B → Type 0) (o : Option A) (f : A → Option B)
    → Ensures P o
    → ((a : A) → P a → Ensures Q (f a))
    → Ensures Q (o >>= f)
Ensures-bind P Q none f h k = absurd h
Ensures-bind P Q (some a) f h k = k a h

pub Ensures-map {ℓ} :
    {A : Type ℓ} (P Q : A → Type 0) (o : Option A)
    → Ensures P o
    → ((a : A) → P a → Q a)
    → Ensures Q o
Ensures-map P Q none h k = absurd h
Ensures-map P Q (some a) h k = k a h

pub Ensures-if {ℓ} :
    {A : Type ℓ} (P : A → Type 0) (b : Bool) (x y : Option A)
    → (b ≡ true → Ensures P x)
    → (b ≡ false → Ensures P y)
    → Ensures P (if b then x else y)
Ensures-if P true x y h k = h refl
Ensures-if P false x y h k = k refl

All-keep_tail :
    (P : String → Type 0) (t : String → Bool) (q : String) (l : List String)
    → All P (keep t (q ∷ l))
    → All P (keep t l)
All-keep_tail P t q l a = elim (Bool-cases (t q)) [ inl e ↦ (rw e at a).1 | inr e ↦ rw e at a ]

pub All-contains :
    (P : String → Type 0) (p : String) (t : String → Bool) (l : List String)
    → All P (keep t l)
    → contains p l ≡ true
    → t p ≡ true
    → P p
unfolding contains
All-contains P p t [] a h k = absurd (ground arith)
All-contains P p t (q ∷ l) a h k = elim (Bool-cases (q == p)) [
  | inl e ↦
      let same : q ≡ p = (eq_iff q p).0 e in
      let kept : t q ≡ true = ap t same ∙ k in subst P same (rw kept at a).0
  | inr e ↦ All-contains P p t l (All-keep_tail P t q l a) (ground (arith, e)) k
]

pub All-intro :
    (P : String → Type 0) (l : List String) → ((p : String) → contains p l ≡ true → P p) → All P l
unfolding contains
All-intro P [] h = tt
All-intro P (p ∷ l) h = (h p (contains-head p l), All-intro P l λ q k. h q (contains-tail q p l k))

All-map : (P Q : String → Type 0) (l : List String) → ((p : String) → P p → Q p) → All P l → All Q l
All-map P Q [] f a = tt
All-map P Q (p ∷ l) f a = (f p a.0, All-map P Q l f a.1)
