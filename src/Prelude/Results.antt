-- ===== src/Prelude/Results.antt =====
-- Predicates on an optional result: `IfSome` where there may be none, `Returns` where there is one.
use mathlib.Core.Path.{◌≡◌, refl, sym, subst}
use mathlib.Core.Option
use mathlib.Core.Option.{Option, none, some}

-- A predicate on the result, if there is one.
abbrev pub IfSome {ℓ ℓ'} : {A : Type ℓ} → (A → Type ℓ') → Option A → Type ℓ'
IfSome P none = Unit
IfSome P (some a) = P a

pub bind-IfSome {ℓ ℓ' ℓ'' ℓ'''} :
    {A : Type ℓ} {B : Type ℓ'} (P : A → Type ℓ'') (Q : B → Type ℓ''') (o : Option A)
    (k : A → Option B)
    → IfSome P o
    → ((a : A) → P a → IfSome Q (k a))
    → IfSome Q (Option.bind o k)
unfolding Option.bind
bind-IfSome P Q none k h step = tt
bind-IfSome P Q (some a) k h step = step a h

pub map-IfSome {ℓ ℓ' ℓ'' ℓ'''} :
    {A : Type ℓ} {B : Type ℓ'} (P : A → Type ℓ'') (Q : B → Type ℓ''') (o : Option A) (k : A → B)
    → IfSome P o
    → ((a : A) → P a → Q (k a))
    → IfSome Q (Option.map k o)
map-IfSome P Q none k h step = tt
map-IfSome P Q (some a) k h step = step a h

pub any_IfSome {ℓ} : {A : Type ℓ} (o : Option A) → IfSome {ℓ, 0} (λ a. Unit) o
any_IfSome none = tt
any_IfSome (some a) = tt

pub both-IfSome {ℓ ℓ' ℓ''} :
    {A : Type ℓ} (P : A → Type ℓ') (Q : A → Type ℓ'') (o : Option A)
    → IfSome P o
    → IfSome Q o
    → IfSome (λ a. P a × Q a) o
both-IfSome P Q none p q = tt
both-IfSome P Q (some a) p q = (p, q)

pub all-IfSome {ℓ ℓ' ℓ''} :
    {A : Type ℓ} {Q : Type ℓ'} (P : Q → A → Type ℓ'') (o : Option A)
    → ((q : Q) → IfSome (P q) o)
    → IfSome (λ a. (q : Q) → P q a) o
all-IfSome P none h = tt
all-IfSome P (some a) h = λ q. h q

-- A result, with a predicate on it.
abbrev pub Returns {ℓ ℓ'} : {A : Type ℓ} → (A → Type ℓ') → Option A → Type (ℓ ⊔ ℓ')
Returns {A} P o = (a : A) × (o ≡ some a) × P a

pub bind-Returns {ℓ ℓ' ℓ'' ℓ'''} :
    {A : Type ℓ} {B : Type ℓ'} (P : A → Type ℓ'') (Q : B → Type ℓ''') (o : Option A)
    (k : A → Option B)
    → Returns P o
    → ((a : A) → P a → Returns Q (k a))
    → Returns Q (Option.bind o k)
unfolding Option.bind
bind-Returns P Q o k (a, e, h) step = subst (λ o. Returns Q (Option.bind o k)) (sym e) (step a h)

pub map-Returns {ℓ ℓ' ℓ'' ℓ'''} :
    {A : Type ℓ} {B : Type ℓ'} (P : A → Type ℓ'') (Q : B → Type ℓ''') (o : Option A) (k : A → B)
    → Returns P o
    → ((a : A) → P a → Q (k a))
    → Returns Q (Option.map k o)
map-Returns P Q o k (a, e, h) step =
    subst (λ o. Returns Q (Option.map k o)) (sym e) (k a, refl, step a h)

-- Some result.
abbrev pub Any {ℓ} : {A : Type ℓ} → Option A → Type ℓ
Any o = Returns {_, 0} (λ a. Unit) o

pub some-Any {ℓ} : {A : Type ℓ} (a : A) → Any (some a)
some-Any a = (a, refl, tt)
