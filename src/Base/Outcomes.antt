-- ===== src/Base/Outcomes.antt =====
-- What a C++ call may come to.
use mathlib.Core.Path.{◌≡◌, refl, subst}

-- `undefined` is undefined behaviour that the code would run into (front() of an empty queue);
-- `no_fuel` says that a loop's bound ran out.
pub data Outcome {ℓ} (A : Type ℓ) : Type ℓ where
  ok : A → Outcome A
  out_of_range runtime_error undefined no_fuel : Outcome A

infixl 5 ◌>>=◌
abbrev pub ◌>>=◌ {ℓ κ} : {A : Type ℓ} {B : Type κ} → Outcome A → (A → Outcome B) → Outcome B
ok a >>= f = f a
out_of_range >>= f = out_of_range
runtime_error >>= f = runtime_error
undefined >>= f = undefined
no_fuel >>= f = no_fuel

pub ok-injective {ℓ} : {A : Type ℓ} {a b : A} → ok a ≡ ok b → a ≡ b
ok-injective e = cc

-- A call whose value is used by code that cannot fail.
abbrev pub map_ok {ℓ κ} : {A : Type ℓ} {B : Type κ} → (A → B) → Outcome A → Outcome B
map_ok f m = m >>= λ a. ok (f a)

-- A chain that has a value, taken apart.
pub >>=-ok {ℓ κ} :
    {A : Type ℓ} {B : Type κ} (m : Outcome A) (f : A → Outcome B) {b : B}
    → (m >>= f) ≡ ok b
    → (a : A) × (m ≡ ok a) × (f a ≡ ok b)
>>=-ok (ok a) f h = (a, refl, h)
>>=-ok out_of_range f h = cc
>>=-ok runtime_error f h = cc
>>=-ok undefined f h = cc
>>=-ok no_fuel f h = cc

-- If the call has a value, it has the property.
abbrev pub Holds {ℓ κ} : {A : Type ℓ} → (A → Type κ) → Outcome A → Type κ
Holds Q (ok a) = Q a
Holds Q out_of_range = Unit
Holds Q runtime_error = Unit
Holds Q undefined = Unit
Holds Q no_fuel = Unit

pub Holds->>= {ℓ κ μ ν} :
    {A : Type ℓ} {B : Type κ} (Q : A → Type μ) (R : B → Type ν) (m : Outcome A) (f : A → Outcome B)
    → Holds Q m
    → ((a : A) → Q a → Holds R (f a))
    → Holds R (m >>= f)
Holds->>= Q R (ok a) f h k = k a h
Holds->>= Q R out_of_range f h k = tt
Holds->>= Q R runtime_error f h k = tt
Holds->>= Q R undefined f h k = tt
Holds->>= Q R no_fuel f h k = tt

pub Holds-map {ℓ κ μ} :
    {A : Type ℓ} (Q : A → Type κ) (R : A → Type μ) (m : Outcome A)
    → Holds Q m
    → ((a : A) → Q a → R a)
    → Holds R m
Holds-map Q R (ok a) h k = k a h
Holds-map Q R out_of_range h k = tt
Holds-map Q R runtime_error h k = tt
Holds-map Q R undefined h k = tt
Holds-map Q R no_fuel h k = tt

pub Holds-ok {ℓ κ} :
    {A : Type ℓ} (Q : A → Type κ) {m : Outcome A} {a : A} → Holds Q m → m ≡ ok a → Q a
Holds-ok Q h e = subst (Holds Q) e h

-- Every call either has a value or not.
pub Holds-Unit {ℓ} : {A : Type ℓ} (m : Outcome A) → Holds (λ a. Unit {0}) m
Holds-Unit (ok a) = tt
Holds-Unit out_of_range = tt
Holds-Unit runtime_error = tt
Holds-Unit undefined = tt
Holds-Unit no_fuel = tt

pub Holds-self {ℓ} : {A : Type ℓ} (m : Outcome A) → Holds (λ a. m ≡ ok a) m
Holds-self (ok a) = refl
Holds-self out_of_range = tt
Holds-self runtime_error = tt
Holds-self undefined = tt
Holds-self no_fuel = tt

pub Holds-both {ℓ κ μ} :
    {A : Type ℓ} (Q : A → Type κ) (R : A → Type μ) (m : Outcome A)
    → Holds Q m
    → Holds R m
    → Holds (λ a. Q a × R a) m
Holds-both Q R (ok a) h k = (h, k)
Holds-both Q R out_of_range h k = tt
Holds-both Q R runtime_error h k = tt
Holds-both Q R undefined h k = tt
Holds-both Q R no_fuel h k = tt
