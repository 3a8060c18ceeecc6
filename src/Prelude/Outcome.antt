-- ===== src/Prelude/Outcome.antt =====
-- What a Rust function does: it returns a value or an error, or it panics. `stuck` is no Rust
-- outcome: a loop of the model ran out of fuel.
use mathlib.Core.Path.{◌≡◌, refl}
use mathlib.Core.Logic.{◌⊎◌, inl, inr}
use mathlib.Core.Bool.{Bool, true, false}
use mathlib.Core.Option.{Option, none, some}

pub data Result {ℓ} (E : Type 0) (A : Type ℓ) : Type ℓ where
  ok : A → Result E A
  err : E → Result E A
  panic : Result E A
  stuck : Result E A

infixl 5 ◌>>=◌ ◌>>◌
abbrev pub ◌>>=◌ {ℓ κ} :
    {E : Type 0} {A : Type ℓ} {B : Type κ} → Result E A → (A → Result E B) → Result E B
ok a >>= f = f a
err e >>= f = err e
panic >>= f = panic
stuck >>= f = stuck

abbrev pub ◌>>◌ {ℓ} : {E : Type 0} {B : Type ℓ} → Result E (Unit {0}) → Result E B → Result E B
m >> k = m >>= λ _. k

-- An early return with an error when the test holds.
abbrev pub fail_if : {E : Type 0} → Bool → E → Result E (Unit {0})
fail_if true e = err e
fail_if false e = ok tt

-- `Option::ok_or`.
abbrev pub ok_or {ℓ} : {E : Type 0} {A : Type ℓ} → Option A → E → Result E A
ok_or none e = err e
ok_or (some a) e = ok a

-- The function returned, with a value or an error.
unfoldable pub Returns {ℓ} : {E : Type 0} {A : Type ℓ} → Result E A → Type 0
Returns (ok a) = Unit {0}
Returns (err e) = Unit {0}
Returns panic = ⊥
Returns stuck = ⊥

pub ok-Returns {ℓ} : (E : Type 0) {A : Type ℓ} (a : A) → Returns {E = E} (ok a)
unfolding Returns
ok-Returns E a = tt

-- A sequence returns if its first part does and the rest does after each value of it.
pub >>=-Returns {ℓ κ} :
    {E : Type 0} {A : Type ℓ} {B : Type κ} (m : Result E A) (f : A → Result E B)
    → Returns m
    → ((a : A) → m ≡ ok a → Returns (f a))
    → Returns (m >>= f)
unfolding Returns
>>=-Returns (ok a) f h k = k a refl
>>=-Returns (err e) f h k = tt
>>=-Returns panic f h k = absurd h
>>=-Returns stuck f h k = absurd h

pub Result-cases {ℓ} :
    {E : Type 0} {A : Type ℓ} (m : Result E A)
    → Returns m
    → ((a : A) × (m ≡ ok a)) ⊎ ((e : E) × (m ≡ err e))
unfolding Returns
Result-cases (ok a) h = inl (a, refl)
Result-cases (err e) h = inr (e, refl)
Result-cases panic h = absurd h
Result-cases stuck h = absurd h

pub ok-injective {ℓ} :
    {E : Type 0} {A : Type ℓ} {a b : A} {m : Result E A} → m ≡ ok a → m ≡ ok b → a ≡ b
ok-injective h k = cc

-- Inversion of a sequence that succeeds, for proofs that go on with its parts.
pub take_ok {ℓ κ μ} :
    {E : Type 0} {A : Type ℓ} {B : Type κ} {P : Type μ} (m : Result E A) (f : A → Result E B)
    {b : B}
    → (m >>= f) ≡ ok b
    → ((a : A) → m ≡ ok a → f a ≡ ok b → P)
    → P
take_ok (ok a) f h go = go a refl h
take_ok (err e) f h go = absurd (cc)
take_ok panic f h go = absurd (cc)
take_ok stuck f h go = absurd (cc)

pub pass_if {ℓ κ} :
    {E : Type 0} {B : Type ℓ} {P : Type κ} (test : Bool) (e : E) (k : Result E B) {b : B}
    → (fail_if test e >> k) ≡ ok b
    → (test ≡ false → k ≡ ok b → P)
    → P
pass_if true e k h go = absurd (cc)
pass_if false e k h go = go refl h

pub take_some {ℓ κ μ} :
    {E : Type 0} {A : Type ℓ} {B : Type κ} {P : Type μ} (o : Option A) (e : E) (f : A → Result E B)
    {b : B}
    → (ok_or o e >>= f) ≡ ok b
    → ((a : A) → o ≡ some a → f a ≡ ok b → P)
    → P
take_some none e f h go = absurd (cc)
take_some (some a) e f h go = go a refl h

-- The steps of a proof that a sequence returns.
pub fail_if-Returns {ℓ} :
    {E : Type 0} {B : Type ℓ} (test : Bool) (e : E) (k : Result E B)
    → (test ≡ false → Returns k)
    → Returns (fail_if test e >> k)
unfolding Returns
fail_if-Returns true e k h = tt
fail_if-Returns false e k h = h refl

pub known-Returns {ℓ κ} :
    {E : Type 0} {A : Type ℓ} {B : Type κ} (m : Result E A) (f : A → Result E B) {a : A}
    → m ≡ ok a
    → Returns (f a)
    → Returns (m >>= f)
unfolding Returns
known-Returns m f e h = rw e h

pub some-Returns {ℓ κ} :
    {E : Type 0} {A : Type ℓ} {B : Type κ} (o : Option A) (e : E) (f : A → Result E B) {a : A}
    → o ≡ some a
    → Returns (f a)
    → Returns (ok_or o e >>= f)
unfolding Returns
some-Returns o e f h r = rw h r
