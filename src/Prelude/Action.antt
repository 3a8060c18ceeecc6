-- ===== src/Prelude/Action.antt =====
-- Code that works on a state and may fail: it returns what it returns, and the state it leaves.
use mathlib.Core.Path.{◌≡◌, refl}
use fernq.Prelude.{Result, ok, err, panic, stuck}

abbrev pub Action : Type 0 → Type 0 → Type 0 → Type 0
Action S E A = S → Result E A × S

abbrev pub run_next : {S E A B : Type 0} → Result E A × S → (A → Action S E B) → Result E B × S
run_next (ok a, s) f = f a s
run_next (err e, s) f = (err e, s)
run_next (panic, s) f = (panic, s)
run_next (stuck, s) f = (stuck, s)

infixl 5 ◌>>=◌ ◌>>◌
abbrev pub ◌>>=◌ : {S E A B : Type 0} → Action S E A → (A → Action S E B) → Action S E B
m >>= f = λ s. run_next (m s) f

abbrev pub ◌>>◌ : {S E B : Type 0} → Action S E (Unit {0}) → Action S E B → Action S E B
m >> k = m >>= λ u. k

abbrev pub return : {S E A : Type 0} → A → Action S E A
return a = λ s. (ok a, s)

-- A result that does not touch the state.
abbrev pub lift : {S E A : Type 0} → Result E A → Action S E A
lift r = λ s. (r, s)

-- A result that is read from the state.
abbrev pub read : {S E A : Type 0} → (S → Result E A) → Action S E A
read f = λ s. (f s, s)

abbrev pub change : {S E : Type 0} → (S → S) → Action S E (Unit {0})
change f = λ s. (ok tt, f s)

-- What holds afterwards: `Q` of the value and the state, or `K` of the state where there is no value.
unfoldable pub Post : {S E A : Type 0} → (A → S → Type 0) → (S → Type 0) → Result E A × S → Type 0
Post Q K (ok a, s) = Q a s
Post Q K (err e, s) = K s
Post Q K (panic, s) = K s
Post Q K (stuck, s) = K s

pub Post-run_next :
    {S E A B : Type 0} (R : B → S → Type 0) (Q : A → S → Type 0) (K : S → Type 0)
    (o : Result E A × S) (f : A → Action S E B)
    → Post Q K o
    → ((a : A) (s : S) → Q a s → Post R K (f a s))
    → Post R K (run_next o f)
unfolding Post
Post-run_next R Q K (ok a, s) f h k = k a s h
Post-run_next R Q K (err e, s) f h k = h
Post-run_next R Q K (panic, s) f h k = h
Post-run_next R Q K (stuck, s) f h k = h

pub Post-read :
    {S E A : Type 0} (Q : A → S → Type 0) (K : S → Type 0) (r : Result E A) (s : S)
    → ((a : A) → r ≡ ok a → Q a s)
    → K s
    → Post Q K (r, s)
unfolding Post
Post-read Q K (ok a) s h j = h a refl
Post-read Q K (err e) s h j = j
Post-read Q K panic s h j = j
Post-read Q K stuck s h j = j

-- Both ways out are one claim about the state.
pub Post-forget :
    {S E A : Type 0} (K : S → Type 0) (o : Result E A × S) → Post (λ a s. K s) K o → K o.1
unfolding Post
Post-forget K (ok a, s) h = h
Post-forget K (err e, s) h = h
Post-forget K (panic, s) h = h
Post-forget K (stuck, s) h = h

pub Post-always :
    {S E A : Type 0} (K : S → Type 0) (o : Result E A × S) → K o.1 → Post (λ a s. K s) K o
unfolding Post
Post-always K (ok a, s) h = h
Post-always K (err e, s) h = h
Post-always K (panic, s) h = h
Post-always K (stuck, s) h = h

pub Post-ok :
    (E : Type 0) {S A : Type 0} (Q : A → S → Type 0) (K : S → Type 0) (a : A) (s : S)
    → Q a s
    → Post {E = E} Q K (ok a, s)
unfolding Post
Post-ok E Q K a s h = h

-- A first step that only reads.
pub Post-run_read :
    {S E A B : Type 0} (R : B → S → Type 0) (K : S → Type 0) (r : Result E A) (s : S)
    (f : A → Action S E B)
    → ((a : A) → r ≡ ok a → Post R K (f a s))
    → K s
    → Post R K (run_next (r, s) f)
unfolding Post
Post-run_read R K (ok a) s f h k = h a refl
Post-run_read R K (err e) s f h k = k
Post-run_read R K panic s f h k = k
Post-run_read R K stuck s f h k = k
