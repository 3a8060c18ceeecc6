-- ===== src/Prelude/Search.antt =====
-- The searches of Rust strings that the program uses, for ASCII characters, on the bytes.
use fernq.Prelude.{
  ℕ, ◌≡◌, refl, Bool, true, false, not, ◌&&◌, Option, none, some, List, [], ◌∷◌, ◌++◌, All, ◌==◌,
  if◌then◌else◌, arith, ==_refl, ==_iff, Bool-cases, inl, inr, ap, subst,
}
use fernq.Prelude.Bytes.{Bytes}

-- `s.starts_with(p)`.
unfoldable pub starts_with : Bytes → Bytes → Bool
starts_with [] s = true
starts_with (c ∷ cs) [] = false
starts_with (c ∷ cs) (b ∷ bs) = c == b && starts_with cs bs

-- `s.strip_prefix(p)`.
unfoldable pub strip_prefix : Bytes → Bytes → Option Bytes
strip_prefix [] s = some s
strip_prefix (c ∷ cs) [] = none
strip_prefix (c ∷ cs) (b ∷ bs) = let rest = strip_prefix cs bs in if c == b then rest else none

abbrev pub cons_first : ℕ → Option (Bytes × Bytes) → Option (Bytes × Bytes)
cons_first b none = none
cons_first b (some (x, y)) = some (b ∷ x, y)

-- With `i = s.find(c)`: `&s[..i]` and `&s[i + 1..]`.
unfoldable pub find : ℕ → Bytes → Option (Bytes × Bytes)
find c [] = none
find c (b ∷ bs) = let rest = find c bs in if b == c then some ([], bs) else cons_first b rest

abbrev pub or_else {ℓ} : {A : Type ℓ} → Option A → Option A → Option A
or_else none other = other
or_else (some a) other = some a

-- With `i = s.rfind(c)`: `&s[..i]` and `&s[i + 1..]`.
unfoldable pub rfind : ℕ → Bytes → Option (Bytes × Bytes)
rfind c [] = none
rfind c (b ∷ bs) = or_else (cons_first b (rfind c bs)) (if b == c then some ([], bs) else none)

-- `s.rsplit(c).next()`, which is never `None`.
unfoldable pub rsplit_next : ℕ → Bytes → Bytes
rsplit_next c s = elim (rfind c s) [ none ↦ s | some (x, y) ↦ y ]

abbrev pub split_cons : ℕ → ℕ → List Bytes → List Bytes
split_cons c b [] = []
split_cons c b (part ∷ parts) = if b == c then [] ∷ part ∷ parts else (b ∷ part) ∷ parts

-- `s.split(c)`.
unfoldable pub split : ℕ → Bytes → List Bytes
split c [] = [] ∷ []
split c (b ∷ bs) = split_cons c b (split c bs)

-- `&s[..s.find(stop).unwrap_or(s.len())]`.
unfoldable pub take_until : (ℕ → Bool) → Bytes → Bytes
take_until stop [] = []
take_until stop (b ∷ bs) = let rest = take_until stop bs in if stop b then [] else b ∷ rest

-- The byte does not occur.
abbrev pub Lacks : ℕ → Bytes → Type 0
Lacks c s = All (λ b. (b == c) ≡ false) s

-- The same as a test, for text that is known.
abbrev pub lacks : ℕ → Bytes → Bool
lacks c [] = true
lacks c (b ∷ bs) = not (b == c) && lacks c bs

pub lacks-Lacks : (c : ℕ) (s : Bytes) → lacks c s ≡ true → Lacks c s
lacks-Lacks c [] h = tt
lacks-Lacks c (b ∷ bs) h = (ground arith, lacks-Lacks c bs (ground arith))

pub Lacks-append : (c : ℕ) (s t : Bytes) → Lacks c s → Lacks c t → Lacks c (s ++ t)
Lacks-append c [] t h k = k
Lacks-append c (b ∷ bs) t (e, h) k = (e, Lacks-append c bs t h k)

pub starts_with-append : (p s t : Bytes) → starts_with p s ≡ true → starts_with p (s ++ t) ≡ true
unfolding starts_with
starts_with-append [] s t h = refl
starts_with-append (c ∷ cs) [] t h = cc
starts_with-append (c ∷ cs) (b ∷ bs) t h = ground (arith, starts_with-append cs bs t)

pub starts_with_refl : (p : Bytes) → starts_with p p ≡ true
unfolding starts_with
starts_with_refl [] = refl
starts_with_refl (c ∷ cs) = ground (arith, starts_with_refl cs)

pub strip_prefix-append : (p s : Bytes) → strip_prefix p (p ++ s) ≡ some s
unfolding strip_prefix
strip_prefix-append [] s = refl
strip_prefix-append (c ∷ cs) s = rw (==_refl c) (strip_prefix-append cs s)

pub find-append : (c : ℕ) (s t : Bytes) → Lacks c s → find c (s ++ c ∷ t) ≡ some (s, t)
unfolding find
find-append c [] t h = rw (==_refl c) refl
find-append c (b ∷ bs) t (e, h) = rw (e, find-append c bs t h) refl

pub rfind-none : (c : ℕ) (s : Bytes) → Lacks c s → rfind c s ≡ none
unfolding rfind
rfind-none c [] h = refl
rfind-none c (b ∷ bs) (e, h) = rw (rfind-none c bs h, e) refl

pub rfind-append : (c : ℕ) (s t : Bytes) → Lacks c t → rfind c (s ++ c ∷ t) ≡ some (s, t)
unfolding rfind
rfind-append c [] t h = rw (rfind-none c t h, ==_refl c) refl
rfind-append c (b ∷ bs) t h = rw (rfind-append c bs t h) refl

pub rsplit_next-append : (c : ℕ) (s t : Bytes) → Lacks c t → rsplit_next c (s ++ c ∷ t) ≡ t
unfolding rsplit_next
rsplit_next-append c s t h = rw (rfind-append c s t h, rsplit_next) refl

pub split_one : (c : ℕ) (s : Bytes) → Lacks c s → split c s ≡ s ∷ []
unfolding split
split_one c [] h = refl
split_one c (b ∷ bs) (e, h) = rw (split_one c bs h, e) refl

-- What `find` returns is the string taken apart at the first such byte.
abbrev pub IsSplit : ℕ → Bytes → Option (Bytes × Bytes) → Type 0
IsSplit c s none = Unit {0}
IsSplit c s (some (x, y)) = (s ≡ x ++ c ∷ y) × Lacks c x

IsSplit-cons_first :
    (c b : ℕ) (bs : Bytes) (o : Option (Bytes × Bytes))
    → (b == c) ≡ false
    → IsSplit c bs o
    → IsSplit c (b ∷ bs) (cons_first b o)
IsSplit-cons_first c b bs none e h = tt
IsSplit-cons_first c b bs (some (x, y)) e (h, k) = (ap (◌∷◌ b) h, (e, k))

find-IsSplit : (c : ℕ) (s : Bytes) → IsSplit c s (find c s)
unfolding find
find-IsSplit c [] = tt
find-IsSplit c (b ∷ bs) = elim (Bool-cases (b == c)) [
  | inl e ↦ rw e (ap (λ n. n ∷ bs) ((==_iff b c).0 e), tt)
  | inr e ↦ rw e (IsSplit-cons_first c b bs (find c bs) e (find-IsSplit c bs))
]

pub find_sound : (c : ℕ) (s x y : Bytes) → find c s ≡ some (x, y) → (s ≡ x ++ c ∷ y) × Lacks c x
find_sound c s x y h = subst (IsSplit c s) h (find-IsSplit c s)
