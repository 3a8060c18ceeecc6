-- ===== src/Server/Node/Tables.antt =====
-- Two maps of which the first has only keys of the second, when entries are put and deleted.
use fernq.Prelude.{◌≡◌, refl, subst, inl, inr, Option, none, some, Bool-cases, if◌then◌else◌}
use fernq.Prelude.Bytes.{Bytes}
use fernq.Prelude.Text.{same, same_refl}
use fernq.Storage.{put, delete}

-- Every key of the first map is a key of the second.
abbrev pub IsWithin : {A B : Type 0} → (Bytes → Option A) → (Bytes → Option B) → Type 0
IsWithin {A = A} {B = B} rooms m = (k : Bytes) (r : A) → rooms k ≡ some r → (v : B) × (m k ≡ some v)

pub put_same : {A : Type 0} (i : Bytes) (a : A) (m : Bytes → Option A) → put i a m i ≡ some a
put_same i a m = rw (same_refl i) refl

pub delete_same : {A : Type 0} (i : Bytes) (m : Bytes → Option A) → delete i m i ≡ none
delete_same i m = rw (same_refl i) refl

pub put-IsWithin :
    {A B : Type 0} (i : Bytes) (b : B) (rooms : Bytes → Option A) (m : Bytes → Option B)
    → IsWithin rooms m
    → IsWithin rooms (put i b m)
put-IsWithin i b rooms m h k r at = elim (Bool-cases (same i k)) [
  | inl e ↦ (b, rw e refl)
  | inr e ↦ let (v, found) = h k r at in (v, rw e found)
]

pub put-put-IsWithin :
    {A B : Type 0} (i : Bytes) (a : A) (b : B) (rooms : Bytes → Option A) (m : Bytes → Option B)
    → IsWithin rooms m
    → IsWithin (put i a rooms) (put i b m)
put-put-IsWithin i a b rooms m h k r at = elim (Bool-cases (same i k)) [
  | inl e ↦ (b, rw e refl)
  | inr e ↦
      let (v, found) = h k r (subst (λ t. (if t then some a else rooms k) ≡ some r) e at) in
      (v, rw e found)
]

nothing_known : {A : Type 0} {a : A} → ¬ (none ≡ some a)
nothing_known h = cc

pub delete-IsWithin :
    {A B : Type 0} (i : Bytes) (rooms : Bytes → Option A) (m : Bytes → Option B)
    → IsWithin rooms m
    → IsWithin (delete i rooms) m
delete-IsWithin i rooms m h k r at = elim (Bool-cases (same i k)) [
  | inl e ↦ absurd (nothing_known (subst (λ t. (if t then none else rooms k) ≡ some r) e at))
  | inr e ↦ h k r (subst (λ t. (if t then none else rooms k) ≡ some r) e at)
]

pub delete-delete-IsWithin :
    {A B : Type 0} (i : Bytes) (rooms : Bytes → Option A) (m : Bytes → Option B)
    → IsWithin rooms m
    → IsWithin (delete i rooms) (delete i m)
delete-delete-IsWithin i rooms m h k r at = elim (Bool-cases (same i k)) [
  | inl e ↦ absurd (nothing_known (subst (λ t. (if t then none else rooms k) ≡ some r) e at))
  | inr e ↦
      let (v, found) = h k r (subst (λ t. (if t then none else rooms k) ≡ some r) e at) in
      (v, rw e found)
]
