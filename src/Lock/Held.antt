-- ===== src/Lock/Held.antt =====
-- include/lock.hpp: how often a list of `Lock` objects holds a mutex.
use donkeycar_gt.Prelude.Relations.{All}
use donkeycar_gt.Prelude.{
  ℕ, zero, suc, ◌+◌, ◌≡◌, refl, none, some, List, [], ◌∷◌, ◌==◌, if◌then◌else◌, arith, get_elem?,
  set,
}
use mathlib.Core.Option.{some-injective}
use donkeycar_gt.Lock.{Lock}

abbrev pub remove_at {ℓ} : {A : Type ℓ} → ℕ → List A → List A
remove_at i [] = []
remove_at zero (x ∷ xs) = xs
remove_at (suc i) (x ∷ xs) = x ∷ remove_at i xs

-- How often an object holds a mutex.
abbrev pub held_by : ℕ → Lock → ℕ
held_by m l = elim l.m_mutex [ none ↦ 0 | some k ↦ if k == m then l.m_lock_cnt else 0 ]

abbrev pub held : ℕ → List Lock → ℕ
held m [] = 0
held m (l ∷ ls) = held_by m l + held m ls

-- A count without a mutex would be unlocked through a null pointer.
abbrev pub IsSound : Lock → Type 0
IsSound l = l.m_mutex ≡ none → l.m_lock_cnt ≡ 0

pub held-set :
    (m i : ℕ) (ls : List Lock) (l k : Lock)
    → get_elem? ls i ≡ some l
    → held m (set ls i k) + held_by m l ≡ held m ls + held_by m k
held-set m i [] l k e = cc
held-set m zero (x ∷ ls) l k e = ground arith
held-set m (suc i) (x ∷ ls) l k e = omega (arith, held-set m i ls l k e)

pub held-remove_at :
    (m i : ℕ) (ls : List Lock) (l : Lock)
    → get_elem? ls i ≡ some l
    → held m (remove_at i ls) + held_by m l ≡ held m ls
held-remove_at m i [] l e = cc
held-remove_at m zero (x ∷ ls) l e = ground arith
held-remove_at m (suc i) (x ∷ ls) l e = omega (arith, held-remove_at m i ls l e)

pub All-get {ℓ κ} :
    {A : Type ℓ} (P : A → Type κ) (ls : List A) (i : ℕ) (l : A)
    → All P ls
    → get_elem? ls i ≡ some l
    → P l
All-get P [] i l h e = cc
All-get P (x ∷ ls) zero l h e = rw (← some-injective _ _ e) (h.0)
All-get P (x ∷ ls) (suc i) l h e = All-get P ls i l h.1 e

pub All-set {ℓ κ} :
    {A : Type ℓ} (P : A → Type κ) (ls : List A) (i : ℕ) (k : A)
    → All P ls
    → P k
    → All P (set ls i k)
All-set P [] i k h pk = tt
All-set P (x ∷ ls) zero k h pk = (pk, h.1)
All-set P (x ∷ ls) (suc i) k h pk = (h.0, All-set P ls i k h.1 pk)

pub All-remove_at {ℓ κ} :
    {A : Type ℓ} (P : A → Type κ) (ls : List A) (i : ℕ) → All P ls → All P (remove_at i ls)
All-remove_at P [] i h = tt
All-remove_at P (x ∷ ls) zero h = h.1
All-remove_at P (x ∷ ls) (suc i) h = (h.0, All-remove_at P ls i h.1)

pub get-set_self {ℓ} :
    {A : Type ℓ} (ls : List A) (i j : ℕ) (a b l : A)
    → get_elem? ls i ≡ some a
    → get_elem? ls j ≡ some b
    → get_elem? (set ls i l) j ≡ some (if i == j then l else b)
get-set_self [] i j a b l e f = cc
get-set_self (x ∷ ls) zero zero a b l e f = refl
get-set_self (x ∷ ls) zero (suc j) a b l e f = ground (arith, f)
get-set_self (x ∷ ls) (suc i) zero a b l e f = ground (arith, f)
get-set_self (x ∷ ls) (suc i) (suc j) a b l e f = ground (arith, get-set_self ls i j a b l e f)

pub get_elem?-set_own {ℓ} :
    {A : Type ℓ} (ls : List A) (i : ℕ) (a l : A)
    → get_elem? ls i ≡ some l
    → get_elem? (set ls i a) i ≡ some a
get_elem?-set_own [] i a l e = cc
get_elem?-set_own (x ∷ ls) zero a l e = refl
get_elem?-set_own (x ∷ ls) (suc i) a l e = get_elem?-set_own ls i a l e
