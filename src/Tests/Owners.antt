-- ===== src/Tests/Owners.antt =====
-- include/mutex.h: a concrete recursive mutex with the laws that Mutex.antt asks of a pthread mutex.
use donkeycar_gt.Prelude.{
  ℕ, zero, suc, ◌≡◌, refl, ◌≢◌, Option, none, some, ◌==◌, leb, arith, if◌then◌else◌,
}
use mathlib.Core.Option.{some-injective}
use donkeycar_gt.Mutex.{PthreadMutex}

-- The owner of each mutex, with one less than the number of its locks.
abbrev pub Owners : Type 0
Owners = ℕ → Option (ℕ × ℕ)

abbrev pub write : Owners → ℕ → Option (ℕ × ℕ) → Owners
write w m o m' = if m' == m then o else w m'

abbrev pub locked_by : ℕ → Option (ℕ × ℕ) → ℕ
locked_by t none = 0
locked_by t (some (o, c)) = if t == o then suc c else 0

abbrev pub lock_entry : ℕ → Option (ℕ × ℕ) → Option (ℕ × ℕ)
lock_entry t none = some (t, 0)
lock_entry t (some (o, c)) = if t == o then some (t, suc c) else none

abbrev pub unlock_entry : Option (ℕ × ℕ) → Option (ℕ × ℕ)
unlock_entry none = none
unlock_entry (some (o, zero)) = none
unlock_entry (some (o, suc c)) = some (o, c)

abbrev pub relock : Owners → ℕ → Option (ℕ × ℕ) → Option Owners
relock w m none = none
relock w m (some o) = some (write w m (some o))

-- A mutex that can be locked four times; EBUSY is 16, EAGAIN 11.
abbrev pub try_entry : ℕ → Owners → ℕ → Option (ℕ × ℕ) → ℕ × Owners
try_entry t w m none = (0, write w m (some (t, 0)))
try_entry t w m (some (o, c)) =
    if t == o then (if leb 3 c then (11, w) else (0, write w m (some (t, suc c)))) else (16, w)

depth-write :
    (t m : ℕ) (w : Owners) (o : ℕ × ℕ)
    → lock_entry t (w m) ≡ some o
    → (t' m' : ℕ)
    → locked_by t' (write w m (some o) m') ≡ (
        if t' == t
        then (if m' == m then suc (locked_by t (w m)) else locked_by t' (w m'))
        else locked_by t' (w m'))
depth-write t m w o e t' m' = ground arith

pub depth-relock :
    (t m : ℕ) (w w' : Owners) (o : Option (ℕ × ℕ))
    → lock_entry t (w m) ≡ o
    → relock w m o ≡ some w'
    → (t' m' : ℕ)
    → locked_by t' (w' m') ≡ (
        if t' == t
        then (if m' == m then suc (locked_by t (w m)) else locked_by t' (w m'))
        else locked_by t' (w m'))
depth-relock t m w w' none e locked t' m' = cc
depth-relock t m w w' (some o) e locked t' m' =
    rw (← some-injective _ _ locked) (depth-write t m w o e t' m')

entry_ready :
    (t : ℕ) (o : Option (ℕ × ℕ)) → ((t' : ℕ) → t' ≢ t → locked_by t' o ≡ 0) → lock_entry t o ≢ none
entry_ready t none alone = λ e. cc
entry_ready t (some (o, c)) alone = ground (arith, alone o)

pub ready :
    (t m : ℕ) (w : Owners)
    → ((t' : ℕ) → t' ≢ t → locked_by t' (w m) ≡ 0)
    → relock w m (lock_entry t (w m)) ≢ none
ready t m w alone = ground (arith, entry_ready t (w m) alone)

pub depth-release :
    (t m d : ℕ) (w : Owners)
    → locked_by t (w m) ≡ suc d
    → (t' m' : ℕ)
    → locked_by t' (write w m (unlock_entry (w m)) m')
      ≡ (if t' == t then (if m' == m then d else locked_by t' (w m')) else locked_by t' (w m'))
depth-release t m d w e t' m' = ground arith

pub try_failed :
    (t m : ℕ) (w : Owners) → (try_entry t w m (w m)).0 ≢ 0 → (try_entry t w m (w m)).1 ≡ w
try_failed t m w e = ground arith

abbrev pub owners : PthreadMutex
owners = record {
  World = Owners;
  lock = λ t m w. relock w m (lock_entry t (w m));
  unlock = λ t m w. write w m (unlock_entry (w m));
  trylock = λ t m w. try_entry t w m (w m);
  ebusy = 16;
  depth = λ t m w. locked_by t (w m);
  depth-lock = λ t m w w' e. depth-relock t m w w' (lock_entry t (w m)) refl e;
  lock_ready = ready;
  depth-unlock = depth-release;
  trylock_failed = try_failed;
}

abbrev pub free : Owners
free m = none
