-- ===== src/Tests/Mutexes.antt =====
-- include/mutex.h and include/lock.hpp: a concrete recursive mutex, and locks over it.
use donkeycar_gt.Prelude.{ℕ, ◌≡◌, refl, ◌≢◌, true, some, List, [], ◌∷◌, ◌+◌}
use donkeycar_gt.Run.{ok}
use donkeycar_gt.Lock.{Lock, ctor, dtor, copy_ctor, move_ctor}
use donkeycar_gt.Lock.Held.{held, held_by}
use donkeycar_gt.Lock.Balance.{
  Op, construct, copy, move, destroy, apply, apply_all, lock_balance, destroy_completes,
}
use donkeycar_gt.Tests.Owners.{Owners, owners, free, locked_by, write}

-- Two locks of mutex 5, one of them moved, and a copy of it; the moved-from one is destroyed.
abbrev scope : List Op
scope = construct 5 ∷ construct 5 ∷ move 0 ∷ copy 0 ∷ destroy 2 ∷ []

abbrev held_five : Lock
held_five = record { m_mutex = some 5; m_lock_cnt = 1 }

abbrev thrice : Owners
thrice = write (write (write free 5 (some (1, 0))) 5 (some (1, 1))) 5 (some (1, 2))

abbrev last : List Lock × Owners
last = (held_five ∷ held_five ∷ held_five ∷ [], thrice)

scope_run : apply_all owners true 1 scope ([], free) ≡ ok last
unfolding apply_all apply ctor copy_ctor move_ctor dtor
scope_run = refl

lock_balance_example :
    ((m : ℕ) → locked_by 1 (thrice m) ≡ 0 + held m last.0)
    × ((t' m : ℕ) → t' ≢ 1 → locked_by t' (thrice m) ≡ 0)
    × (last.0 ≡ [] → (m : ℕ) → locked_by 1 (thrice m) ≡ 0)
lock_balance_example = lock_balance owners true 1 scope free last scope_run

destroy_completes_example :
    (w' : Owners) × (apply owners true 1 (destroy 0) last ≡ ok (held_five ∷ held_five ∷ [], w'))
    × ((m : ℕ) → locked_by 1 (w' m) + held_by m held_five ≡ locked_by 1 (thrice m))
destroy_completes_example =
    destroy_completes owners true 1 scope free last 0 held_five scope_run refl
