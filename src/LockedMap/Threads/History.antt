-- ===== src/LockedMap/Threads/History.antt =====
-- include/locked-map.hpp: what the operations of many threads on one map answer, by the order in which they
-- took effect and with no view of the entries that the map keeps.
use donkeycar_gt.Prelude.{
  ℕ, ◌+◌, ◌≡◌, Bool, true, false, List, [], ◌∷◌, Option, none, some, length, ◌==◌, if◌then◌else◌,
}
use donkeycar_gt.Run.{out_of_range, the}
use donkeycar_gt.LockedMap.Table.{Key, find}
use donkeycar_gt.LockedMap.Threads.{
  Op, insert, at, clear, size, empty, Answer, done, value, count, flag,
}

abbrev is_none {ℓ} : {V : Type ℓ} → Option V → Bool
is_none none = true
is_none (some v) = false

module _ {ℓ} {K V : Type ℓ} ⦃key : Key K⦄ where
  open key use {same}

  -- What was inserted last at a key, and not cleared since; the log has its newest entry first.
  abbrev pub latest : K → List (Op K V × Answer V) → Option V
  latest k [] = none
  latest k ((insert j v, a) ∷ log) = if same j k then some v else latest k log
  latest k ((clear, a) ∷ log) = none
  latest k ((at j, a) ∷ log) = latest k log
  latest k ((size, a) ∷ log) = latest k log
  latest k ((empty, a) ∷ log) = latest k log

  -- How many keys something is at: an insertion adds one if nothing was at its key.
  abbrev pub present : List (Op K V × Answer V) → ℕ
  present [] = 0
  present ((insert j v, a) ∷ log) = if is_none (latest j log) then present log + 1 else present log
  present ((clear, a) ∷ log) = 0
  present ((at j, a) ∷ log) = present log
  present ((size, a) ∷ log) = present log
  present ((empty, a) ∷ log) = present log

  -- The answer to an operation after those of a log.
  abbrev pub answer_to : Op K V → List (Op K V × Answer V) → Answer V
  answer_to (insert k v) log = done
  answer_to clear log = done
  answer_to (at k) log = value (the (latest k log) out_of_range)
  answer_to size log = count (present log)
  answer_to empty log = flag (present log == 0)

  abbrev pub Answered : List (Op K V × Answer V) → Type ℓ
  Answered [] = Unit {ℓ}
  Answered ((op, a) ∷ log) = (a ≡ answer_to op log) × Answered log

  record IsHistory (log : List (Op K V × Answer V)) (m : List (K × V)) : Type ℓ where
    found : (k : K) → find k m ≡ latest k log
    counted : length m ≡ present log
    answered : Answered log
