-- ===== src/Memory/Requests.antt =====
-- include/memory.hpp: a memory against what it is meant to be, a function from keys to values.
use Prim.Native.String.{String}
use text.Mathlib.Text.{◌==◌}
use donkeycar_gt.Prelude.{ℕ, ◌≡◌, refl, Bool, List, [], ◌∷◌, none, if◌then◌else◌}
use mathlib.Core.Path.{fun_ext}
use donkeycar_gt.Run.{Run, ok, ◌>>=◌}
use donkeycar_gt.Mutex.{PthreadMutex}
use donkeycar_gt.LockedMap.Locking.{Free}
use donkeycar_gt.LockedMap.Table.{find}
use donkeycar_gt.Memory.{Memory, Datum, new_memory}
use donkeycar_gt.Memory.Laws.{store_get, store_put, store_get_lem, store_put_lem, IsReady, view}

pub data Request (D : Type 0) : Type 0 where
  ask : String → Request D
  write : String → Datum D → Request D

-- The specification: what each `ask` of a sequence is answered, where the keys hold `f`.
abbrev pub spec : {D : Type 0} → List (Request D) → (String → Datum D) → List (Datum D)
spec [] f = []
spec (ask k ∷ rs) f = f k ∷ spec rs f
spec (write k d ∷ rs) f = spec rs (λ j. if k == j then d else f j)

module _ (p : PthreadMutex) (debug : Bool) (t : ℕ) {D : Type 0} where
  open p use {World}

  -- The same requests to a memory, by `get` and `put`.
  pub answers : List (Request D) → Memory D × World → Run (List (Datum D) × (Memory D × World))
  answers [] s = ok ([], s)
  answers (ask k ∷ rs) s = do
    (d, s') ← store_get p debug t k s
    (ds, s'') ← answers rs s'
    ok (d ∷ ds, s'')
  answers (write k d ∷ rs) s = store_put p debug t k d s >>= answers rs

  answers-spec :
      (rs : List (Request D)) (s : Memory D × World)
      → IsReady p debug t s
      → (s' : Memory D × World) × (answers rs s ≡ ok (spec rs (view p debug t s), s'))
        × IsReady p debug t s'
  unfolding answers
  answers-spec [] s ready = (s, refl, ready)
  answers-spec (ask k ∷ rs) s ready =
      let (s1, got, ready1, same) = store_get_lem p debug t k s ready in
      let (s2, rest, ready2) = answers-spec rs s1 ready1 in
      (s2, rw (got, rest, fun_ext same) refl, ready2)
  answers-spec (write k d ∷ rs) s ready =
      let (s1, stored, ready1, has) = store_put_lem p debug t k d s ready in
      let (s2, rest, ready2) = answers-spec rs s1 ready1 in
      (s2, rw (stored, rest, fun_ext has) refl, ready2)

  -- A new memory refines the function: any sequence of `get` and `put` by one thread, while no other uses
  -- the memory, returns with no exception and answers as the function that is the null pointer
  -- everywhere at first and changes at one key by each `put`.
  pub requests_refine :
      (rs : List (Request D)) (mutex : ℕ) (w : World)
      → Free p debug t mutex w
      → (m' : Memory D) × (w' : World) × (answers rs (new_memory mutex, w)
          ≡ ok (spec rs (λ k. none), (m', w')))
        × Free p debug t m'.m_mutex w'
  unfolding new_memory find
  requests_refine rs mutex w free =
      let (s', e, ready) = answers-spec rs (new_memory mutex, w) free in (s'.0, s'.1, e, ready)
