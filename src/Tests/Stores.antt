-- ===== src/Tests/Stores.antt =====
-- include/locked-map.hpp, include/memory.hpp and src/vehicle.cpp on concrete inputs.
use Prim.Native.String.{String}
use text.Mathlib.TextEquality.{eq_iff}
use donkeycar_gt.Prelude.{
  ℕ, suc, ◌⊎◌, ◌*◌, ◌≤◌, ◌≡◌, ◌↔◌, refl, Bool, true, false, Option, none, some, List, [], ◌∷◌,
  arith, length, if◌then◌else◌, ◌==◌,
}
use donkeycar_gt.Prelude.Int.{◌-ℤ◌}
use donkeycar_gt.Run.{Run, ok, fault, dangling, overflow}
use donkeycar_gt.LockedMap.{LockedMap, insert, at}
use donkeycar_gt.LockedMap.Table.{find, IsMap}
use donkeycar_gt.LockedMap.Locking.{at-insert, SameDepths, Free}
use donkeycar_gt.LockedMap.Pointers.{clear_pointers, Owns, clear-owned, clear-dangling, points_to}
use donkeycar_gt.Memory.{Memory, get, put, string_key}
use donkeycar_gt.Memory.Laws.{get-put, memory_store}
use donkeycar_gt.Store.{Store}
use donkeycar_gt.Vehicle.{PartClass, Vehicle, update_parts}
use donkeycar_gt.Memory.{new_memory}
use donkeycar_gt.Memory.Requests.{Request, ask, write, spec, answers, requests_refine}
use donkeycar_gt.Vehicle.Wiring.{Write, latest, Wired, update_parts-Wired, update_parts_total}
use donkeycar_gt.Vehicle.Throttle.{throttle}
use donkeycar_gt.Vehicle.Rate.{loop_time, full_time, IsPaced, loop_time-rate}
use donkeycar_gt.Prelude.Relations.{All}
use donkeycar_gt.Tests.Owners.{Owners, owners, free}

abbrev speeds : LockedMap String ℕ
speeds = record { m_mutex = 5; m_data = ("left", 3) ∷ ("right", 4) ∷ [] }

all_free : (m : ℕ) → Free owners true 1 m free
all_free m t' ne = refl

speeds-IsMap : IsMap speeds.m_data
speeds-IsMap k = ground (arith, eq_iff "left" k, eq_iff "right" k, eq_iff "left" "right")

at-insert_example :
    (m' : LockedMap String ℕ) × (w1 : Owners) × (w2 : Owners) × (insert owners true 1 "left" 9
        speeds free
      ≡ ok (m', w1))
    × (at owners true 1 "right" m' w1 ≡ ok (ok 4, w2))
    × IsMap m'.m_data
    × (length m'.m_data ≡ 2)
    × SameDepths owners true 1 free w2
unfolding find
at-insert_example = at-insert owners true 1 "left" "right" 9 speeds free speeds-IsMap (all_free 5)

abbrev objects : LockedMap String (Option ℕ)
objects = record { m_mutex = 5; m_data = ("a", some 7) ∷ ("b", none) ∷ ("c", some 8) ∷ [] }

abbrev all_live : ℕ → Bool
all_live a = true

clear-owned_example :
    (h' : ℕ → Bool) × (w' : Owners) × (clear_pointers owners true 1 objects all_live free
      ≡ ok (record objects { m_data = [] }, h', w'))
    × ((b : ℕ) → h' b ≡ (if points_to b objects.m_data == 0 then true else false))
    × SameDepths owners true 1 free w'
clear-owned_example =
    clear-owned owners true 1 objects all_live free (λ a. ground arith) (all_free 5)

abbrev aliased : LockedMap String (Option ℕ)
aliased = record { m_mutex = 5; m_data = ("a", some 7) ∷ ("c", some 7) ∷ [] }

clear-dangling_example :
    (clear_pointers owners true 1 aliased all_live free ≡ fault dangling)
    ↔ ¬ Owns aliased.m_data all_live
clear-dangling_example = clear-dangling owners true 1 aliased all_live free (all_free 5)

aliased_alien : ¬ Owns aliased.m_data all_live
aliased_alien = λ owns. absurd (omega (arith, (owns 7).0))

aliased_dangles : clear_pointers owners true 1 aliased all_live free ≡ fault dangling
aliased_dangles = (clear-dangling owners true 1 aliased all_live free (all_free 5)).1 aliased_alien

abbrev topics : Memory ℕ
topics = record { m_mutex = 5; m_data = ("cam/image", some 1) ∷ [] }

get-put_example :
    (m' : Memory ℕ) × (w1 : Owners) × (w2 : Owners) × (put owners true 1 "vision-out" none topics
        free
      ≡ ok (m', w1))
    × (get owners true 1 "cam/image" m' w1 ≡ ok (some 1, w2))
    × SameDepths owners true 1 free w2
unfolding find
get-put_example = get-put owners true 1 "vision-out" "cam/image" none topics free (all_free 5)

-- A part that counts its frames, and a part that takes what it is given.
data Counter : Type 0 where
  source : (count : ℕ) → Counter
  sink : (seen : Option ℕ) → Counter

abbrev count_in : Counter → String
count_in (source n) = ""
count_in (sink d) = "count"

abbrev count_out : Counter → String
count_out (source n) = "count"
count_out (sink d) = ""

abbrev count_run : Option ℕ → Counter → Run (Option ℕ × Counter)
count_run d (source n) = ok (some (suc n), source (suc n))
count_run d (sink seen) = ok (none, sink d)

count_runs : (d : Option ℕ) (q : Counter) → (r : Option ℕ × Counter) × (count_run d q ≡ ok r)
count_runs d (source n) = ((some (suc n), source (suc n)), refl)
count_runs d (sink seen) = ((none, sink d), refl)

abbrev counters : PartClass ℕ
counters = record {
  Part = Counter;
  input_topic = count_in;
  output_topic = count_out;
  run = count_run;
  start = λ q. ok q;
  shutdown = λ q. ok q;
}

abbrev kept : Store ℕ
kept = memory_store owners true 1 ℕ

abbrev times : List ℕ
times = 33_500_000 ∷ 0 ∷ 250_000_000 ∷ 100_000_000 ∷ []

loop_time-rate_example :
    (All IsPaced times
      × ((ns : ℕ) × (loop_time times ≡ ok ns)
          × (99_000_000 * length times ≤ ns)
          × (ns ≤ full_time times)))
    ⊎ ((¬ All IsPaced times) × (loop_time times ≡ fault overflow))
loop_time-rate_example = loop_time-rate times

loop_time_run : loop_time times ≡ ok 549_500_000
unfolding loop_time throttle ◌-ℤ◌
loop_time_run = refl

loop_time_late : loop_time (0 ∷ 3_000_000_000 ∷ []) ≡ fault overflow
unfolding loop_time throttle ◌-ℤ◌
loop_time_late = refl

start : Vehicle counters kept
unfolding memory_store
start = record {
  m_parts = sink none ∷ source 0 ∷ [];
  m_store = (record { m_mutex = 5; m_data = [] }, free);
  m_running = true;
}

start_ready : kept.Ready start.m_store
unfolding start memory_store
start_ready = all_free 5

start_runs : (v' : Vehicle counters kept) × (update_parts counters kept start ≡ ok v')
start_runs = update_parts_total counters kept count_runs start start_ready

update_parts-Wired_example :
    (v' : Vehicle counters kept) × ((after : List (Write ℕ)) × Wired counters kept
        (kept.view start.m_store)
        []
        start.m_parts
        v'.m_parts
        after
      × ((topic : String)
          → kept.view v'.m_store topic ≡ latest (kept.view start.m_store) after topic)
      × (v'.m_running ≡ start.m_running)
      × kept.Ready v'.m_store)
update_parts-Wired_example =
    let (v', e) = start_runs in
    let r = update_parts-Wired counters kept start v' start_ready e in (v', r)

abbrev requests : List (Request ℕ)
requests = ask "image" ∷ write "image" (some 3) ∷ ask "image" ∷ ask "vision-out" ∷ []

requests_refine_example :
    (m' : Memory ℕ) × (w' : Owners) × (answers owners true 1 requests (new_memory 5, free)
      ≡ ok (spec requests (λ k. none), (m', w')))
    × Free owners true 1 m'.m_mutex w'
requests_refine_example = requests_refine owners true 1 requests 5 free (all_free 5)
