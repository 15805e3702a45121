-- ===== src/Tests/Threading.antt =====
-- The threaded parts of app/main.cpp on concrete files: names that begin with an x cannot be read.
use donkeycar_gt.Prelude.{
  ◌+◌, ◌≡◌, refl, true, List, [], ◌∷◌, some, length, arith, ◌==◌, if◌then◌else◌,
}
use donkeycar_gt.Run.{ok, fault, cv_error}
use donkeycar_gt.Store.{Store}
use donkeycar_gt.Memory.Laws.{memory_store}
use donkeycar_gt.Parts.Files.{Name}
use donkeycar_gt.Parts.Vision.{Vision}
use donkeycar_gt.Parts.LineFollower as follower
use donkeycar_gt.Parts.Threaded.{
  ImagePtr, of_camera, threaded_parts, at_camera, Turn, vehicle_thread, follower_thread, Scene,
  new_scene, step, steps,
}
use donkeycar_gt.Vehicle.{update_each}
use donkeycar_gt.Parts.Threaded.Frame.{parts_of, vehicle_frame}
use donkeycar_gt.Parts.Threaded.Unreadable.{unreadable_file_throws}
use donkeycar_gt.Tests.Owners.{owners, free}
use donkeycar_gt.Tests.Pictures.{Stripes, stripes}

abbrev read_file : Name → Stripes
read_file [] = (120, true ∷ [])
read_file (c ∷ cs) = if c == b'x' then (0, []) else (120 + length cs, true ∷ [])

abbrev disk : Vision
disk = record stripes { imread = read_file }

abbrev kept : Store ImagePtr
kept = memory_store owners true 1 ImagePtr

abbrev fresh : kept.State
unfolding memory_store
fresh = (record { m_mutex = 5; m_data = [] }, free)

fresh_ready : kept.Ready fresh
unfolding memory_store
fresh_ready = λ t' ne. refl

abbrev good_files : List Name
good_files = (b'a' ∷ []) ∷ (b'b' ∷ b'b' ∷ []) ∷ []

abbrev mixed_files : List Name
mixed_files = (b'a' ∷ []) ∷ (b'b' ∷ []) ∷ (b'x' ∷ []) ∷ []

unreadable_file_throws_example :
    ((ts : List Turn) × (t : Scene disk kept) × (steps disk kept ts
          (new_scene disk kept fresh mixed_files)
        ≡ ok t)
      × (step disk kept follower_thread t ≡ fault cv_error))
    × (follower.update disk (some (disk.imread (b'x' ∷ []))) ≡ ok [])
unreadable_file_throws_example =
    unreadable_file_throws disk kept fresh fresh_ready mixed_files (b'b' ∷ []) (b'x' ∷ [])
      (omega arith) refl refl refl refl refl

-- The first frame, while the camera has taken no picture.
abbrev first : Scene disk kept
unfolding new_scene
first = new_scene disk kept fresh good_files

vehicle_frame_example :
    (t : Scene disk kept) × (steps disk kept
        (vehicle_thread ∷ vehicle_thread ∷ vehicle_thread ∷ [])
        first
      ≡ ok t)
    × (update_each threaded_parts kept (parts_of disk kept first) first.memory
        ≡ ok (parts_of disk kept t, t.memory))
    × (t.station ≡ at_camera)
    × (t.follower_input ≡ some of_camera)
    × (t.consumer_input ≡ some of_camera)
    × (t.cam ≡ first.cam)
unfolding new_scene
vehicle_frame_example = vehicle_frame disk kept first refl fresh_ready
