-- ===== src/Tests/Startup.antt =====
-- app/main.cpp, `main`, on a directory with two pictures.
use mathlib.Core.List.{Mem, Perm}
use donkeycar_gt.Prelude.{◌≡◌, refl, inr, true, false, List, [], ◌∷◌, ◌++◌, some, arith}
use donkeycar_gt.Run.{ok}
use donkeycar_gt.Vehicle.{Vehicle}
use donkeycar_gt.Parts.Files.{Name, select_images, with_path}
use donkeycar_gt.Parts.Files.Order.{IsSorted, number}
use donkeycar_gt.Parts.LineFollower.Update.{IsUsable}
use donkeycar_gt.Parts.Pipeline.{main_parts}
use donkeycar_gt.Parts.Pipeline.Frames.{IsMain}
use donkeycar_gt.Application.{Platform, main}
use donkeycar_gt.Application.Frames.{main-IsMain}
use donkeycar_gt.Tests.Pictures.{stripes, kept, fresh, fresh_ready}
use donkeycar_gt.Tests.Sorting.{sort, sort-IsSort, entries, entries_numbered}

abbrev tub : Name
tub = b't' ∷ b'u' ∷ b'b' ∷ []

abbrev machine : Platform
machine = record {
  getenv = λ key. some tub;
  canonical = λ path. ok (b'/' ∷ path);
  directory = λ path. ok entries;
  sort = sort;
}

usable :
    (name : Name)
    → Mem name (select_images entries)
    → IsUsable stripes (stripes.imread ((b'/' ∷ tub) ++ b'/' ∷ name))
usable name m = inr (omega arith)

main-IsMain_example :
    (files : List Name) × (car : Vehicle (main_parts stripes) kept) × (main stripes kept machine
        fresh
        ((20_000_000, false) ∷ (150_000_000, true) ∷ [])
      ≡ ok (car, true))
    × IsMain stripes kept (with_path (b'/' ∷ tub) files) 2 car
    × Perm (select_images entries) files
    × IsSorted number files
main-IsMain_example =
    main-IsMain stripes kept machine (b'u' ∷ b'b' ∷ []) (b'/' ∷ tub) b't' entries sort-IsSort refl
      refl refl entries_numbered usable refl fresh fresh_ready
      ((20_000_000, false) ∷ (150_000_000, true) ∷ []) (omega arith)
