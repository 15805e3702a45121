-- ===== src/Lib.antt =====
-- A verification of DonkeycarGT, a self-driving car program in C++ (include, src, app).
--
-- The program. A `Vehicle` holds a list of parts and a `Memory`, a thread-safe map from topics to what the
-- parts exchange. In each frame it runs every part on what the memory holds at the part's input topic, puts
-- the result at its output topic, and sleeps to keep its rate. Every part is a `ManagedThread` and may do
-- its work on a thread of its own, which others suspend, resume and end through a `ManagedTaskStatus`,
-- guarded by `Mutex`, `Lock` and `Event`. `ImageListCamera`, `WebCamera`, `LineFollower`,
-- `ImageConsumer` and `KerasPilot` are parts.
--
-- The files, and what they model.
--   Event          include/event.h, src/event.cpp. A timespec is a pair of integers, and uint64_t and time_t
--                  wrap around or fault as in C++. pthreads and the clocks are the parameter `Pthread`, with the
--                  documented laws `IsPthread`.
--   Mutex          include/mutex.h, src/mutex.cpp, over the interface `PthreadMutex`: the documented laws of
--                  a recursive mutex, for each thread and mutex.
--   Monitor        how the program uses a Lock with an Event: any number of threads that work on a state under one
--                  mutex. To lock, to look at the state, to write, to wait and to unlock are steps of
--                  their own; whether a method begins with a Lock is told by its component.
--                  Monitor/Linear is about their order.
--   Lock           include/lock.hpp: `m_mutex` and `m_lock_cnt`. The destructor's loop takes the count
--                  as its fuel, and each turn lowers the count by one, so it is enough. Lock/Balance follows
--                  any list of operations on a store of Lock objects.
--   TaskStatus     include/managed-task-status.h, src/managed-task-status.cpp. A method is the sections
--                  between its waits, since it holds its mutex in each of them. Threads has any number of
--                  threads that call the methods, over Monitor, with a request to exit in Threads/Exit.
--   ManagedThread  include/managed-thread.h, src/managed-thread.cpp. Worker is `task`, one step for each
--                  access to shared state; Caller is one call of `start`, `resume`, `suspend`,
--                  `graceful_exit` or `join`; System is one object with its thread and any number of
--                  callers, which take turns in any order, as a step relation. Protocol is an automaton of
--                  what a user may see; Restart is about a start after the exit, and Unasserted about builds
--                  without assertions.
--   LockedMap      include/locked-map.hpp: a list of pairs, each operation inside a Lock. Pointers is the map
--                  of pointers, with the heap that `clear` deletes from. Threads has any number of threads
--                  on one map, over Monitor, and Threads/History what they get by the order of the operations.
--   Memory, Store  include/memory.hpp. Store is what the vehicle needs of a memory, and Memory/Laws shows
--                  that the memory gives it; Memory/Requests follows any list of requests to a new memory.
--   Vehicle        include/vehicle.h, src/vehicle.cpp, over a Store and over any class of parts, with the
--                  methods of include/parts/part.hpp. Throttle is the sleep at the end of a frame, Rate
--                  how long frames last with it, Running the loop of `start_blocking`.
--   Part           include/parts/part.hpp: `start` and `shutdown` as calls of the ManagedThread system by one
--                  owner, in rounds in which the thread takes a step or more and the owner takes one. The
--                  numbers of rounds that are enough come from a measure that each round lowers. Fleet is the
--                  loops of src/vehicle.cpp that start and stop all parts, among all their threads, and the
--                  destructors; Late is a part that is shut down before the loop starts it, and Interrupted a
--                  signal on the thread that starts a part: Handling is the calls of the handler, Aftermath what
--                  the interrupted call then does, Entry and Outcome both, Hang their end, and Section a signal
--                  where the interrupted call holds the mutex of the status, with its Deadlock. Prelude/Rounds
--                  is what such rounds share.
--   Parts          include/parts, src/parts. Files is the list of pictures that ImageListCamera makes, where
--                  `std::sort` is the parameter `sort` with the law `IsSort`; ImageListCamera is its turns,
--                  WebCamera its pace and the buffers that its pictures share, LineFollower what is found in a
--                  picture and drawn, ImageConsumer what is shown, Interpreter the copy of a picture into the
--                  tensor of the network, with TensorFlow Lite as a parameter, Pilot the part that calls it, and
--                  Network the publisher that has no statement in its `update` yet. Pipeline is the vehicle of
--                  app/main.cpp, with `run` of its parts; Threaded is the same parts with `threaded` true, where
--                  the vehicle and three threads take steps in any order. What OpenCV does is the parameter
--                  `Vision`.
--   Application    app/main.cpp, `main`: the environment, the directory, the camera and the frames. The system is
--                  the parameter `Platform`.
--   Prelude, Run   shared notation and lemmas; `Run` is a value or the fault that stops the program.
--   Tests          the theorems on concrete inputs.
--
-- What the models rest on.
--   The waits of managed-task-status.cpp are timed, so a thread in one may wake up at any time. `update()`
--   and `should_exit()` return, and do not call the methods that manage the thread. `debug` says whether
--   assertions are compiled in. The doubles of `throttle` are exact, and `sleep_for` sleeps for the time that
--   it is given. In Part/Interrupted the handler runs on the thread of the vehicle, and one that interrupts a
--   timed wait runs without the mutex of that wait, which goes on after it. `start_blocking` takes a list
--   of the times that the frames take, each with whether a signal arrives, and stops when the list is used up;
--   a signal is taken at the end of its frame there.
--   In Parts/Threaded an access to `m_input` or to an `Image` is one atomic step, although C++ gives
--   such a race no meaning: the model has some executions of the program, and shows faults that it can come
--   to, but not that it comes to none. `start` resets the flag and makes the thread in one step, so a signal
--   between these two is left out, though no other caller could tell them apart.
--
-- Not modelled: the thread that runs the parts of Parts/Threaded between `start` and `shutdown` is taken as
-- running, since its life is the matter of ManagedThread and Part; what `main` prints; names of threads and
-- logging; the tests and the build files.
pub mod Prelude
pub mod Run
pub mod Event
pub mod Mutex
pub mod Lock
pub mod Monitor
pub mod LockedMap
pub mod Store
pub mod Memory
pub mod TaskStatus
pub mod Vehicle
pub mod ManagedThread
pub mod Part
pub mod Parts
pub mod Application
mod Tests
