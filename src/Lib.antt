-- ===== src/Lib.antt =====
-- aiodrive: coroutine helpers over asyncio. This library models the parts that decide how
-- coroutines wait, are cancelled and hand values to each other.
--
-- The files, with the code that each is about:
--   Asyncio.antt        what the library uses of asyncio: exceptions, futures, tasks
--   FutureState.antt    src/aiodrive/modules/future_state.py
--   Button.antt         src/aiodrive/modules/button.py, `Button` and `Cargo`
--   Latch.antt          src/aiodrive/modules/latch.py
--   Queue.antt          src/aiodrive/internal/queue.py; Queue/Ordered and Queue/Unordered put a
--                       queue beside one consumer and any number of producers
--   Gather.antt         src/aiodrive/modules/gather.py
--   Race.antt           src/aiodrive/modules/race.py, which runs `gather` on the losers
--   Shield.antt         src/aiodrive/modules/shield.py and cleanup.py; Shield/Callbacks is the
--                       function `shield` with its two callbacks
--   RwLock.antt         src/aiodrive/experiments/rw_lock.py
--   Cancel.antt         src/aiodrive/modules/cancel.py, task_group.py and checkpoint.py
--   Scope.antt          src/aiodrive/modules/scope.py, contextualize.py and `handle_signal` of
--                       signals.py; Scope/Guaranteed is guaranteed_task.py
--   Multiprocessing.antt  src/aiodrive/modules/multiprocessing.py; Multiprocessing/Steps joins
--                       a parent and a child by their streams of messages, and
--                       Multiprocessing/Closing is the end of a call and of the process
--   Map.antt            src/aiodrive/modules/map.py, the jobs; Map/Pipeline joins them to the
--                       ordered queue and its consumer
--   Amass.antt          src/aiodrive/modules/amass.py
--   Contexts.antt       src/aiodrive/modules/concurrent_contexts.py
--   Aiter.antt          src/aiodrive/modules/aiter.py; Aiter/Zip is zip.py
--   Coroutine.antt      src/aiodrive/modules/prime.py, daemon.py and experiments/reusable.py
--   SharedState.antt    src/aiodrive/modules/thread_safe_state.py; SharedState/Launch is the
--                       stages of thread_loop.py and thread_sync.py, SharedState/Event is
--                       src/aiodrive/experiments/thread_safe_event.py
--   ThreadLoop.antt     src/aiodrive/modules/thread_loop.py and thread_sync.py, the launching side
--   ThreadManager.antt  src/aiodrive/modules/thread_manager.py; ThreadManager/Steps is the manager
--                       beside its callers
--   DaemonHandle.antt   src/aiodrive/modules/handle.py
--   TcpServer.antt      src/aiodrive/modules/tcp.py
--   FileLock.antt       src/aiodrive/modules/lock.py and kqueue.py
--   Watch.antt          src/aiodrive/modules/watch.py; Watch/Composed joins its two halves
--   Io.antt             src/aiodrive/modules/io.py, `prompt` and `pipe`
--   SmartLock.antt      src/aiodrive/experiments/smart_lock.py
--   NestableLock.antt   src/aiodrive/modules/nestable_lock.py
--   ThreadLock.antt     src/aiodrive/modules/thread_safe_lock.py; ThreadLock/Condition is its
--                       `ThreadsafeCondition`
--   Signals.antt        src/aiodrive/modules/signals.py, the two waits for signals
--   Runner.antt         src/aiodrive/modules/run.py
--   Awaitables.antt     src/aiodrive/modules/awaitable.py
--   Process.antt        src/aiodrive/modules/process.py, `Process.wait`; Process/Ended is the
--                       waits for a process that is not a child
--   FileModes.antt      src/aiodrive/modules/file_modes.py
--   Prelude.antt        shared names, arithmetic tests, lemmas on lists
--
-- The buttons are what the queues and the latch sleep on, `gather` is what `race` waits with, and
-- `shield_wait` is what `cleaned_up` waits with: each of these models is used by the next one.
-- `map` runs its jobs on the ordered queue, `amass` ends by a `gather` of its futures, and
-- `concurrent_contexts` enters its managers by one. The handle of a daemon is the context of
-- `contextualize` around a coroutine, and a TCP server is used through such a handle; a thread
-- manager holds guaranteed tasks and sends their outcomes back as states of futures.
--
-- State and operations. An object is a record of its fields, and a method is a function from the
-- object to the object afterwards, with what it raised where it can raise. A future that an object
-- replaces is kept in a history, so that a waiter is the number of the future it sleeps on. A
-- coroutine that waits for others is a state machine: its phases are its places of suspension, and
-- its transitions are the resumption by the event loop, the cancellation of its own task, and the
-- end of a task it waits for. A coroutine that awaits one task is a function of the list of what
-- happens meanwhile: cancellations of the awaiting task, and the end of the awaited one.
--
-- asyncio is not part of the repository. What the models take from it is in Asyncio.antt and is
-- its documented behaviour: a future that is done refuses a second result, cancelling a task is a
-- request that the task may ignore, `asyncio.wait` resumes when its condition holds. A task's
-- answer to a request is left open. The default `None` of a result is the parameter `py_none`.
--
-- Fuel: `shield_wait_forever`, the loops of `launch_in_thread_loop` and those of
-- the two `spawn`s, one unit for a round, and `update_watch`, one unit for
-- a nested call. A round ends by a cancellation or by the end of the task, so one unit more than
-- there are cancellations is enough unless the awaited task is cancelled; two nested calls are
-- enough for an event on a file system that does not change meanwhile. All other functions are
-- structural. Threads are interleaved in steps that a lock makes atomic.
--
-- Not modelled: input and output (the streams of a connection, the start of processes and of
-- servers, the readers and writers of the event loop), experiments/loop.py, an unfinished event
-- loop, the exit of a thread manager, pickling, and what is about the clock. What the operating
-- system does for the file lock and for the waits for a process is taken from its documentation, as
-- steps or as given answers. An error of `open` that `watch_path` does not catch, reference counts,
-- `repr` and tracebacks are left out.
pub mod Prelude
pub mod Asyncio
pub mod FutureState
pub mod Button
pub mod Latch
pub mod Queue
pub mod Gather
pub mod Race
pub mod Shield
pub mod RwLock
pub mod Cancel
pub mod Scope
pub mod Multiprocessing
pub mod ThreadLock
pub mod Process
pub mod FileModes
pub mod Map
pub mod NestableLock
pub mod Coroutine
pub mod SharedState
pub mod Watch
pub mod Amass
pub mod SmartLock
pub mod Io
pub mod Aiter
pub mod Contexts
pub mod ThreadManager
pub mod ThreadLoop
pub mod DaemonHandle
pub mod TcpServer
pub mod FileLock
pub mod Runner
pub mod Awaitables
pub mod Signals
