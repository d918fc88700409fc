-- ===== src/Process/Reported.antt =====
-- When the waits for a process of src/aiodrive/modules/process.py are over.
use aiodrive.Prelude.{
  if◌then◌else◌, any, all, ◌≡◌, refl, Bool, true, false, ◌&&◌, none, some, List, [], ◌∷◌,
}
use aiodrive.Asyncio.{returned}
use aiodrive.Process.Ended.{
  found, no_process, no_permission, process_exists, Opening, opened, unknown_process, refused,
  Notice, interruption, process_exit, wait_for_process_kqueue, wait_for_process_pidfd, Round, asks,
  interrupted, poll_loop, Platform, wait_for_process, is_exit, is_gone, is_quiet, is_refused,
  is_reported,
}

poll_loop-is_gone :
    (rs : List Round)
    → all is_quiet rs ≡ true
    → poll_loop rs ≡ returned (if any is_gone rs then some tt else none)
unfolding poll_loop process_exists
poll_loop-is_gone [] h = refl
poll_loop-is_gone (interrupted ∷ rs) h = absurd cc
poll_loop-is_gone (asks found ∷ rs) h = poll_loop-is_gone rs h
poll_loop-is_gone (asks no_permission ∷ rs) h = poll_loop-is_gone rs h
poll_loop-is_gone (asks no_process ∷ rs) h = refl

abbrev pub platform : Bool → Opening → Bool → Opening → Platform
platform k x d o = record { has_kqueue = k; kqueue = x; has_pidfd = d; pidfd = o }

on_platform :
    (k : Bool) (x : Opening) (d : Bool) (o : Opening) (ns : List Notice) (rs : List Round)
    → all is_exit ns ≡ true
    → all is_quiet rs ≡ true
    → k && is_refused x ≡ false
    → wait_for_process (platform k x d o) ns rs
      ≡ returned (if is_reported (platform k x d o) ns rs then some tt else none)
unfolding wait_for_process wait_for_process_kqueue wait_for_process_pidfd
on_platform true opened d o [] rs h q k = refl
on_platform true opened d o (interruption ∷ ns) rs h q k = absurd cc
on_platform true opened d o (process_exit ∷ ns) rs h q k = refl
on_platform true unknown_process d o ns rs h q k = refl
on_platform true refused d o ns rs h q k = absurd cc
on_platform false x true opened [] rs h q k = refl
on_platform false x true opened (interruption ∷ ns) rs h q k = absurd cc
on_platform false x true opened (process_exit ∷ ns) rs h q k = refl
on_platform false x true unknown_process ns rs h q k = refl
on_platform false x true refused ns rs h q k = poll_loop-is_gone rs q
on_platform false x false o ns rs h q k = poll_loop-is_gone rs q

-- With nothing cancelled, and kqueue, where there is one, taking the request: `wait_for_process`
-- returns exactly if it has been told that the process is not there or has ended, by the first of
-- kqueue, pidfd and `os.kill` that the system offers, and waits otherwise.
pub wait_for_process-is_reported :
    (p : Platform) (ns : List Notice) (rs : List Round)
    → all is_exit ns ≡ true
    → all is_quiet rs ≡ true
    → p.has_kqueue && is_refused p.kqueue ≡ false
    → wait_for_process p ns rs ≡ returned (if is_reported p ns rs then some tt else none)
wait_for_process-is_reported p ns rs h q k =
    on_platform p.has_kqueue p.kqueue p.has_pidfd p.pidfd ns rs h q k
