-- ===== src/Latch/Laws.antt =====
-- When the waiters of src/aiodrive/modules/latch.py are woken.
use aiodrive.Prelude.{
  Bool-cases, any, ℕ, ◌≤◌, ◌<◌, ◌≡◌, refl, sym, ap, ◌∙◌, inl, inr, Bool, true, false, not, ◌||◌,
  none, List, [], ◌∷◌, arith,
}
use aiodrive.Asyncio.{Effect, and_then}
use aiodrive.Button.{await, press}
use aiodrive.Button.Laws.{
  IsReady, new-IsReady, call-IsReady, await-call, woken-call_self, woken-call_before, woken-await,
}
use aiodrive.Latch.{
  Latch, new_latch, eqb, toggle, Wait, proceeds, sleeps, wait_set, wait_unset, runnable,
}

abbrev pub IsSound : Latch → Type 0
IsSound l = IsReady l.futures

pub new_latch-IsSound : IsSound new_latch
unfolding new_latch
new_latch-IsSound = new-IsReady

-- A toggle raises nothing, and changes what happened to no earlier future.
record Toggled (l m : Latch) : Type 0 where
  sound : IsSound m
  later : await l.futures ≤ await m.futures
  kept : (n : ℕ) → n < await l.futures → runnable m (sleeps n) ≡ runnable l (sleeps n)

toggle-Toggled :
    (v : Bool) (l : Latch)
    → IsSound l
    → Toggled l (toggle v l).0 × ((toggle v l).1 ≡ none) × ((toggle v l).0.is_set ≡ v)
unfolding toggle press runnable
toggle-Toggled v l h =
    let (ready, quiet) = call-IsReady tt l.futures h in
    let newer = await-call tt l.futures h in
    (
      record {
        sound = ground arith;
        later = ground arith;
        kept = λ n lt. ground (arith, woken-call_before tt l.futures n h lt);
      },
      ground arith,
      ground arith,
    )

-- A toggle to the other value wakes those who sleep on the current future.
toggle_wakes :
    (v : Bool) (l : Latch)
    → IsSound l
    → l.is_set ≡ not v
    → (runnable (toggle v l).0 (sleeps (await l.futures)) ≡ true)
      × (await l.futures < await (toggle v l).0.futures)
unfolding toggle press runnable
toggle_wakes v l h e =
    ground (
      arith,
      call-IsReady tt l.futures h,
      await-call tt l.futures h,
      woken-call_self tt l.futures h,
    )

toggle_idle : (v w : Bool) (l : Latch) → l.is_set ≡ not w → eqb w v ≡ false → toggle v l ≡ (l, none)
unfolding toggle
toggle_idle v w l e h = ground arith

-- The latch after these toggles, in order, and the first exception raised.
unfoldable pub toggles : List Bool → Latch → Effect Latch
toggles [] l = (l, none)
toggles (v ∷ vs) l = and_then (toggle v l) (toggles vs) (λ l'. l')

toggles_cons :
    (v : Bool) (vs : List Bool) (l : Latch)
    → IsSound l
    → toggles (v ∷ vs) l ≡ toggles vs (toggle v l).0
unfolding toggles
toggles_cons v vs l h = ground (arith, toggle-Toggled v l h)

toggles-kept :
    (vs : List Bool) (l : Latch) (n : ℕ)
    → IsSound l
    → n < await l.futures
    → runnable (toggles vs l).0 (sleeps n) ≡ runnable l (sleeps n)
toggles-kept [] l n h lt = unfold toggles in refl
toggles-kept (v ∷ vs) l n h lt =
    let (s, _, _) = toggle-Toggled v l h in
    rw (toggles_cons v vs l h)
      (toggles-kept vs (toggle v l).0 n s.sound (omega (arith, s.later)) ∙ s.kept n lt)

-- `wait_set` and `wait_unset` as one method.
abbrev pub wait_for : Bool → Latch → Wait
wait_for true = wait_set
wait_for false = wait_unset

wait_for_sleeps :
    (v : Bool) (l : Latch) → l.is_set ≡ not v → wait_for v l ≡ sleeps (await l.futures)
unfolding wait_set wait_unset
wait_for_sleeps true l e = ground arith
wait_for_sleeps false l e = ground arith

asleep : (l : Latch) → IsSound l → runnable l (sleeps (await l.futures)) ≡ false
unfolding runnable
asleep l h = ground (arith, woken-await l.futures h)

opposite : (v w : Bool) (l : Latch) → eqb v w ≡ true → l.is_set ≡ not v → l.is_set ≡ not w
opposite v w l same e = ground arith

sleeper-runnable :
    (v : Bool) (vs : List Bool) (l : Latch)
    → IsSound l
    → l.is_set ≡ not v
    → runnable (toggles vs l).0 (sleeps (await l.futures)) ≡ any (eqb v) vs
sleeper-runnable v [] l h e = unfold toggles in asleep l h
sleeper-runnable v (w ∷ vs) l h e = elim (Bool-cases (eqb v w)) [
  | inl same ↦
      let (wakes, below) = toggle_wakes w l h (opposite v w l same e) in
      let (s, _, _) = toggle-Toggled w l h in
      rw (toggles_cons w vs l h) (
        toggles-kept vs (toggle w l).0 (await l.futures) s.sound below
        ∙ wakes
        ∙ sym (ap (λ b. b || any (eqb v) vs) same))
  | inr differs ↦ rw (toggles_cons w vs l h) (
      rw (toggle_idle w v l e differs)
        (sleeper-runnable v vs l h e ∙ sym (ap (λ b. b || any (eqb v) vs) differs)))
]

wait_for_proceeds : (v : Bool) (l : Latch) → eqb l.is_set v ≡ true → wait_for v l ≡ proceeds
unfolding wait_set wait_unset
wait_for_proceeds true l e = ground arith
wait_for_proceeds false l e = ground arith

-- A caller of `wait_set` or `wait_unset` (here `wait_for true` and `wait_for false`) can run after
-- any toggles that follow exactly if the latch had the value at the call or one of these toggles
-- was to that value, even if the latch was toggled back since.
pub runnable-wait_for :
    (v : Bool) (vs : List Bool) (l : Latch)
    → IsSound l
    → runnable (toggles vs l).0 (wait_for v l) ≡ (eqb l.is_set v || any (eqb v) vs)
runnable-wait_for v vs l h = elim (Bool-cases (eqb l.is_set v)) [
  | inl has ↦ rw (has, wait_for_proceeds v l has) (unfold runnable in refl)
  | inr lacks ↦
      let e : l.is_set ≡ not v = ground arith in
      rw (lacks, wait_for_sleeps v l e) (sleeper-runnable v vs l h e)
]
