-- ===== src/Button/Laws.antt =====
-- What src/aiodrive/modules/button.py promises to the waiters.
use aiodrive.Prelude.{ℕ, suc, ◌≤◌, ◌<◌, ◌≡◌, refl, ◌∙◌, ◌⊎◌, none, some, List, [], ◌∷◌, arith}
use aiodrive.Asyncio.{returned, pending, Effect, and_then}
use aiodrive.Button.{Cargo, new, call, await, woken, Button, press}

module _ {ℓ} {A : Type ℓ} where
  -- The future in use is pending, so a call cannot fail.
  abbrev pub IsReady : Cargo A → Type ℓ
  IsReady c = c.futures c.current ≡ pending

  pub new-IsReady : IsReady (new {A = A})
  unfolding new
  new-IsReady = refl

  pub call-IsReady :
      (value : A) (c : Cargo A) → IsReady c → IsReady (call value c).0 × ((call value c).1 ≡ none)
  unfolding call
  call-IsReady value c h = ground arith

  pub await-call : (value : A) (c : Cargo A) → IsReady c → await (call value c).0 ≡ suc (await c)
  unfolding call await
  await-call value c h = ground arith

  pub woken-call_self :
      (value : A) (c : Cargo A)
      → IsReady c
      → woken (call value c).0 (await c) ≡ some (returned value)
  unfolding call await woken
  woken-call_self value c h = ground arith

  pub woken-call_before :
      (value : A) (c : Cargo A) (n : ℕ)
      → IsReady c
      → n < await c
      → woken (call value c).0 n ≡ woken c n
  unfolding call await woken
  woken-call_before value c n h lt = ground arith

  pub woken-await : (c : Cargo A) → IsReady c → woken c (await c) ≡ none
  unfolding await woken
  woken-await c h = rw h

  -- The object after calls with these values, in order, and the first exception raised.
  unfoldable pub calls : List A → Cargo A → Effect (Cargo A)
  calls [] c = (c, none)
  calls (v ∷ vs) c = and_then (call v c) (calls vs) (λ c'. c')

  calls_cons :
      (v : A) (vs : List A) (c : Cargo A) → IsReady c → calls (v ∷ vs) c ≡ calls vs (call v c).0
  unfolding calls
  calls_cons v vs c h = ground (arith, call-IsReady v c h)

  calls_keep :
      (vs : List A) (c : Cargo A) (n : ℕ)
      → IsReady c
      → n < await c
      → (woken (calls vs c).0 n ≡ woken c n) × ((calls vs c).1 ≡ none)
  unfolding calls
  calls_keep [] c n h lt = (refl, refl)
  calls_keep (v ∷ vs) c n h lt = ground (
    arith,
    call-IsReady v c h,
    await-call v c h,
    woken-call_before v c n h lt,
    calls_keep vs (call v c).0 n,
  )

  -- From a ready object, a waiter that begins to wait sleeps, and whatever values are then called,
  -- it receives the first of them, later ones changing nothing; no call raises.
  pub woken-calls :
      (c : Cargo A) (v : A) (vs : List A)
      → IsReady c
      → (woken c (await c) ≡ none)
        × (woken (calls (v ∷ vs) c).0 (await c) ≡ some (returned v))
        × ((calls (v ∷ vs) c).1 ≡ none)
  woken-calls c v vs h =
      let (r, ok) = call-IsReady v c h in
      let k = calls_keep vs (call v c).0 (await c) r (omega (arith, await-call v c h)) in
      (
        woken-await c h,
        rw (calls_cons v vs c h) (k.0 ∙ woken-call_self v c h),
        rw (calls_cons v vs c h) k.1,
      )

-- A press, with the future `n` of a waiter in view.
pub press_facts :
    (b : Button) (n : ℕ)
    → IsReady b
    → n ≤ await b
    → IsReady (press b).0
      × ((press b).1 ≡ none)
      × (await (press b).0 ≡ suc (await b))
      × ((woken (press b).0 n ≡ some (returned tt))
          ⊎ ((n < await b) × (woken (press b).0 n ≡ woken b n)))
unfolding press
press_facts b n r h =
    let (r', quiet) = call-IsReady tt b r in
    (
      r',
      quiet,
      await-call tt b r,
      ground (arith, woken-call_self tt b r, woken-call_before tt b n r),
    )
