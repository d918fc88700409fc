-- ===== src/FileModes/Restored.antt =====
-- The contexts of src/aiodrive/modules/file_modes.py restore the modes.
use aiodrive.Prelude.{update, ℕ, ◌≡◌, refl, ap, ◌∙◌, fun_ext, arith}
use aiodrive.Asyncio.{Outcome, returned, raised}
use aiodrive.FileModes.{
  Modes, Setting, file_blocking, rawmode, attribute, unbuffered, after_context, enter, leave,
  Program, stops, raises, inside, run,
}

update-update : {B : Type 0} (f : ℕ → B) (k : ℕ) (v : B) → update (update f k v) k (f k) ≡ f
update-update f k v = fun_ext (λ j. ground arith)

module _ {Attr : Type 0} (setraw setcbreak : Attr → Attr) where
  leave-enter :
      (s : Setting Attr) (fd : ℕ) (m : Modes Attr)
      → leave setraw setcbreak s fd m (enter setraw setcbreak s fd m) ≡ m
  unfolding leave enter
  leave-enter (file_blocking b) fd m = λ i. record m { blocking = update-update m.blocking fd b i }
  leave-enter rawmode fd m = λ i. record m { attr = update-update m.attr fd (setraw (m.attr fd)) i }
  leave-enter (attribute a) fd m = λ i. record m { attr = update-update m.attr fd a i }
  leave-enter unbuffered fd m =
      λ i. record m { attr = update-update m.attr fd (setcbreak (m.attr fd)) i }

  by_outcome :
      (o : Outcome (Unit {0})) (x : Modes Attr × Outcome (Unit {0})) (l : Modes Attr)
      → x.0 ≡ l
      → (after_context o x l).0 ≡ l
  by_outcome (returned a) x l h = h
  by_outcome (raised e) x l h = refl

  -- Whatever contexts a program nests, on whatever files, and whether it returns or raises, at the
  -- end all files have the modes that they had before.
  pub run-restores :
      (p : Program setraw setcbreak) (m : Modes Attr) → (run setraw setcbreak p m).0 ≡ m
  unfolding run
  run-restores stops m = refl
  run-restores (raises e) m = refl
  run-restores (inside s fd body rest) m =
      let (m', o) = run setraw setcbreak body (enter setraw setcbreak s fd m) in
      let l = leave setraw setcbreak s fd m m' in
      by_outcome o (run setraw setcbreak rest l) l (run-restores rest l)
      ∙ ap (leave setraw setcbreak s fd m) (run-restores body (enter setraw setcbreak s fd m))
      ∙ leave-enter s fd m
