-- ===== src/FileModes.antt =====
-- src/aiodrive/modules/file_modes.py: contexts that change a mode of a file and restore it. The
-- table of the system's modes is the state; what `tty` makes of a terminal's attributes is a
-- parameter.
pub mod Restored
mod Tests
use aiodrive.Prelude.{update, ℕ, Bool}
use aiodrive.Asyncio.{Exn, Outcome, returned, raised}

-- By file descriptor, whether a file blocks, and a terminal's attributes.
pub record Modes (Attr : Type 0) : Type 0 where
  pub blocking : ℕ → Bool
  pub attr : ℕ → Attr

-- A context of the module.
pub data Setting (Attr : Type 0) : Type 0 where
  file_blocking : Bool → Setting Attr
  rawmode : Setting Attr
  attribute : Attr → Setting Attr
  unbuffered : Setting Attr

-- What comes after a context runs unless the context raised.
abbrev pub after_context {ℓ} :
    {M : Type ℓ} → Outcome (Unit {0}) → M × Outcome (Unit {0}) → M → M × Outcome (Unit {0})
after_context (returned _) after left = after
after_context (raised e) after left = (left, raised e)

module _ {Attr : Type 0} (setraw setcbreak : Attr → Attr) where
  -- What the body of a context is run on.
  unfoldable pub enter : Setting Attr → ℕ → Modes Attr → Modes Attr
  enter (file_blocking b) fd m = record m { blocking = update m.blocking fd b }
  enter rawmode fd m = record m { attr = update m.attr fd (setraw (m.attr fd)) }
  enter (attribute a) fd m = record m { attr = update m.attr fd a }
  enter unbuffered fd m = record m { attr = update m.attr fd (setcbreak (m.attr fd)) }

  -- The `finally` clause, with the modes as they were when the context was entered.
  unfoldable pub leave : Setting Attr → ℕ → Modes Attr → Modes Attr → Modes Attr
  leave (file_blocking b) fd original m = record m {
    blocking = update m.blocking fd (original.blocking fd);
  }
  leave rawmode fd original m = record m { attr = update m.attr fd (original.attr fd) }
  leave (attribute a) fd original m = record m { attr = update m.attr fd (original.attr fd) }
  leave unbuffered fd original m = record m { attr = update m.attr fd (original.attr fd) }

  -- A program that changes modes only through contexts: it returns, raises, or runs a program in a
  -- context and then, if that did not raise, another one.
  pub data Program : Type 0 where
    stops : Program
    raises : Exn → Program
    inside : Setting Attr → ℕ → Program → Program → Program

  unfoldable pub run : Program → Modes Attr → Modes Attr × Outcome (Unit {0})
  unfolding enter leave
  run stops m = (m, returned tt)
  run (raises e) m = (m, raised e)
  run (inside s fd body rest) m =
      let (m', o) = run body (enter s fd m) in
      let after = run rest (leave s fd m m') in after_context o after (leave s fd m m')
