-- ===== src/Io.antt =====
-- src/aiodrive/modules/io.py: `prompt` and `pipe`. A file that does not block is what can be read
-- from it now; bytes are numbers, and `decode`, which is Python's, a parameter: it may raise.
pub mod Lines
mod Tests
use aiodrive.Prelude.{◌==◌, if◌then◌else◌, ℕ, Option, none, some, List, [], ◌∷◌, ◌++◌, map}
use aiodrive.Asyncio.{
  Exn, eof_error, invalid_state_error, more, Outcome, returned, raised, Future, pending, failed,
  finished, is_done,
}

-- `input.read(1)` gives a byte, nothing at the end of the file, or `None` if it would block.
pub data Read : Type 0 where
  byte : ℕ → Read
  nothing would_block : Read

-- `char == b'\n'` and `char == b'\x04'`.
abbrev pub newline : ℕ
newline = 10

abbrev pub end_of_transmission : ℕ
end_of_transmission = 4

module _ {S : Type 0} (decode : List ℕ → Outcome S) where
  pub record Prompt : Type 0 where
    pub future : Future S
    pub result : List ℕ
    pub output : List ℕ
    pub error : Option Exn

  -- The message, a line feed and `> ` have been written.
  unfoldable pub new_prompt : List ℕ → Prompt
  new_prompt message = record {
    future = pending;
    result = [];
    output = message ++ newline ∷ 62 ∷ 32 ∷ [];
    error = none;
  }

  -- `future.set_exception(EOFError())`, which raises if the future is done, and the line feed.
  abbrev pub fail : Prompt → Prompt
  fail p = elim p.future [
    | Future.pending ↦ record p { future = failed eof_error; output = p.output ++ newline ∷ [] }
    | _ ↦ record p { error = some invalid_state_error }
  ]

  -- `future.set_result(result.decode())`. An error leaves the callback, and the loop reports it.
  abbrev pub succeed_as : Future S → Outcome S → Prompt → Prompt
  succeed_as f (raised e) p = record p { error = some e }
  succeed_as pending (returned s) p = record p { future = finished s }
  succeed_as f (returned s) p = record p { error = some invalid_state_error }

  abbrev pub succeed : Prompt → Prompt
  succeed p = succeed_as p.future (decode p.result) p

  -- The loop of `callback` on what the reads give; nothing if the loop needs more of them.
  unfoldable pub callback : List Read → Prompt → Option Prompt
  callback [] p = none
  callback (would_block ∷ reads) p = some p
  callback (nothing ∷ reads) p = callback reads p
  callback (byte char ∷ reads) p =
      let echoed : Prompt = record p { output = p.output ++ char ∷ [] } in
      let more = callback reads (record echoed { result = p.result ++ char ∷ [] }) in
      if char == end_of_transmission
      then some (fail p)
      else if char == newline
      then some (succeed echoed)
      else more

  -- The calls of `callback` while the future is pending, one for each time that the file is
  -- readable, with what it holds then; what a call leaves unread is at the head of the next one.
  unfoldable pub prompt : List (List ℕ) → Prompt → Option Prompt
  unfolding callback
  prompt [] p = some p
  prompt (chunk ∷ chunks) p =
      if is_done p.future then some p else elim (callback (map byte chunk ++ would_block ∷ []) p) [
        | none ↦ none
        | some q ↦ prompt chunks q
      ]

-- `pipe`: the chunks that `source.read` gives, of which the first that is empty ends it, and what
-- `destination.write` was given.
unfoldable pub pipe : List (List ℕ) → List (List ℕ)
pipe [] = []
pipe ([] ∷ chunks) = []
pipe ((x ∷ chunk) ∷ chunks) = (x ∷ chunk) ∷ pipe chunks
