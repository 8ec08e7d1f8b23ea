-- ===== src/Execution.antt =====
-- The lines of a command's output: `process_data` and the end of `process_streams` of
-- lib/src/execution/execution.cc. The output comes in pieces that were read from a pipe. boost's
-- splitting at line ends, with runs of them taken for one, and its trimming are arguments. The
-- callback is told the lines that were passed before, and says whether to go on. The log is left out.
pub mod Command
pub mod Pieces
pub mod Leftover
use Prim.Native.String.{[], ◌∷◌}
use facter.Base.{
  String, Char, code, Bool, true, false, ◌||◌, Option, none, some, List, [], ◌∷◌, ◌=?◌, ◌++◌,
  if◌then◌else◌, is_empty_str, ◌<>◌,
}

abbrev pub is_newline : Char → Bool
is_newline c = code c =? b'\n' || code c =? b'\r'

-- What stands before the last line end, and what begins with it.
unfoldable pub last_newline : String → Option (String × String)
last_newline [] = none
last_newline (c ∷ s) = elim (last_newline s) [
  | some (before, rest) ↦ some (c ∷ before, rest)
  | none ↦ if is_newline c then some ([], c ∷ s) else none
]

-- What is buffered, and the lines that were passed to the callback.
pub record Stream : Type 0 where
  pub buffer : String
  pub lines : List String

-- `finished`: the callback asked for no more.
pub data Progress : Type 0 where
  going finished : Stream → Progress

module _ (split : String → List String) (trim : Option (String → String)) where
  abbrev pub trimmed : String → String
  trimmed s = elim trim [ none ↦ s | some f ↦ f s ]

  -- Passes one line.
  unfoldable pub pass : (List String → String → Bool) → String → Stream → Progress
  pass callback line st =
      let text = trimmed (st.buffer <> line) in
      if is_empty_str text
      then going (record st { buffer = text })
      else let after : Stream = record { buffer = ""; lines = st.lines ++ (text ∷ []) } in
        if callback st.lines text then going after else finished after

  unfoldable pub pass_all : (List String → String → Bool) → List String → Stream → Progress
  unfolding pass
  pass_all callback [] st = going st
  pass_all callback (line ∷ lines) st = elim (pass callback line st) [
    | finished st' ↦ finished st'
    | going st' ↦ pass_all callback lines st'
  ]

  abbrev pub save : String → Progress → Progress
  save rest (going st) = going (record st { buffer = rest })
  save rest (finished st) = finished st

  unfoldable pub process_data : Option (List String → String → Bool) → String → Stream → Progress
  unfolding pass_all last_newline
  process_data callback piece st = if is_empty_str piece then going st else elim callback [
    | none ↦ going (record st { buffer = st.buffer <> piece })
    | some call ↦ elim (last_newline piece) [
      | none ↦ going (record st { buffer = st.buffer <> piece })
      | some (before, rest) ↦ save rest (pass_all call (split before) st)
    ]
  ]

  -- The pieces of one stream, in order, up to the one where the callback asks for no more.
  unfoldable pub process_pieces :
      Option (List String → String → Bool) → List String → Stream → Progress
  unfolding process_data
  process_pieces callback [] st = going st
  process_pieces callback (piece ∷ pieces) st = elim (process_data callback piece st) [
    | finished st' ↦ finished st'
    | going st' ↦ process_pieces callback pieces st'
  ]

  -- What is left in the buffer at the end is a line too.
  unfoldable pub last_line : Bool → Stream → Stream
  last_line has_callback st =
      let text = trimmed st.buffer in
      if is_empty_str text
      then record st { buffer = text }
      else if has_callback
      then record { buffer = ""; lines = st.lines ++ (text ∷ []) }
      else record st { buffer = text }
