-- ===== src/Utils/FileUtil.antt =====
-- src/utils/FileUtil.h and FileUtil.cc: a file that is only appended to.
pub mod Append
mod Tests
use wethands.Prelude.{
  ℕ, zero, suc, ◌+◌, ◌-◌, Bool, Option, none, some, List, [], ◌∷◌, ◌++◌, ltb, ◌==◌, length, take,
  if◌then◌else◌,
}

pub record AppendFile : Type 0 where
  -- The bytes that the stream took, and how many of them were flushed.
  pub content : List ℕ
  pub flushed : ℕ
  pub written_bytes : ℕ
  -- How often the stream was written to.
  pub calls : ℕ

unfoldable pub new_append_file : AppendFile
new_append_file = record { content = []; flushed = 0; written_bytes = 0; calls = 0 }

unfoldable pub flush : AppendFile → AppendFile
flush f = record f { flushed = length f.content }

-- `fwrite` says how many bytes `::fwrite_unlocked` takes, at which call and of how many.
module _ (fwrite : ℕ → ℕ → ℕ) where
  -- One call: it is given the first bytes of the line, at every round.
  unfoldable pub write_once : AppendFile → List ℕ → ℕ → AppendFile
  write_once f line remain = record f {
    content = f.content ++ take (fwrite f.calls remain) line;
    calls = f.calls + 1;
  }

  -- The loop with this many bytes left; `none` when the rounds do not suffice.
  unfoldable pub write_loop : ℕ → AppendFile → List ℕ → ℕ → Option AppendFile
  write_loop zero f line remain = none
  write_loop (suc rounds) f line remain =
      let n = fwrite f.calls remain in
      let after = write_once f line remain in
      let rest = write_loop rounds after line (remain - n) in
      if n == 0
      then some (record after { written_bytes = f.written_bytes + (length line - remain) })
      else if ltb 0 (remain - n)
      then rest
      else some (record after { written_bytes = f.written_bytes + length line })

  -- Every round but the last takes a byte.
  unfoldable pub append : AppendFile → List ℕ → Option AppendFile
  append f line = write_loop (length line + 1) f line (length line)
