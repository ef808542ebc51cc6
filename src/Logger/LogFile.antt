-- ===== src/Logger/LogFile.antt =====
-- src/logger/LogFile.h and LogFile.cc: lines go to a file that is replaced by size and by day.
-- A time is its microseconds since the epoch. `clock` is the reading of `Timestamp::Now()` at each
-- call, `round_by_day` is `RoundByDay`, and `fwrite` is how much the stream takes at each call.
pub mod Stream
mod Tests
use wethands.Prelude.{
  ℕ, ◌+◌, ◌-◌, ◌*◌, ◌^◌, Bool, true, false, Option, none, some, List, [], ◌∷◌, ◌++◌, ltb, leb, ◌==◌,
  length, if◌then◌else◌, add_size, Result, ok, fault, null_pointer, assert, ◌>>=◌, ◌>>◌,
}
use wethands.Utils.FileUtil.{AppendFile, new_append_file}
use wethands.Utils.FileUtil

pub record LogFile : Type 0 where
  pub rollsize : ℕ
  pub flush_interval : ℕ
  pub check_every_n_append : ℕ
  pub append_count : ℕ
  pub last_roll : ℕ
  pub last_flush : ℕ
  pub current_period : ℕ
  -- `none` is the null pointer.
  pub file : Option AppendFile
  -- The files that were closed, oldest first, and how often the clock was read.
  pub closed : List AppendFile
  pub readings : ℕ

abbrev pub microseconds_per_second : ℕ
microseconds_per_second = 1000000

-- The file that is closed when another one is opened.
unfoldable pub close_file : List AppendFile → Option AppendFile → List AppendFile
close_file closed none = closed
close_file closed (some file) = closed ++ file ∷ []

unfoldable pub flush_file : LogFile → Result LogFile
flush_file l = elim l.file [
  | none ↦ fault null_pointer
  | some file ↦ ok (record l { file = some (FileUtil.flush file) })
]

-- `file_->Append(line, len)`; it always ends, so that the file is never lost.
unfoldable pub append_file : (ℕ → ℕ → ℕ) → LogFile → List ℕ → Result LogFile
append_file fwrite l line = elim l.file [
  | none ↦ fault null_pointer
  | some file ↦
      ok (record l { file = FileUtil.append fwrite file line; append_count = l.append_count + 1 })
]

module _ (clock : ℕ → ℕ) (round_by_day : ℕ → ℕ) where
  -- `RollFileUnlocked`: one file at most is opened in a second.
  unfoldable pub roll_file : LogFile → Result LogFile
  roll_file l = do
    let now = clock l.readings
    assert (ltb l.last_roll now)
    ok (
        if ltb (now - l.last_roll) microseconds_per_second
        then record l { readings = l.readings + 1 }
        else record l {
          readings = l.readings + 1;
          last_roll = now;
          last_flush = now;
          current_period = round_by_day now;
          closed = close_file l.closed l.file;
          file = some new_append_file;
        })

  unfoldable pub new_log_file : ℕ → ℕ → ℕ → Result LogFile
  new_log_file rollsize flush_interval check_every_n_append = roll_file (record {
    rollsize = rollsize;
    flush_interval = flush_interval;
    check_every_n_append = check_every_n_append;
    append_count = 0;
    last_roll = 0;
    last_flush = 0;
    current_period = 0;
    file = none;
    closed = [];
    readings = 0;
  })

  -- The check after some appends: is it another day, or time to flush?
  unfoldable pub check : LogFile → Result LogFile
  check l =
      let now = clock l.readings in
      let checked : LogFile = record l { append_count = 0; readings = l.readings + 1 } in
      if ltb l.current_period (round_by_day now)
      then (roll_file checked >>= λ rolled.
          ok (record rolled { current_period = round_by_day now }))
      else if leb (l.last_flush + l.flush_interval * microseconds_per_second) now
      then (flush_file checked >>= λ flushed. ok (record flushed { last_flush = now }))
      else ok checked

  -- What happens before the line is written.
  unfoldable pub prepare : LogFile → List ℕ → Result LogFile
  prepare l line = elim l.file [
    | none ↦ fault null_pointer
    | some file ↦
        if ltb l.rollsize (add_size file.written_bytes (length line))
        then (roll_file l >>= λ rolled. ok (record rolled { append_count = 0 }))
        else if leb l.check_every_n_append l.append_count
        then check l
        else ok l
  ]

module _ (clock : ℕ → ℕ) (round_by_day : ℕ → ℕ) (fwrite : ℕ → ℕ → ℕ) where
  unfoldable pub append_unlocked : LogFile → List ℕ → Result LogFile
  append_unlocked l line =
      prepare clock round_by_day l line >>= λ ready. append_file fwrite ready line

  -- `Append`.
  unfoldable pub append : LogFile → List ℕ → Result LogFile
  append l line = if length line == 0 then ok l else append_unlocked l line

  -- Several lines, one after another.
  unfoldable pub append_lines : LogFile → List (List ℕ) → Result LogFile
  append_lines l [] = ok l
  append_lines l (line ∷ lines) = append l line >>= λ l'. append_lines l' lines
