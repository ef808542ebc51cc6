-- ===== src/Logger/LogFile/Stream.antt =====
-- No line is lost or moved when the log goes on in another file.
use mathlib.Core.List.{append_assoc, append-nil}
use wethands.Prelude.{
  ℕ, ◌+◌, ◌-◌, ◌*◌, ◌<◌, ◌≤◌, ◌≡◌, refl, sym, ap, ◌∙◌, true, false, Option, none, some, List, [],
  ◌∷◌, ◌++◌, ltb, leb, ◌==◌, length, if_lem, add_size, Returns, Returns-bind, Returns-map,
  Returns-if, Returns-elim, ◌>>=◌, arith, lt→ltb,
}
use wethands.Utils.FileUtil.{AppendFile, new_append_file}
use wethands.Utils.FileUtil
use wethands.Utils.FileUtil.Append.{TakesAll, append_whole}
use wethands.Logger.LogFile.{
  LogFile, microseconds_per_second, close_file, roll_file, new_log_file, flush_file, check,
  append_file, prepare, append_unlocked, append, append_lines,
}

-- The clock goes on between two readings, and does not start in the first second of the epoch.
pub record IsClock (clock : ℕ → ℕ) : Type 0 where
  pub rises : (n : ℕ) → clock n < clock (n + 1)
  pub starts : microseconds_per_second ≤ clock 0

-- The bytes of some files, one file after another.
unfoldable pub bytes : List AppendFile → List ℕ
bytes [] = []
bytes (file ∷ files) = file.content ++ bytes files

unfoldable pub content_of : Option AppendFile → List ℕ
content_of none = []
content_of (some file) = file.content

-- The bytes of the lines, one line after another.
unfoldable pub concat : List (List ℕ) → List ℕ
concat [] = []
concat (line ∷ lines) = line ++ concat lines

-- Everything that was written: the closed files and the open one.
unfoldable pub written : LogFile → List ℕ
written l = bytes l.closed ++ content_of l.file

bytes-append :
    (files : List AppendFile) (file : AppendFile)
    → bytes (files ++ file ∷ []) ≡ bytes files ++ file.content
unfolding bytes
bytes-append [] file = append-nil file.content
bytes-append (first ∷ files) file =
    ap (λ rest. first.content ++ rest) (bytes-append files file)
    ∙ sym (append_assoc first.content (bytes files) file.content)

-- A new file changes nothing in what was written.
bytes-close_file :
    (closed : List AppendFile) (file : Option AppendFile)
    → bytes (close_file closed file) ++ [] ≡ bytes closed ++ content_of file
unfolding close_file content_of
bytes-close_file closed none = refl
bytes-close_file closed (some file) =
    append-nil (bytes (closed ++ file ∷ [])) ∙ bytes-append closed file

nil_if_empty : (line : List ℕ) → (length line == 0) ≡ true → line ≡ []
nil_if_empty [] empty = refl
nil_if_empty (byte ∷ line) empty = absurd (ground arith)

module _ (clock : ℕ → ℕ) where
  -- The log has a file that was opened before now, and these bytes were written.
  pub record IsLog (total : List ℕ) (l : LogFile) : Type 0 where
    pub open_file : AppendFile
    pub is_open : l.file ≡ some open_file
    pub rolled : l.last_roll < clock l.readings
    pub stream : written l ≡ total

module _ (clock : ℕ → ℕ) (round_by_day : ℕ → ℕ) (is_clock : IsClock clock) where
  pub roll_file-IsLog :
      (total : List ℕ) (l : LogFile)
      → IsLog clock total l
      → Returns (roll_file clock round_by_day l) (IsLog clock total)
  unfolding roll_file written content_of new_append_file
  roll_file-IsLog total l h = rw (lt→ltb l.last_roll (clock l.readings) h.rolled) (
      if_lem (IsLog clock total) (ltb (clock l.readings - l.last_roll) microseconds_per_second) _ _
        (λ again. record {
          open_file = h.open_file;
          is_open = h.is_open;
          rolled = omega (arith, h.rolled, is_clock.rises l.readings);
          stream = h.stream;
        })
        (λ later. record {
          open_file = new_append_file;
          is_open = refl;
          rolled = is_clock.rises l.readings;
          stream = bytes-close_file l.closed l.file ∙ h.stream;
        }))

  flush_file-IsLog :
      (total : List ℕ) (l : LogFile)
      → IsLog clock total l
      → Returns (flush_file l) (IsLog clock total)
  unfolding flush_file written content_of FileUtil.flush
  flush_file-IsLog total l h =
      Returns-elim (IsLog clock total) l.file _ _ (λ absent. absurd (cc (absent, h.is_open)))
        (λ file e. record {
          open_file = FileUtil.flush file;
          is_open = refl;
          rolled = h.rolled;
          stream = ap (λ o. bytes l.closed ++ content_of o) (sym e) ∙ h.stream;
        })

  check-IsLog :
      (total : List ℕ) (l : LogFile)
      → IsLog clock total l
      → Returns (check clock round_by_day l) (IsLog clock total)
  unfolding check written
  check-IsLog total l h =
      let checked : LogFile = record l { append_count = 0; readings = l.readings + 1 } in
      let checked-IsLog : IsLog clock total checked = record {
        open_file = h.open_file;
        is_open = h.is_open;
        rolled = omega (arith, h.rolled, is_clock.rises l.readings);
        stream = h.stream;
      } in
      Returns-if (IsLog clock total) (ltb l.current_period (round_by_day (clock l.readings))) _ _
        (λ other_day.
          Returns-bind (IsLog clock total) (IsLog clock total) _ _
            (roll_file-IsLog total checked checked-IsLog)
            (λ rolled k. record {
              open_file = k.open_file;
              is_open = k.is_open;
              rolled = k.rolled;
              stream = k.stream;
            }))
        (λ same_day.
          Returns-if (IsLog clock total)
            (leb (l.last_flush + l.flush_interval * microseconds_per_second) (clock l.readings)) _ _
            (λ late.
              Returns-bind (IsLog clock total) (IsLog clock total) _ _
                (flush_file-IsLog total checked checked-IsLog)
                (λ flushed k. record {
                  open_file = k.open_file;
                  is_open = k.is_open;
                  rolled = k.rolled;
                  stream = k.stream;
                }))
            (λ early. checked-IsLog))

  pub prepare-IsLog :
      (total : List ℕ) (l : LogFile) (line : List ℕ)
      → IsLog clock total l
      → Returns (prepare clock round_by_day l line) (IsLog clock total)
  unfolding prepare written
  prepare-IsLog total l line h =
      Returns-elim (IsLog clock total) l.file _ _ (λ absent. absurd (cc (absent, h.is_open)))
        (λ file e.
          Returns-if (IsLog clock total)
            (ltb l.rollsize (add_size file.written_bytes (length line))) _ _
            (λ full.
              Returns-bind (IsLog clock total) (IsLog clock total) _ _ (roll_file-IsLog total l h)
                (λ rolled k. record {
                  open_file = k.open_file;
                  is_open = k.is_open;
                  rolled = k.rolled;
                  stream = k.stream;
                }))
            (λ room.
              Returns-if (IsLog clock total) (leb l.check_every_n_append l.append_count) _ _
                (λ often. check-IsLog total l h) (λ seldom. h)))

  module _ (fwrite : ℕ → ℕ → ℕ) (stream_is_good : TakesAll fwrite) where
    append_file-IsLog :
        (total : List ℕ) (l : LogFile) (line : List ℕ)
        → 0 < length line
        → IsLog clock total l
        → Returns (append_file fwrite l line) (IsLog clock (total ++ line))
    unfolding append_file written content_of
    append_file-IsLog total l line some_bytes h =
        Returns-elim (IsLog clock (total ++ line)) l.file _ _
          (λ absent. absurd (cc (absent, h.is_open)))
          (λ file e. record {
            open_file = record file {
              content = file.content ++ line;
              written_bytes = file.written_bytes + length line;
              calls = file.calls + 1;
            };
            is_open = append_whole fwrite file line stream_is_good some_bytes;
            rolled = h.rolled;
            stream = rw (append_whole fwrite file line stream_is_good some_bytes) (
                sym (append_assoc (bytes l.closed) file.content line)
                ∙ ap (λ o. (bytes l.closed ++ content_of o) ++ line) (sym e)
                ∙ ap (λ done. done ++ line) h.stream);
          })

    append-IsLog :
        (total : List ℕ) (l : LogFile) (line : List ℕ)
        → IsLog clock total l
        → Returns (append clock round_by_day fwrite l line) (IsLog clock (total ++ line))
    unfolding append append_unlocked
    append-IsLog total l line h =
        Returns-if (IsLog clock (total ++ line)) (length line == 0) _ _
          (λ empty. rw (nil_if_empty line empty) (rw (append-nil total) h))
          (λ full.
            Returns-bind (IsLog clock total) (IsLog clock (total ++ line)) _ _
              (prepare-IsLog total l line h)
              (λ ready k. append_file-IsLog total ready line (ground (arith, full)) k))

    append_lines-IsLog :
        (lines : List (List ℕ)) (total : List ℕ) (l : LogFile)
        → IsLog clock total l
        → Returns
            (append_lines clock round_by_day fwrite l lines)
            (IsLog clock (total ++ concat lines))
    unfolding append_lines concat
    append_lines-IsLog [] total l h = rw (append-nil total) h
    append_lines-IsLog (line ∷ lines) total l h =
        Returns-bind (IsLog clock (total ++ line)) (IsLog clock (total ++ (line ++ concat lines))) _
          _ (append-IsLog total l line h)
          (λ l' k.
            rw (sym (append_assoc total line (concat lines)))
              (append_lines-IsLog lines (total ++ line) l' k))

    new_log_file-IsLog :
        (rollsize flush_interval check_every_n_append : ℕ)
        → Returns
            (new_log_file clock round_by_day rollsize flush_interval check_every_n_append)
            (IsLog clock [])
    unfolding new_log_file roll_file written content_of bytes close_file new_append_file
    new_log_file-IsLog rollsize flush_interval check_every_n_append =
        let after : ltb 0 (clock 0) ≡ true = ground (arith, is_clock.starts) in
        let late : ltb (clock 0 - 0) microseconds_per_second ≡ false =
          ground (arith, is_clock.starts) in
        rw (after, late)
          (record {
            open_file = new_append_file;
            is_open = refl;
            rolled = is_clock.rises 0;
            stream = refl;
          })

    -- A log that is opened and given some lines, in any number and at any times of a clock that goes
    -- on between two readings, does not fail, and the bytes of its files, one file after another, are
    -- those of the lines in their order, when the stream takes all that it is given.
    pub append_lines-keeps :
        (rollsize flush_interval check_every_n_append : ℕ) (lines : List (List ℕ))
        → Returns
            (new_log_file clock round_by_day rollsize flush_interval check_every_n_append >>= λ l.
              append_lines clock round_by_day fwrite l lines)
            (λ l. written l ≡ concat lines)
    append_lines-keeps rollsize flush_interval check_every_n_append lines =
        Returns-bind (IsLog clock []) (λ l. written l ≡ concat lines) _ _
          (new_log_file-IsLog rollsize flush_interval check_every_n_append)
          (λ l h.
            Returns-map (IsLog clock (concat lines)) _ _ (append_lines-IsLog lines [] l h)
              (λ l' k. k.stream))
