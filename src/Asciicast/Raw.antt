-- ===== src/Asciicast/Raw.antt =====
-- asciinema/asciicast/raw.py, `writer`: the output as it is.
use asciinema.Base.{
  ℕ, ◌==◌, ◌&&◌, if◌then◌else◌, Bool, true, false, Option, none, some, List, [], ◌∷◌, ◌++◌, take,
  Bytes, ℤ,
}
use asciinema.Asciicast.V2.Writer.{decimal}
use asciinema.FileWriter.{File, Result, ok, Disk, try_open, write, ◌>>=◌}

-- The escape sequence that resizes a terminal.
unfoldable pub resize_sequence : ℕ → ℕ → Bytes
unfolding decimal
resize_sequence cols rows =
    0x1b ∷ b'[' ∷ b'8' ∷ b';' ∷ (decimal rows ++ b';' ∷ (decimal cols ++ b't' ∷ []))

-- `size` is that of the file, if there is one. An empty file counts as new.
unfoldable pub appends : Bool → Option ℕ → Bool
appends append none = append
appends append (some size) = if append && size == 0 then false else append

module _ (disk : Disk) where
  -- How much of the bytes the n-th write takes. The file has no buffer, and what `write` returns, the
  -- number of bytes taken, is not looked at.
  unfoldable pub taken : ℕ → Bytes → Bytes
  taken n bytes = elim (disk.short n) [ none ↦ bytes | some k ↦ take k bytes ]

  unfoldable pub write_bytes : Bytes → File Bytes → Result (File Bytes)
  unfolding write taken
  write_bytes bytes f = write disk (taken f.writes bytes) f

  -- The mode and the header of `__init__`, and `__enter__`.
  unfoldable pub enter : Bool → Option ℕ → ℕ → ℕ → List Bytes → Result (File Bytes)
  unfolding appends try_open resize_sequence write_bytes
  enter append size cols rows old =
      if appends append size
      then try_open disk true old
      else try_open disk false old >>= write_bytes (resize_sequence cols rows)

  unfoldable pub write_stdout : ℤ → Bytes → File Bytes → Result (File Bytes)
  unfolding write_bytes
  write_stdout ts bytes f = write_bytes bytes f

  unfoldable pub write_stdin : ℤ → Bytes → File Bytes → Result (File Bytes)
  write_stdin ts bytes f = ok f

  unfoldable pub write_marker : ℤ → File Bytes → Result (File Bytes)
  write_marker ts f = ok f

  unfoldable pub write_resize : ℤ → ℕ → ℕ → File Bytes → Result (File Bytes)
  unfolding write_bytes resize_sequence
  write_resize ts cols rows f = write_bytes (resize_sequence cols rows) f
