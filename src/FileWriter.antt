-- ===== src/FileWriter.antt =====
-- asciinema/file_writer.py: a file that is written in pieces, where the opening and any write may
-- fail.
use asciinema.Base.{
  ℕ, ◌+◌, Bool, true, false, if◌then◌else◌, String, Option, List, [], ◌∷◌, ◌++◌, ◌≡◌,
}

-- What the writer keeps of the file and the pieces whose writes were taken whole, the number of
-- writes tried, and what `on_error` was told. A part of the piece whose write fails may stand behind
-- the content, since a buffer may have been flushed in part.
pub record File {ℓ} (A : Type ℓ) : Type ℓ where
  pub content : List A
  pub writes : ℕ
  pub errors : List String
  pub is_open : Bool

-- A call that returns, raises an `IOError`, or raises another exception.
pub data Result {ℓ} (S : Type ℓ) : Type ℓ where
  ok : S → Result S
  io_error : S → Result S
  other_error : S → Result S

infixl 5 ◌>>=◌
abbrev pub ◌>>=◌ {ℓ} : {S : Type ℓ} → Result S → (S → Result S) → Result S
ok s >>= f = f s
io_error s >>= f = io_error s
other_error s >>= f = other_error s

abbrev pub state_of {ℓ} : {S : Type ℓ} → Result S → S
state_of (ok s) = s
state_of (io_error s) = s
state_of (other_error s) = s

-- What does not depend on the writer: whether the file can be opened, whether the n-th write fails,
-- and how many bytes of the n-th write an unbuffered file takes, if not all.
pub record Disk : Type 0 where
  pub opens : Bool
  pub fails : ℕ → Bool
  pub short : ℕ → Option ℕ

-- The file can be opened, and no write fails.
abbrev pub Works : Disk → Type 0
Works disk = (disk.opens ≡ true) × ((n : ℕ) → disk.fails n ≡ false)

module _ {ℓ} {A : Type ℓ} where
  -- A file that `_open_file` opens: the mode `w` empties it and the mode `a` keeps what it holds.
  unfoldable pub open_file : Bool → List A → File A
  open_file true old = record { content = old; writes = 0; errors = []; is_open = true }
  open_file false old = record { content = []; writes = 0; errors = []; is_open = true }

  -- `_open_file` raises an `OSError`: nothing is reported, and nothing can be written.
  unfoldable pub unopened : Bool → List A → File A
  unfolding open_file
  unopened append old = record (open_file append old) { is_open = false }

  -- `_open_file`
  unfoldable pub try_open : Disk → Bool → List A → Result (File A)
  unfolding open_file unopened
  try_open disk append old =
      if disk.opens then ok (open_file append old) else io_error (unopened append old)

  unfoldable pub write_failed : File A → File A
  write_failed f = record f {
    writes = f.writes + 1;
    errors = f.errors ++ "Write error, recording suspended" ∷ [];
  }

  unfoldable pub append_chunk : A → File A → File A
  append_chunk x f = record f { writes = f.writes + 1; content = f.content ++ x ∷ [] }

  -- `_write`
  unfoldable pub write : Disk → A → File A → Result (File A)
  unfolding write_failed append_chunk
  write disk x f = elim (disk.fails f.writes) [
    | true ↦ io_error (write_failed f)
    | false ↦ ok (append_chunk x f)
  ]

  -- `__exit__`
  unfoldable pub close : File A → File A
  close f = record f { is_open = false }
