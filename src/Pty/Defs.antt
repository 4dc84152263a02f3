-- ===== src/Pty/Defs.antt =====
-- asciinema/pty_.py: the variables that the functions inside `record` share, and the handlers.
-- `Host` answers the calls into the system, the n-th reading of the clock by `now n`.
use asciinema.Base.{
  truthy_time, ℕ, zero, suc, ◌+◌, ◌==◌, if◌then◌else◌, Bool, true, not, ◌&&◌, ◌||◌, String, Option,
  none, some, List, [], ◌∷◌, ◌++◌, length, take, drop, Bytes, is_key, ℤ, ◌+ℤ◌, ◌-ℤ◌, last_of,
}

pub record Size : Type 0 where
  pub cols : ℕ
  pub rows : ℕ

-- The calls of the writer.
pub data Entry : Type 0 where
  stdout : ℤ → Bytes → Entry
  stdin : ℤ → Bytes → Entry
  marker : ℤ → Entry
  resize : ℤ → Size → Entry

-- `key_bindings`
pub record Keys : Type 0 where
  pub prefix : Option Bytes
  pub pause : Option Bytes
  pub add_marker : Option Bytes

-- `tty_write n` is what the n-th write to the terminal gives: how many bytes it took, or `none` for
-- an `OSError`.
pub record Host : Type 0 where
  pub now : ℕ → ℤ
  pub tty_size : ℕ → Size
  pub tty_write : ℕ → Option ℕ

pub record Session : Type 0 where
  pub start_time : ℤ
  pub pause_time : Option ℤ
  pub prefix_mode : Bool
  pub input_data : Bytes
  pub stdin_watched : Bool
  pub signal_watched : Bool
  pub clock_reads : ℕ
  pub size_reads : ℕ
  pub tty_writes : ℕ
  pub to_tty : Bytes
  pub to_child : Bytes
  pub pty_size : Size
  pub entries : List Entry
  pub notices : List String

-- Why the loop ends. `spinning` is a write loop that makes no progress.
pub data Halt : Type 0 where
  eof interrupted os_error value_error spinning : Halt

pub data Step : Type 0 where
  go : Session → Step
  halt : Halt → Session → Step

infixl 5 ◌>>=◌
abbrev pub ◌>>=◌ : Step → (Session → Step) → Step
go s >>= f = f s
halt h s >>= f = halt h s

abbrev pub session_of : Step → Session
session_of (go s) = s
session_of (halt h s) = s

abbrev pub truthy_key : Option Bytes → Bool
truthy_key none = Bool.false
truthy_key (some []) = Bool.false
truthy_key (some (b ∷ bs)) = true

unfoldable pub notify : String → Session → Session
notify text s = record s { notices = s.notices ++ text ∷ [] }

unfoldable pub set_pty_size : Size → Session → Session
set_pty_size size s = record s { pty_size = size }

-- An OSC response of the terminal, such as `\x1b]11;?\x07`.
unfoldable pub is_osc_response : Bytes → Bool
is_osc_response (a ∷ b ∷ c ∷ rest) =
    (a == 0x1b)
    && (b == 0x5d)
    && (elim (last_of (some c) rest) [ none ↦ Bool.false | some z ↦ z == 0x07 ])
is_osc_response _ = Bool.false

module _ (host : Host) where
  -- `writer.write_…(time.perf_counter() - start_time, …)`
  unfoldable pub emit : (ℤ → Entry) → Session → Session
  emit entry s = record s {
    clock_reads = s.clock_reads + 1;
    entries = s.entries ++ entry (host.now s.clock_reads -ℤ s.start_time) ∷ [];
  }

  unfoldable pub handle_resize : Session → Session
  unfolding emit set_pty_size
  handle_resize s =
      let size = host.tty_size s.size_reads in
      emit (λ t. resize t size) (set_pty_size size (record s { size_reads = s.size_reads + 1 }))

  -- The loop over `os.write`, on fuel.
  unfoldable pub write_tty : ℕ → Bytes → Session → Step
  write_tty fuel [] s = go s
  write_tty zero (b ∷ bs) s = halt spinning s
  write_tty (suc fuel) (b ∷ bs) s = elim (host.tty_write s.tty_writes) [
    | none ↦ halt os_error (record s { tty_writes = s.tty_writes + 1 })
    | some n ↦
        write_tty fuel (drop n (b ∷ bs))
          (record s { tty_writes = s.tty_writes + 1; to_tty = s.to_tty ++ take n (b ∷ bs) })
  ]

  unfoldable pub record_stdout : Bytes → Session → Session
  unfolding emit
  record_stdout bytes s = if truthy_time s.pause_time then s else emit (λ t. stdout t bytes) s

  unfoldable pub handle_master_read : Bytes → Session → Step
  unfolding write_tty record_stdout
  handle_master_read bytes s =
      write_tty (length bytes) bytes s >>= λ s'. go (record_stdout bytes s')

  unfoldable pub start_pause : Session → Session
  unfolding notify
  start_pause s =
      notify "Paused recording"
        (record s { pause_time = some (host.now s.clock_reads); clock_reads = s.clock_reads + 1 })

  unfoldable pub end_pause : ℤ → Session → Session
  unfolding notify
  end_pause paused_at s = notify "Resumed recording" (record s {
    start_time = s.start_time +ℤ (host.now s.clock_reads -ℤ paused_at);
    pause_time = none;
    clock_reads = s.clock_reads + 1;
  })

  unfoldable pub toggle_pause : Option ℤ → Session → Session
  unfolding start_pause end_pause
  toggle_pause none s = start_pause s
  toggle_pause (some t) s = if truthy_time (some t) then end_pause t s else start_pause s

  unfoldable pub run_command : Keys → Bytes → Session → Session
  unfolding toggle_pause emit notify
  run_command keys bytes s =
      if is_key bytes keys.pause
      then toggle_pause s.pause_time s
      else if is_key bytes keys.add_marker
      then notify "Marker added" (emit marker s)
      else s

  unfoldable pub record_stdin : Bytes → Session → Session
  unfolding emit is_osc_response
  record_stdin bytes s =
      if not (truthy_time s.pause_time) && not (is_osc_response bytes)
      then emit (λ t. stdin t bytes) s
      else s

  unfoldable pub handle_stdin_read : Keys → Bytes → Session → Session
  unfolding run_command record_stdin
  handle_stdin_read keys bytes s =
      if not s.prefix_mode && truthy_key keys.prefix && is_key bytes keys.prefix
      then record s { prefix_mode = true }
      else if s.prefix_mode
          || (not (truthy_key keys.prefix)
              && (is_key bytes keys.pause || is_key bytes keys.add_marker))
      then run_command keys bytes (record s { prefix_mode = Bool.false })
      else record_stdin bytes (record s { input_data = s.input_data ++ bytes })
