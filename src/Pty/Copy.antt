-- ===== src/Pty/Copy.antt =====
-- asciinema/pty_.py: `copy`, the loop over `select`, and the session around it. The descriptors
-- that `select` reports are the input of a round; only watched ones count.
pub mod Rules
pub mod OnGo
use asciinema.Base.{
  ℕ, zero, suc, ◌+◌, ◌==◌, ltb, if◌then◌else◌, Bool, true, not, ◌&&◌, ◌||◌, Option, none, some,
  List, [], ◌∷◌, ◌++◌, take, drop, Bytes,
}
use asciinema.Pty.Defs.{
  Keys, Host, Session, Halt, eof, interrupted, os_error, value_error, Step, go, halt, ◌>>=◌,
  handle_resize, handle_master_read, handle_stdin_read,
}

pub data Signal : Type 0 where
  sigchld sighup sigterm sigquit sigwinch : Signal
  other_signal : ℕ → Signal

-- EXIT_SIGNALS
abbrev pub is_exit_signal : Signal → Bool
is_exit_signal sigchld = true
is_exit_signal sighup = true
is_exit_signal sigterm = true
is_exit_signal sigquit = true
is_exit_signal _ = Bool.false

abbrev pub is_sigwinch : Signal → Bool
is_sigwinch sigwinch = true
is_sigwinch _ = Bool.false

-- What a read or a write of a ready descriptor gives; `failed` is an `OSError`.
pub data Read (A : Type 0) : Type 0 where
  got : A → Read A
  failed : Read A

pub data Written : Type 0 where
  wrote : ℕ → Written
  blocked failed_write : Written

-- The ready descriptors of one `select`, with what reading or writing them will give.
pub record Ready : Type 0 where
  pub from_pty : Option (Read Bytes)
  pub from_stdin : Option (Read Bytes)
  pub from_signal : Option (Read (List Signal))
  pub to_pty : Option Written

pub data Selected : Type 0 where
  keyboard_interrupt : Selected
  ready : Ready → Selected

-- `x` if the descriptor is watched.
abbrev pub watched : {A : Type 0} → Bool → Option A → Option A
watched b x = if b then x else none

abbrev pub is_empty : Bytes → Bool
is_empty [] = true
is_empty (b ∷ bs) = Bool.false

unfoldable pub write_child : Option Written → Session → Step
write_child none s = go s
write_child (some blocked) s = go s
write_child (some failed_write) s = halt os_error s
write_child (some (wrote n)) s =
    go (record s { to_child = s.to_child ++ take n s.input_data; input_data = drop n s.input_data })

-- `crfds.remove(signal_fd)` raises a `ValueError` if it is not there.
unfoldable pub remove_signal_fd : Session → Step
remove_signal_fd s =
    if s.signal_watched then go (record s { signal_watched = Bool.false }) else halt value_error s

-- `except (IOError, OSError): pass`
unfoldable pub swallow_os_error : Step → Step
swallow_os_error (halt os_error s) = halt eof s
swallow_os_error step = step

module _ (host : Host) where
  unfoldable pub copy_pty : Option (Read Bytes) → Session → Step
  unfolding handle_master_read
  copy_pty none s = go s
  copy_pty (some failed) s = halt eof s
  copy_pty (some (got [])) s = halt eof s
  copy_pty (some (got (b ∷ bs))) s = handle_master_read host (b ∷ bs) s

  unfoldable pub copy_stdin : Keys → Option (Read Bytes) → Session → Step
  unfolding handle_stdin_read
  copy_stdin keys none s = go s
  copy_stdin keys (some failed) s = halt os_error s
  copy_stdin keys (some (got [])) s = go (record s { stdin_watched = Bool.false })
  copy_stdin keys (some (got (b ∷ bs))) s = go (handle_stdin_read host keys (b ∷ bs) s)

  unfoldable pub handle_signal : Signal → Session → Step
  unfolding remove_signal_fd handle_resize
  handle_signal sig s = (if is_exit_signal sig then remove_signal_fd s else go s) >>= λ s'.
      go (if is_sigwinch sig then handle_resize host s' else s')

  unfoldable pub handle_signals : List Signal → Session → Step
  unfolding handle_signal
  handle_signals [] s = go s
  handle_signals (sig ∷ signals) s = handle_signal sig s >>= handle_signals signals

  unfoldable pub copy_signals : Option (Read (List Signal)) → Session → Step
  unfolding handle_signals
  copy_signals none s = go s
  copy_signals (some failed) s = halt os_error s
  copy_signals (some (got signals)) s = handle_signals signals s

  -- One round of `while True`. `cwfds` is fixed before `select`.
  unfoldable pub copy_round : Keys → Selected → Session → Step
  unfolding copy_pty copy_stdin copy_signals write_child
  copy_round keys keyboard_interrupt s = halt interrupted s
  copy_round keys (ready r) s = do
    s₁ ← copy_pty r.from_pty s
    s₂ ← copy_stdin keys (watched s.stdin_watched r.from_stdin) s₁
    s₃ ← copy_signals (watched s.signal_watched r.from_signal) s₂
    write_child (watched (not (is_empty s.input_data)) r.to_pty) s₃

  -- The rounds that a list of answers of `select` drives.
  unfoldable pub copy : Keys → List Selected → Session → Step
  unfolding copy_round
  copy keys [] s = go s
  copy keys (selected ∷ rest) s = copy_round keys selected s >>= copy keys rest

  -- From the fork to the loop: the clock is read, and the size is passed on to the child.
  unfoldable pub start_session : Session
  start_session = record {
    start_time = host.now 0;
    pause_time = none;
    prefix_mode = Bool.false;
    input_data = [];
    stdin_watched = true;
    signal_watched = true;
    clock_reads = 1;
    size_reads = 1;
    tty_writes = 0;
    to_tty = [];
    to_child = [];
    pty_size = host.tty_size 0;
    entries = [];
    notices = [];
  }

  unfoldable pub record_session : Keys → List Selected → Step
  unfolding copy start_session swallow_os_error
  record_session keys rounds = swallow_os_error (copy keys rounds start_session)
