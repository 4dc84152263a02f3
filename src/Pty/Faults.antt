-- ===== src/Pty/Faults.antt =====
-- Where asciinema/pty_.py goes wrong: two exit signals at once, and a resize or a marker in a pause.
use asciinema.Base.{
  ℕ, ◌+◌, ltb, if◌then◌else◌, Bool, true, false, some, List, [], ◌∷◌, ◌++◌, append_assoc, Bytes,
  ◌≡◌, arith, ℤ, ◌+ℤ◌, ◌-ℤ◌, ◌<ℤ◌, int_laws,
}
use asciinema.Pty.Defs.{
  stdout, resize, Host, Session, Step, halt, value_error, emit, handle_resize, end_pause,
  record_stdout,
}
use asciinema.Pty.Copy.{Signal, handle_signal, handle_signals, is_exit_signal}

abbrev pub exits : List Signal → ℕ
exits [] = 0
exits (sig ∷ signals) = (if is_exit_signal sig then 1 else 0) + exits signals

abbrev pub is_value_error : Step → Bool
is_value_error (halt value_error s) = true
is_value_error _ = false

-- The signals of one read raise a `ValueError`, which nothing catches, exactly when two of them
-- are exit signals, or one of them where the descriptor has been removed already.
pub handle_signals-value_error :
    (host : Host) (signals : List Signal) (s : Session)
    → is_value_error (handle_signals host signals s)
      ≡ ltb (if s.signal_watched then 1 else 0) (exits signals)
unfolding handle_signals handle_signal
handle_signals-value_error host [] s = ground arith
handle_signals-value_error host (sig ∷ signals) s = ground (
  arith,
  handle_signals-value_error host signals s,
  handle_signals-value_error host signals (record s { signal_watched = false }),
  handle_signals-value_error host signals (handle_resize host s),
)

-- In a pause that began at `t`: the window is resized, the recording goes on, and the child writes.
-- The resize is timed as if there was no pause. So if less time passes between the end of the pause
-- and the output than between the start of the pause and the resize, the output is recorded behind
-- the resize with an earlier time.
pub resize_in_pause :
    (host : Host) (bytes : Bytes) (s : Session) (t : ℤ)
    → let n = s.clock_reads in
      host.now (n + 1 + 1) -ℤ host.now (n + 1) <ℤ host.now n -ℤ t
      → s.pause_time ≡ some t
      → (early late : ℤ) × ((record_stdout host bytes
            (end_pause host t (handle_resize host s))).entries
          ≡ s.entries ++ resize late (host.tty_size s.size_reads) ∷ stdout early bytes ∷ [])
        × (early <ℤ late)
unfolding record_stdout end_pause handle_resize emit
resize_in_pause host bytes s t sooner paused =
    let n = s.clock_reads in
    let early : ℤ = host.now (n + 1 + 1) -ℤ (s.start_time +ℤ (host.now (n + 1) -ℤ t)) in
    let late : ℤ = host.now n -ℤ s.start_time in
    (
      early,
      late,
      append_assoc s.entries (resize late (host.tty_size s.size_reads) ∷ []) _,
      omega int_laws,
    )
