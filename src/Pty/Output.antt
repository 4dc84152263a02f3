-- ===== src/Pty/Output.antt =====
-- What the terminal shows and what is recorded of the child's output, in asciinema/pty_.py.
use mathlib.Core.Path.{subst}
use asciinema.Base.{
  truthy_time, ℕ, zero, suc, ◌+◌, ◌≤◌, if◌then◌else◌, Option-cases, some, inl, inr, List, [], ◌∷◌,
  ◌++◌, append_assoc, append-nil, take, drop, take-append-drop, length, length-drop, Bytes, ◌≡◌,
  refl, sym, ◌∙◌, arith, ◌-ℤ◌,
}
use asciinema.Pty.Defs.{
  Entry, stdout, Host, Session, os_error, Step, go, halt, ◌>>=◌, write_tty, record_stdout,
  handle_master_read,
}

-- A write of bytes takes at least one of them, or fails.
abbrev pub Progresses : Host → Type 0
Progresses host = (n k : ℕ) → host.tty_write n ≡ some k → 1 ≤ k

-- Nothing but the writes to the terminal has happened between two states.
pub record WroteTty (bytes : Bytes) (s t : Session) : Type 0 where
  pub shown : t.to_tty ≡ s.to_tty ++ bytes
  pub entries_same : t.entries ≡ s.entries
  pub pause_same : t.pause_time ≡ s.pause_time
  pub start_same : t.start_time ≡ s.start_time
  pub reads_same : t.clock_reads ≡ s.clock_reads

-- What is recorded of some output.
abbrev pub recorded : Host → Bytes → Session → List Entry
recorded host bytes s =
    if truthy_time s.pause_time
    then s.entries
    else s.entries ++ stdout (host.now s.clock_reads -ℤ s.start_time) bytes ∷ []

abbrev pub IsShown : Host → Bytes → Session → Step → Type 0
IsShown host bytes s (go t) = (t.to_tty ≡ s.to_tty ++ bytes) × (t.entries ≡ recorded host bytes s)
IsShown host bytes s (halt os_error t) = t.entries ≡ s.entries
IsShown host bytes s (halt _ t) = ⊥

-- A loop that has written the bytes, or has met an `OSError`.
abbrev pub Wrote : Bytes → Session → Step → Type 0
Wrote bytes s (go t) = WroteTty bytes s t
Wrote bytes s (halt os_error t) = t.entries ≡ s.entries
Wrote bytes s (halt _ t) = ⊥

WroteTty-trans :
    (a b : Bytes) (s : Session) {t : Session} (k : ℕ)
    → WroteTty b (record s { tty_writes = k; to_tty = s.to_tty ++ a }) t
    → WroteTty (a ++ b) s t
WroteTty-trans a b s k w = record {
  shown = w.shown ∙ append_assoc s.to_tty a b;
  entries_same = w.entries_same;
  pause_same = w.pause_same;
  start_same = w.start_same;
  reads_same = w.reads_same;
}

Wrote-trans :
    (a b : Bytes) (s : Session) (k : ℕ) (step : Step)
    → Wrote b (record s { tty_writes = k; to_tty = s.to_tty ++ a }) step
    → Wrote (a ++ b) s step
Wrote-trans a b s k (go t) w = WroteTty-trans a b s k w
Wrote-trans a b s k (halt os_error t) w = w
Wrote-trans a b s k (halt _ t) w = absurd w

record_stdout_shown :
    (host : Host) (bytes : Bytes) (s t : Session)
    → WroteTty bytes s t
    → ((record_stdout host bytes t).to_tty ≡ s.to_tty ++ bytes)
      × ((record_stdout host bytes t).entries ≡ recorded host bytes s)
unfolding record_stdout
record_stdout_shown host bytes s t w =
    ground (arith, w.shown, w.entries_same, w.pause_same, w.start_same, w.reads_same)

module _ (host : Host) (progress : Progresses host) where
  -- As much fuel as there are bytes is enough.
  write_tty-Wrote :
      (fuel : ℕ) (bytes : Bytes) (s : Session)
      → length bytes ≤ fuel
      → Wrote bytes s (write_tty host fuel bytes s)
  unfolding write_tty
  write_tty-Wrote fuel [] s h = record {
    shown = sym (append-nil s.to_tty);
    entries_same = refl;
    pause_same = refl;
    start_same = refl;
    reads_same = refl;
  }
  write_tty-Wrote zero (b ∷ bs) s h = absurd (omega arith)
  write_tty-Wrote (suc fuel) (b ∷ bs) s h = elim (Option-cases (host.tty_write s.tty_writes)) [
    | inl e ↦ rw (e, write_tty) refl
    | inr (n, e) ↦
        let all : Bytes = b ∷ bs in
        let s' : Session = record s {
          tty_writes = s.tty_writes + 1;
          to_tty = s.to_tty ++ take n all;
        } in
        let step : Step = write_tty host fuel (drop n all) s' in
        rw (e, write_tty)
          (subst (λ bytes. Wrote bytes s step) (take-append-drop n all)
            (Wrote-trans (take n all) (drop n all) s (s.tty_writes + 1) step (
              write_tty-Wrote fuel (drop n all) s'
                (omega (arith, length-drop n all, progress s.tty_writes n e)))))
  ]

  -- However the terminal splits the writes, if each takes at least one byte or fails: unless one of
  -- them fails, all that the child wrote is
  -- shown, and it is recorded in one piece and timed by the clock, or left out in a pause. The
  -- write loop ends, and a failed write leaves the recording as it was.
  pub handle_master_read-IsShown :
      (bytes : Bytes) (s : Session) → IsShown host bytes s (handle_master_read host bytes s)
  unfolding handle_master_read
  handle_master_read-IsShown bytes s =
      shown_after (write_tty host (length bytes) bytes s)
        (write_tty-Wrote (length bytes) bytes s (omega arith))
    where
      shown_after :
          (step : Step)
          → Wrote bytes s step
          → IsShown host bytes s (step >>= λ s'. go (record_stdout host bytes s'))
      shown_after (go t) w = record_stdout_shown host bytes s t w
      shown_after (halt os_error t) w = w
      shown_after (halt _ t) w = w
