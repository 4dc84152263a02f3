-- ===== src/Pty/Copy/Rules.antt =====
-- What every handler of the loop keeps, the loop keeps.
use asciinema.Base.{
  false, not, if_rule, if◌then◌else◌, Option, none, some, List, [], ◌∷◌, ◌++◌, take, drop, Bytes,
}
use asciinema.Pty.Defs.{
  Keys, Host, Session, Step, go, halt, Halt, os_error, interrupted, ◌>>=◌, session_of,
  handle_resize, handle_master_read, handle_stdin_read,
}
use asciinema.Pty.Copy.{
  Signal, Read, got, failed, Written, wrote, blocked, failed_write, Selected, keyboard_interrupt,
  ready, watched, is_empty, copy_pty, copy_stdin, remove_signal_fd, handle_signal, handle_signals,
  copy_signals, write_child, copy_round, copy, is_exit_signal, is_sigwinch, swallow_os_error,
}

-- The state has the property, also when the loop ends.
unfoldable pub Holds : (Session → Type 0) → Step → Type 0
Holds P step = P (session_of step)

pub Holds-bind :
    (P : Session → Type 0) (step : Step) (f : Session → Step)
    → Holds P step
    → ((s : Session) → P s → Holds P (f s))
    → Holds P (step >>= f)
unfolding Holds
Holds-bind P (go s) f h k = k s h
Holds-bind P (halt cause s) f h k = h

pub Holds-go : (P : Session → Type 0) (s : Session) → P s → Holds P (go s)
unfolding Holds
Holds-go P s h = h

pub Holds-halt : (P : Session → Type 0) (cause : Halt) (s : Session) → P s → Holds P (halt cause s)
unfolding Holds
Holds-halt P cause s h = h

pub Holds-swallow :
    (P : Session → Type 0) (step : Step) → Holds P step → Holds P (swallow_os_error step)
unfolding swallow_os_error Holds
Holds-swallow P (go s) h = h
Holds-swallow P (halt os_error s) h = h
Holds-swallow P (halt _ s) h = h

-- What `handle_stdin_read`, the other handlers and the bookkeeping of the descriptors must keep.
pub record IsKept (host : Host) (keys : Keys) (P : Session → Type 0) : Type 0 where
  pub master : (b : Bytes) (s : Session) → P s → Holds P (handle_master_read host b s)
  pub typed : (b : Bytes) (s : Session) → P s → P (handle_stdin_read host keys b s)
  pub resized : (s : Session) → P s → P (handle_resize host s)
  pub stdin_closed : (s : Session) → P s → P (record s { stdin_watched = false })
  pub signals_closed : (s : Session) → P s → P (record s { signal_watched = false })
  pub sent :
      (s : Session) (out rest : Bytes)
      → P s
      → P (record s { to_child = s.to_child ++ out; input_data = rest })

module _ (host : Host) (keys : Keys) (P : Session → Type 0) (k : IsKept host keys P) where
  copy_pty-Holds : (r : Option (Read Bytes)) (s : Session) → P s → Holds P (copy_pty host r s)
  unfolding copy_pty Holds
  copy_pty-Holds none s h = h
  copy_pty-Holds (some failed) s h = h
  copy_pty-Holds (some (got [])) s h = h
  copy_pty-Holds (some (got (b ∷ bs))) s h = k.master (b ∷ bs) s h

  copy_stdin-Holds :
      (r : Option (Read Bytes)) (s : Session) → P s → Holds P (copy_stdin host keys r s)
  unfolding copy_stdin Holds
  copy_stdin-Holds none s h = h
  copy_stdin-Holds (some failed) s h = h
  copy_stdin-Holds (some (got [])) s h = k.stdin_closed s h
  copy_stdin-Holds (some (got (b ∷ bs))) s h = k.typed (b ∷ bs) s h

  remove_signal_fd-Holds : (s : Session) → P s → Holds P (remove_signal_fd s)
  unfolding remove_signal_fd Holds
  remove_signal_fd-Holds s h =
      if_rule (Holds P) s.signal_watched _ _ (λ _. k.signals_closed s h) (λ _. h)

  handle_signal-Holds : (sig : Signal) (s : Session) → P s → Holds P (handle_signal host sig s)
  unfolding handle_signal Holds
  handle_signal-Holds sig s h =
      Holds-bind P (if is_exit_signal sig then remove_signal_fd s else go s)
        (λ s'. go (if is_sigwinch sig then handle_resize host s' else s'))
        (if_rule (Holds P) (is_exit_signal sig) _ _ (λ _. remove_signal_fd-Holds s h) (λ _. h))
        (λ s' h'. if_rule P (is_sigwinch sig) _ _ (λ _. k.resized s' h') (λ _. h'))

  handle_signals-Holds :
      (signals : List Signal) (s : Session) → P s → Holds P (handle_signals host signals s)
  unfolding handle_signals Holds
  handle_signals-Holds [] s h = h
  handle_signals-Holds (sig ∷ signals) s h =
      Holds-bind P (handle_signal host sig s) (handle_signals host signals)
        (handle_signal-Holds sig s h) (handle_signals-Holds signals)

  copy_signals-Holds :
      (r : Option (Read (List Signal))) (s : Session) → P s → Holds P (copy_signals host r s)
  unfolding copy_signals Holds
  copy_signals-Holds none s h = h
  copy_signals-Holds (some failed) s h = h
  copy_signals-Holds (some (got signals)) s h = handle_signals-Holds signals s h

  write_child-Holds : (w : Option Written) (s : Session) → P s → Holds P (write_child w s)
  unfolding write_child Holds
  write_child-Holds none s h = h
  write_child-Holds (some blocked) s h = h
  write_child-Holds (some failed_write) s h = h
  write_child-Holds (some (wrote n)) s h = k.sent s (take n s.input_data) (drop n s.input_data) h

  copy_round-Holds :
      (selected : Selected) (s : Session) → P s → Holds P (copy_round host keys selected s)
  unfolding copy_round
  copy_round-Holds keyboard_interrupt s h = Holds-halt P interrupted s h
  copy_round-Holds (ready r) s h =
      let typed : Session → Step = copy_stdin host keys (watched s.stdin_watched r.from_stdin) in
      let signalled : Session → Step = copy_signals host (watched s.signal_watched r.from_signal) in
      let written : Session → Step = write_child (watched (not (is_empty s.input_data)) r.to_pty) in
      Holds-bind P (copy_pty host r.from_pty s) (λ s₁. typed s₁ >>= λ s₂. signalled s₂ >>= written)
        (copy_pty-Holds r.from_pty s h)
        λ s₁ h₁.
          Holds-bind P (typed s₁) (λ s₂. signalled s₂ >>= written) (copy_stdin-Holds _ s₁ h₁)
            λ s₂ h₂.
              Holds-bind P (signalled s₂) written
                (copy_signals-Holds (watched s.signal_watched r.from_signal) s₂ h₂)
                (write_child-Holds _)

  -- Rounds keep what the handlers keep.
  pub copy-Holds : (rounds : List Selected) (s : Session) → P s → Holds P (copy host keys rounds s)
  unfolding copy Holds
  copy-Holds [] s h = h
  copy-Holds (selected ∷ rounds) s h =
      Holds-bind P (copy_round host keys selected s) (copy host keys rounds)
        (copy_round-Holds selected s h) (copy-Holds rounds)
