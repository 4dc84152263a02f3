-- ===== src/Pty/Input.antt =====
-- What reaches the child of the keys that are typed, in asciinema/pty_.py.
use mathlib.Core.Path.{subst}
use asciinema.Base.{
  ℕ, zero, suc, true, false, not, Option, Option-cases, none, some, inl, inr, List, [], ◌∷◌, ◌++◌,
  append_assoc, append-nil, drop, take-append-drop, length, Bytes, ◌≡◌, refl, sym, ap, ◌∙◌, arith,
}
use asciinema.Pty.Copy.OnGo.{OnGo, OnGo-bind, OnGo-go, OnGo-halt}
use asciinema.Pty.Defs.{
  Keys, Host, Session, interrupted, Step, go, ◌>>=◌, write_tty, record_stdout, run_command,
  record_stdin, handle_master_read, handle_stdin_read,
}
use asciinema.Pty.Copy.{
  Signal, Read, got, failed, Written, wrote, blocked, failed_write, Selected, keyboard_interrupt,
  Ready, ready, watched, is_empty, copy_pty, copy_stdin, handle_signal, handle_signals,
  copy_signals, write_child, copy_round, copy, start_session,
}
use asciinema.Pty.Taken.{
  child_input, View, view, after_read, OnGo-trans, stdin_of, after_read-stream,
}

module _ (host : Host) where
  write_tty-view :
      (fuel : ℕ) (bytes : Bytes) (s : Session) (v : View)
      → view s ≡ v
      → OnGo (λ t. view t ≡ v) (write_tty host fuel bytes s)
  unfolding write_tty
  write_tty-view fuel [] s v h = OnGo-go (λ t. view t ≡ v) s h
  write_tty-view zero (b ∷ bs) s v h = OnGo-halt _ _ s
  write_tty-view (suc fuel) (b ∷ bs) s v h = elim (Option-cases (host.tty_write s.tty_writes)) [
    | inl e ↦ rw (e, write_tty) (OnGo-halt _ _ _)
    | inr (n, e) ↦ rw (e, write_tty) (write_tty-view fuel (drop n (b ∷ bs)) _ v h)
  ]

  record_stdout-view : (bytes : Bytes) (s : Session) → view (record_stdout host bytes s) ≡ view s
  unfolding record_stdout
  record_stdout-view bytes s = ground arith

  copy_pty-view :
      (r : Option (Read Bytes)) (s : Session) → OnGo (λ t. view t ≡ view s) (copy_pty host r s)
  unfolding copy_pty handle_master_read
  copy_pty-view none s = OnGo-go (λ t. view t ≡ view s) s refl
  copy_pty-view (some failed) s = OnGo-halt _ _ s
  copy_pty-view (some (got [])) s = OnGo-halt _ _ s
  copy_pty-view (some (got (b ∷ bs))) s =
      OnGo-bind (λ t. view t ≡ view s) (λ t. view t ≡ view s)
        (write_tty host (length (b ∷ bs)) (b ∷ bs) s) (λ t. go (record_stdout host (b ∷ bs) t))
        (write_tty-view (length (b ∷ bs)) (b ∷ bs) s (view s) refl)
        (λ t h.
          OnGo-go (λ u. view u ≡ view s) (record_stdout host (b ∷ bs) t)
            (record_stdout-view (b ∷ bs) t ∙ h))

  record_stdin-view : (bytes : Bytes) (s : Session) → view (record_stdin host bytes s) ≡ view s
  unfolding record_stdin
  record_stdin-view bytes s = ground arith

  run_command-view :
      (keys : Keys) (bytes : Bytes) (s : Session) → view (run_command host keys bytes s) ≡ view s
  unfolding run_command
  run_command-view keys bytes s = ground arith

  handle_stdin_read-view :
      (keys : Keys) (b : ℕ) (bs : Bytes) (s : Session)
      → view (handle_stdin_read host keys (b ∷ bs) s)
        ≡ after_read keys (some (got (b ∷ bs))) (view s)
  unfolding handle_stdin_read after_read
  handle_stdin_read-view keys b bs s = ground (
    arith,
    run_command-view keys (b ∷ bs) (record s { prefix_mode = false }),
    record_stdin-view (b ∷ bs) (record s { input_data = s.input_data ++ b ∷ bs }),
    append_assoc s.to_child s.input_data (b ∷ bs),
    append-nil (s.to_child ++ s.input_data),
  )

  copy_stdin-view :
      (keys : Keys) (r : Option (Read Bytes)) (s : Session)
      → OnGo (λ t. view t ≡ after_read keys r (view s)) (copy_stdin host keys r s)
  unfolding copy_stdin after_read
  copy_stdin-view keys none s = OnGo-go (λ t. view t ≡ view s) s refl
  copy_stdin-view keys (some failed) s = OnGo-halt _ _ s
  copy_stdin-view keys (some (got [])) s =
      OnGo-go (λ t. view t ≡ record (view s) { is_open = false })
        (record s { stdin_watched = false }) refl
  copy_stdin-view keys (some (got (b ∷ bs))) s =
      OnGo-go (λ t. view t ≡ after_read keys (some (got (b ∷ bs))) (view s))
        (handle_stdin_read host keys (b ∷ bs) s) (handle_stdin_read-view keys b bs s)

  handle_signal-view :
      (sig : Signal) (s : Session) → OnGo (λ t. view t ≡ view s) (handle_signal host sig s)
  unfolding handle_signal OnGo
  handle_signal-view sig s t e = ground arith

  handle_signals-view :
      (signals : List Signal) (s : Session) (v : View)
      → view s ≡ v
      → OnGo (λ t. view t ≡ v) (handle_signals host signals s)
  unfolding handle_signals
  handle_signals-view [] s v h = OnGo-go (λ t. view t ≡ v) s h
  handle_signals-view (sig ∷ signals) s v h =
      OnGo-bind (λ t. view t ≡ view s) (λ t. view t ≡ v) (handle_signal host sig s)
        (handle_signals host signals) (handle_signal-view sig s)
        (λ t k. handle_signals-view signals t v (k ∙ h))

  copy_signals-view :
      (r : Option (Read (List Signal))) (s : Session)
      → OnGo (λ t. view t ≡ view s) (copy_signals host r s)
  unfolding copy_signals
  copy_signals-view none s = OnGo-go (λ t. view t ≡ view s) s refl
  copy_signals-view (some failed) s = OnGo-halt _ _ s
  copy_signals-view (some (got signals)) s = handle_signals-view signals s (view s) refl

  write_child-view :
      (w : Option Written) (s : Session) → OnGo (λ t. view t ≡ view s) (write_child w s)
  unfolding write_child
  write_child-view none s = OnGo-go (λ t. view t ≡ view s) s refl
  write_child-view (some blocked) s = OnGo-go (λ t. view t ≡ view s) s refl
  write_child-view (some failed_write) s = OnGo-halt _ _ s
  write_child-view (some (wrote n)) s =
      OnGo-go (λ t. view t ≡ view s) _ (rw (append_assoc, take-append-drop n s.input_data))

  copy_round-view :
      (keys : Keys) (r : Ready) (s : Session)
      → OnGo
          (λ t. view t ≡ after_read keys (stdin_of r (view s)) (view s))
          (copy_round host keys (ready r) s)
  unfolding copy_round
  copy_round-view keys r s =
      let typed : Session → Step = copy_stdin host keys (stdin_of r (view s)) in
      let signalled : Session → Step = copy_signals host (watched s.signal_watched r.from_signal) in
      let written : Session → Step = write_child (watched (not (is_empty s.input_data)) r.to_pty) in
      let final : Session → Type 0 = λ t. view t ≡ after_read keys (stdin_of r (view s)) (view s) in
      OnGo-bind (λ t. view t ≡ view s) final (copy_pty host r.from_pty s)
        (λ s₁. typed s₁ >>= λ s₂. signalled s₂ >>= written) (copy_pty-view r.from_pty s)
        λ s₁ h₁.
          OnGo-bind final final (typed s₁) (λ s₂. signalled s₂ >>= written)
            (subst (λ v. OnGo (λ t. view t ≡ after_read keys (stdin_of r (view s)) v) (typed s₁)) h₁
              (copy_stdin-view keys (stdin_of r (view s)) s₁))
            λ s₂ h₂.
              OnGo-bind final final (signalled s₂) written
                (OnGo-trans (signalled s₂) h₂
                  (copy_signals-view (watched s.signal_watched r.from_signal) s₂))
                λ s₃ h₃.
                  OnGo-trans (written s₃) h₃
                    (write_child-view (watched (not (is_empty s.input_data)) r.to_pty) s₃)

  copy-view :
      (keys : Keys) (rounds : List Selected) (s : Session) (v : View)
      → view s ≡ v
      → OnGo
          (λ t. (view t).stream ≡ v.stream ++ child_input keys v.mode v.is_open rounds)
          (copy host keys rounds s)
  unfolding copy
  copy-view keys [] s v h = OnGo-go _ s (ap (λ (w : View). w.stream) h ∙ sym (append-nil v.stream))
  copy-view keys (keyboard_interrupt ∷ rounds) s v h =
      OnGo-halt (λ t. (view t).stream ≡ v.stream ++ []) interrupted s
  copy-view keys (ready r ∷ rounds) s v h =
      OnGo-bind (λ t. view t ≡ after_read keys (stdin_of r (view s)) (view s))
        (λ t. (view t).stream ≡ v.stream ++ child_input keys v.mode v.is_open (ready r ∷ rounds))
        (copy_round host keys (ready r) s) (copy host keys rounds) (copy_round-view keys r s)
        λ t k.
          subst (λ (b : Bytes). OnGo (λ u. (view u).stream ≡ b) (copy host keys rounds t))
            (after_read-stream keys r (stdin_of r v) v rounds refl)
            (copy-view keys rounds t (after_read keys (stdin_of r v) v)
              (k ∙ ap (λ (w : View). after_read keys (stdin_of r w) w) h))

  -- While the loop runs, what the child has been sent and what waits to be sent are together the
  -- keys typed, in order and with none lost, but for those that the recorder takes for itself: the
  -- prefix key, what follows it, and without a prefix key the hotkeys.
  pub copy-child_input :
      (keys : Keys) (rounds : List Selected) (s : Session)
      → copy host keys rounds (start_session host) ≡ go s
      → s.to_child ++ s.input_data ≡ child_input keys false true rounds
  unfolding start_session OnGo
  copy-child_input keys rounds s e =
      copy-view keys rounds (start_session host)
        (record { stream = []; mode = false; is_open = true }) refl s e
