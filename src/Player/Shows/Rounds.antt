-- ===== src/Player/Shows/Rounds.antt =====
-- What the rounds of the player write, and with them whole playbacks.
use mathlib.Core.Path.{subst}
use asciinema.Base.{
  ℕ, zero, suc, ◌+◌, if_rule, Bool, ◌&&◌, Option, none, some, List, [], ◌∷◌, Bytes, is_key,
  has_byte, ◌≡◌, refl, sym, ℤ, pos, ltb_ℤ,
}
use asciinema.Asciicast.Events.{Frame}
use asciinema.Player.Defs.{
  Printed, output_start, Options, Host, Loop, outer, paused, playing, Playback, Outcome, running,
  finished, interrupted, raised, is_marker, make_output,
}
use asciinema.Player.Loops.{
  next_event, write, resume, pass_marker, paused_key, playing_key, playing_round, round, and_then,
  run, start, schedule, Request, options, play, pressed, waited,
}
use asciinema.Player.Shows.{
  pending_of, pending, Advances, Advances-refl, Shows, Shows-trans, next_from-Shows,
  write_next-Shows, still-Shows, skip_to_marker-Shows,
}

module _ (o : Options) (host : Host) where
  abbrev Prints : List Frame → List Printed → Outcome → Type 0
  Prints = Shows o.output

  after_marker-Shows :
      (current : Option Frame) (s : Playback)
      → s.current ≡ current
      → Prints (pending s) s.stdout (pass_marker o host (running s))
  unfolding pass_marker next_event
  after_marker-Shows none s c =
      rw (c, pass_marker)
        (subst (λ q. Advances o.output [] s.stdout (pending_of q s.rest.frames) s.stdout) (sym c)
          (Advances-refl o.output [] s.stdout))
  after_marker-Shows (some f) s c =
      rw (c, pass_marker)
        (write_next-Shows o.output f s.rest.frames s.rest.raises
          (record (write o.output f s) { pause_elapsed_time = some f.time }) s.stdout refl)

  pass_marker-Shows :
      (frames : List Frame) (out : List Printed) (outcome : Outcome)
      → Prints frames out outcome
      → Prints frames out (pass_marker o host outcome)
  pass_marker-Shows frames out (running s) h =
      Shows-trans o.output frames (pending s) out s.stdout (pass_marker o host (running s)) h
        (after_marker-Shows s.current s refl)
  pass_marker-Shows frames out (finished s) h = unfold pass_marker in h
  pass_marker-Shows frames out (interrupted s) h = unfold pass_marker in h
  pass_marker-Shows frames out (raised s) h = unfold pass_marker in h

  module _ (f : Frame) where
    resume-Shows :
        (e : Option ℤ) (s : Playback)
        → s.current ≡ some f
        → Prints (f ∷ s.rest.frames) s.stdout (resume o host e s)
    unfolding resume
    resume-Shows none s c = (f ∷ s.rest.frames, Advances-refl o.output _ s.stdout)
    resume-Shows (some e) s c = still-Shows o.output f s.rest.frames s c refl

    step-Shows :
        (s : Playback) → Prints (f ∷ s.rest.frames) s.stdout (next_event (write o.output f s))
    unfolding next_event write
    step-Shows s =
        write_next-Shows o.output f s.rest.frames s.rest.raises (write o.output f s) s.stdout refl

    paused_key-Shows :
        (key : Bytes) (s : Playback)
        → s.current ≡ some f
        → Prints (f ∷ s.rest.frames) s.stdout (paused_key o host key f s)
    unfolding paused_key
    paused_key-Shows key s c =
        let P : Outcome → Type 0 = Prints (f ∷ s.rest.frames) s.stdout in
        if_rule P (has_byte 0x03 key) _ _ (λ _. still-Shows o.output f s.rest.frames s c refl)
          λ _.
            if_rule P (is_key key o.bindings.pause) _ _ (λ _. resume-Shows s.pause_elapsed_time s c)
              λ _.
                if_rule P (is_key key o.bindings.step) _ _
                  (λ _. step-Shows (record s { pause_elapsed_time = some f.time }))
                  λ _.
                    if_rule P (is_key key o.bindings.next_marker) _ _
                      (λ _.
                        pass_marker-Shows _ _ _
                          (skip_to_marker-Shows o.output f s.rest.frames s.rest.raises s c refl))
                      λ _. still-Shows o.output f s.rest.frames s c refl

    playing_key-Shows :
        (key : Bytes) (s : Playback)
        → s.current ≡ some f
        → Prints (f ∷ s.rest.frames) s.stdout (playing_key o host key f s)
    unfolding playing_key
    playing_key-Shows key s c =
        let P : Outcome → Type 0 = Prints (f ∷ s.rest.frames) s.stdout in
        if_rule P (has_byte 0x03 key) _ _ (λ _. still-Shows o.output f s.rest.frames s c refl)
          λ _.
            if_rule P (is_key key o.bindings.pause) _ _
              (λ _. still-Shows o.output f s.rest.frames s c refl)
              λ _.
                if_rule P (is_marker f && o.pause_on_markers) _ _
                  (λ _. step-Shows (record s { pause_elapsed_time = some f.time; loop = outer }))
                  λ _. step-Shows s

    paused_round-Shows :
        (s : Playback)
        → s.current ≡ some f
        → Prints
            (f ∷ s.rest.frames)
            s.stdout
            (paused_key o host (pressed o host s) f (waited o host s))
    paused_round-Shows s c = paused_key-Shows (pressed o host s) (waited o host s) c

    playing_round-Shows :
        (s : Playback)
        → s.current ≡ some f
        → Prints (f ∷ s.rest.frames) s.stdout (playing_round o host f s)
    unfolding playing_round
    playing_round-Shows s c =
        let s' : Playback = record s { clock_reads = s.clock_reads + 1 } in
        if_rule (Prints (f ∷ s.rest.frames) s.stdout) (ltb_ℤ (pos 0) _) _ _
          (λ _. playing_key-Shows (pressed o host s') (waited o host s') c)
          (λ _. playing_key-Shows [] s' c)

  -- Where the frames have run out nothing is left.
  none-Shows :
      (s : Playback) → s.current ≡ none → Advances o.output [] s.stdout (pending s) s.stdout
  none-Shows s c =
      subst (λ q. Advances o.output [] s.stdout (pending_of q s.rest.frames) s.stdout) (sym c)
        (Advances-refl o.output [] s.stdout)

  round-Shows :
      (loop : Loop) (current : Option Frame) (s : Playback)
      → s.current ≡ current
      → Prints (pending_of current s.rest.frames) s.stdout (round o host loop current s)
  unfolding round
  round-Shows outer none s c =
      if_rule (Prints [] s.stdout) s.ctrl_c _ _ (λ _. none-Shows s c)
        (λ _. Advances-refl o.output [] s.stdout)
  round-Shows outer (some f) s c =
      let still = still-Shows o.output f s.rest.frames s c refl in
      if_rule (Prints (f ∷ s.rest.frames) s.stdout) s.ctrl_c _ _ (λ _. still) (λ _. still)
  round-Shows paused none s c = none-Shows s c
  round-Shows paused (some f) s c = paused_round-Shows f s c
  round-Shows playing none s c = none-Shows s c
  round-Shows playing (some f) s c = playing_round-Shows f s c

  then-Shows :
      (frames : List Frame) (out : List Printed) (outcome : Outcome) (k : Playback → Outcome)
      → Prints frames out outcome
      → ((s : Playback) → Prints (pending s) s.stdout (k s))
      → Prints frames out (and_then o host outcome k)
  then-Shows frames out (running s) k h g =
      Shows-trans o.output frames (pending s) out s.stdout (k s) h (g s)
  then-Shows frames out (finished s) k h g = h
  then-Shows frames out (interrupted s) k h g = h
  then-Shows frames out (raised s) k h g = h

  run-Shows : (fuel : ℕ) (s : Playback) → Prints (pending s) s.stdout (run o host fuel s)
  unfolding run
  run-Shows zero s = Advances-refl o.output (pending s) s.stdout
  run-Shows (suc fuel) s =
      then-Shows (pending s) s.stdout (round o host s.loop s.current s) (run o host fuel)
        (round-Shows s.loop s.current s refl) (run-Shows fuel)

-- Whatever keys are pressed and however long the playback runs: stdout has the header, if the
-- output format has one, and then what a beginning of the scheduled frames prints, in order, no
-- frame left out and none printed twice. If the playback finishes, it is all the frames.
pub play-Shows :
    (r : Request) (tty : Bool) (host : Host) (fuel : ℕ)
    → let output = make_output r.out_fmt r.stream in
      Shows output
        (schedule r.events r.idle_time_limit r.stored_limit r.speed).frames
        (output_start output r.header)
        (play r tty host fuel)
unfolding play start next_event
play-Shows r tty host fuel =
    let o = options r tty in
    let events = schedule r.events r.idle_time_limit r.stored_limit r.speed in
    then-Shows o host events.frames (output_start o.output r.header) (start o host r.header events)
      (run o host fuel) (next_from-Shows o.output events.frames events.raises _)
      (run-Shows o host fuel)
