-- ===== src/Player/Finish.antt =====
-- Without a terminal the player of asciinema/player.py plays to the end.
use mathlib.Core.Path.{subst}
use asciinema.Base.{
  append-nil, sym, ap, ◌∙◌, ℕ, zero, suc, ◌+◌, ◌≤◌, length, false, Option, none, some, List, [],
  ◌∷◌, ◌++◌, is_key, has_byte, ◌≡◌, refl, arith,
}
use asciinema.Asciicast.Events.{Frame, Feed}
use asciinema.Player.Defs.{
  Printed, Output, output_write, Options, Host, playing, Playback, finished, make_output, Bindings,
  output_start,
}
use asciinema.Player.Loops.{
  next_event, write, playing_round, and_then, run, initial, start, schedule, Request, options, play,
}
use asciinema.Asciicast.Json.{Json}
use asciinema.Player.Shows.{printed, pending_of, Advances, Shows}
use asciinema.Player.Shows.Rounds.{play-Shows}

module _ (b : Bindings) (output : Output) (host : Host) (set : is_key [] b.pause ≡ false) where
  abbrev no_tty : Options
  no_tty = record { has_stdin = false; bindings = b; output = output; pause_on_markers = false }

  playing_round-no_tty :
      (f : Frame) (s : Playback)
      → playing_round no_tty host f s
        ≡ next_event (write output f (record s { clock_reads = s.clock_reads + 1 }))
  unfolding playing_round has_byte
  playing_round-no_tty f s = ground arith

  -- The state of such a playback.
  abbrev plain : Option Frame → List Frame → Playback → Playback
  plain current frames s = record s {
    loop = playing;
    current = current;
    rest = record { frames = frames; raises = false };
    pause_elapsed_time = none;
    ctrl_c = false;
  }

  abbrev played : Frame → Playback → Playback
  played f s = record s {
    clock_reads = s.clock_reads + 1;
    stdout = s.stdout ++ output_write output f;
  }

  run-plain :
      (frames : List Frame) (current : Option Frame) (fuel : ℕ) (s : Playback)
      → length (pending_of current frames) + 2 ≤ fuel
      → (t : Playback) × (run no_tty host fuel (plain current frames s) ≡ finished t)
  unfolding run next_event write
  run-plain frames none (suc (suc fuel)) s h = (_, refl)
  run-plain frames none zero s h = absurd (omega arith)
  run-plain frames none (suc zero) s h = absurd (omega arith)
  run-plain frames (some f) zero s h = absurd (omega arith)
  run-plain [] (some f) (suc fuel) s h =
      rw (playing_round-no_tty f (plain (some f) [] s))
        (run-plain [] none fuel (played f s) (omega arith))
  run-plain (g ∷ gs) (some f) (suc fuel) s h =
      rw (playing_round-no_tty f (plain (some f) (g ∷ gs) s))
        (run-plain gs (some g) fuel (played f s) (omega arith))

  start_finishes :
      (header : Json) (frames : List Frame) (fuel : ℕ)
      → length frames + 3 ≤ fuel
      → let events : Feed = record { frames = frames; raises = false } in
        (t : Playback) × (and_then no_tty host
            (start no_tty host header events)
            (run no_tty host fuel)
          ≡ finished t)
  unfolding start next_event run
  start_finishes header frames zero h = absurd (omega arith)
  start_finishes header [] (suc fuel) h = (_, refl)
  start_finishes header (f ∷ fs) (suc fuel) h =
      run-plain fs (some f) fuel
        (initial no_tty host header (record { frames = []; raises = false })) (omega arith)

-- A finished playback has printed all.
printed_all :
    (output : Output) (frames : List Frame) (out out' : List Printed)
    → Advances output frames out [] out'
    → out' ≡ out ++ printed output frames
printed_all output frames out out' a =
    a.shown
    ∙ ap (λ (fs : List Frame). out ++ printed output fs) (sym (a.split ∙ append-nil a.written))

-- Without a terminal, and with a pause key that is not the empty string, a recording that can be
-- read to its end is played to its end: three rounds and one for each frame are enough. Stdout has
-- then the header, if the output format has one, and what all frames print, in order.
pub play_finishes :
    (r : Request) (host : Host)
    → is_key [] r.bindings.pause ≡ false
    → (schedule r.events r.idle_time_limit r.stored_limit r.speed).raises ≡ false
    → let events = schedule r.events r.idle_time_limit r.stored_limit r.speed in
      let output = make_output r.out_fmt r.stream in
      (t : Playback) × (play r false host (length events.frames + 3) ≡ finished t)
      × (t.stdout ≡ output_start output r.header ++ printed output events.frames)
play_finishes r host set clean =
    let events = schedule r.events r.idle_time_limit r.stored_limit r.speed in
    let output = make_output r.out_fmt r.stream in
    let (t, e) = finishes in
    (
      t,
      e,
      printed_all output events.frames (output_start output r.header) t.stdout (
          subst (Shows output events.frames (output_start output r.header)) e
            (play-Shows r false host (length events.frames + 3))),
    )
  where
    finishes :
        (t : Playback) × (play r false host
            (length (schedule r.events r.idle_time_limit r.stored_limit r.speed).frames + 3)
          ≡ finished t)
    finishes =
        let events = schedule r.events r.idle_time_limit r.stored_limit r.speed in
        let o = options r false in
        let fuel = length events.frames + 3 in
        let same : record { frames = events.frames; raises = false } ≡ events =
          λ i. record { frames = events.frames; raises = sym clean i } in
        unfold play in
        subst
          (λ (feed : Feed).
            (t : Playback) × (and_then o host (start o host r.header feed) (run o host fuel)
              ≡ finished t))
          same
          (start_finishes r.bindings o.output host set r.header events.frames fuel (omega arith))
