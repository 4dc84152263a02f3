-- ===== src/Player/Shows.antt =====
-- What the player writes, whatever keys are pressed: a beginning of the scheduled frames.
pub mod Rounds
use mathlib.Core.Path.{subst}
use asciinema.Base.{
  ℕ, zero, suc, ◌+◌, if◌then◌else◌, if_rule, Bool, true, false, ◌&&◌, Option, none, some, List, [],
  ◌∷◌, ◌++◌, append-nil, append_assoc, Bytes, is_key, has_byte, ◌≡◌, refl, sym, ap, ◌∙◌, arith, ℤ,
  pos, ◌-ℤ◌, ltb_ℤ,
}
use asciinema.Asciicast.Events.{Frame, Feed}
use asciinema.Asciicast.Json.{Json}
use asciinema.Player.Defs.{
  Printed, Output, output_start, output_write, Options, Host, Loop, outer, paused, playing,
  Playback, Outcome, running, finished, interrupted, raised, is_marker, make_output,
}
use asciinema.Player.Loops.{
  next_from, next_event, write, skip_to_marker, resume, pass_marker, paused_key, playing_key,
  playing_round, round, and_then, run, start, schedule, Request, options, play, pressed, waited,
}

-- What frames print, one after the other.
abbrev pub printed : Output → List Frame → List Printed
printed output [] = []
printed output (f ∷ fs) = output_write output f ++ printed output fs

printed-append :
    (output : Output) (fs gs : List Frame)
    → printed output (fs ++ gs) ≡ printed output fs ++ printed output gs
printed-append output [] gs = refl
printed-append output (f ∷ fs) gs =
    rw (printed-append output fs gs)
      (sym (append_assoc (output_write output f) (printed output fs) (printed output gs)))

-- The frames that are still to be written.
abbrev pub pending_of : Option Frame → List Frame → List Frame
pending_of none fs = []
pending_of (some f) fs = f ∷ fs

abbrev pub pending : Playback → List Frame
pending s = pending_of s.current s.rest.frames

-- From `out` with `frames` to come, to `out'` with `left` to come: those between are printed, in
-- order, once each.
pub record Advances (output : Output) (frames : List Frame) (out : List Printed) (left : List Frame)
    (out' : List Printed) : Type 0 where
  pub written : List Frame
  pub split : frames ≡ written ++ left
  pub shown : out' ≡ out ++ printed output written

module _ (output : Output) where
  pub Advances-refl :
      (frames : List Frame) (out : List Printed) → Advances output frames out frames out
  Advances-refl frames out = record { written = []; split = refl; shown = sym (append-nil out) }

  pub Advances-trans :
      {frames left rest : List Frame} {out out' out'' : List Printed}
      → Advances output frames out left out'
      → Advances output left out' rest out''
      → Advances output frames out rest out''
  Advances-trans {rest = rest} {out = out} a b = record {
    written = a.written ++ b.written;
    split = a.split ∙ rw b.split (sym (append_assoc a.written b.written rest));
    shown =
        b.shown
        ∙ rw (a.shown, printed-append)
            (append_assoc out (printed output a.written) (printed output b.written));
  }

  pub Advances-one :
      (f : Frame) (fs : List Frame) (out : List Printed)
      → Advances output (f ∷ fs) out fs (out ++ output_write output f)
  Advances-one f fs out = record {
    written = f ∷ [];
    split = refl;
    shown = ap (λ (p : List Printed). out ++ p) (sym (append-nil (output_write output f)));
  }

  -- The same of an outcome: all frames if it is `finished`, and a beginning of them if an exception
  -- ends the playback.
  abbrev pub Shows : List Frame → List Printed → Outcome → Type 0
  Shows frames out (running t) = Advances output frames out (pending t) t.stdout
  Shows frames out (finished t) = Advances output frames out [] t.stdout
  Shows frames out (interrupted t) = Advances output frames out (pending t) t.stdout
  Shows frames out (raised t) = (left : List Frame) × Advances output frames out left t.stdout

  pub Shows-trans :
      (frames left : List Frame) (out out' : List Printed) (outcome : Outcome)
      → Advances output frames out left out'
      → Shows left out' outcome
      → Shows frames out outcome
  Shows-trans frames left out out' (running t) a b = Advances-trans a b
  Shows-trans frames left out out' (finished t) a b = Advances-trans a b
  Shows-trans frames left out out' (interrupted t) a b = Advances-trans a b
  Shows-trans frames left out out' (raised t) a (rest, b) = (rest, Advances-trans a b)

  pub next_from-Shows :
      (frames : List Frame) (raises : Bool) (s : Playback)
      → Shows frames s.stdout (next_from frames raises s)
  unfolding next_from
  next_from-Shows [] true s = ([], Advances-refl [] s.stdout)
  next_from-Shows [] false s = Advances-refl [] s.stdout
  next_from-Shows (f ∷ fs) raises s = Advances-refl (f ∷ fs) s.stdout

  -- Writing the current frame and taking the next.
  pub write_next-Shows :
      (f : Frame) (frames : List Frame) (raises : Bool) (s : Playback) (out : List Printed)
      → s.stdout ≡ out ++ output_write output f
      → Shows (f ∷ frames) out (next_from frames raises s)
  write_next-Shows f frames raises s out e =
      Shows-trans (f ∷ frames) frames out s.stdout (next_from frames raises s)
        (subst (λ p. Advances output (f ∷ frames) out frames p) (sym e) (Advances-one f frames out))
        (next_from-Shows frames raises s)

  pub still-Shows :
      (f : Frame) (frames : List Frame) (s : Playback)
      → s.current ≡ some f
      → s.rest.frames ≡ frames
      → Advances output (f ∷ frames) s.stdout (pending s) s.stdout
  still-Shows f frames s c r = rw (c, r) (Advances-refl (f ∷ frames) s.stdout)

  pub skip_to_marker-Shows :
      (f : Frame) (fs : List Frame) (raises : Bool) (s : Playback)
      → s.current ≡ some f
      → s.rest.frames ≡ fs
      → Shows (f ∷ fs) s.stdout (skip_to_marker output f fs raises s)
  unfolding skip_to_marker
  skip_to_marker-Shows f [] raises s c r =
      if_rule (Shows (f ∷ []) s.stdout) (is_marker f) (running s) _ (λ _. still-Shows f [] s c r)
        (λ _. write_next-Shows f [] raises (write output f s) s.stdout refl)
  skip_to_marker-Shows f (g ∷ gs) raises s c r =
      let next : Playback = record (write output f s) {
        current = some g;
        rest = record { frames = gs; raises = raises };
      } in
      if_rule (Shows (f ∷ g ∷ gs) s.stdout) (is_marker f) (running s)
        (skip_to_marker output g gs raises next) (λ _. still-Shows f (g ∷ gs) s c r)
        (λ _.
          Shows-trans (f ∷ g ∷ gs) (g ∷ gs) s.stdout next.stdout
            (skip_to_marker output g gs raises next) (Advances-one f (g ∷ gs) s.stdout)
            (skip_to_marker-Shows g gs raises next refl refl))
