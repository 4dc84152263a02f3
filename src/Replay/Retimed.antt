-- ===== src/Replay/Retimed.antt =====
-- asciinema/asciicast/events.py: the passes before a playback change nothing but times.
use asciinema.Base.{
  if_rule, false, Option, none, some, List, [], ◌∷◌, ◌++◌, map, append_assoc, length, Text, ℤ, ◌+ℤ◌,
  pos, truthy_time, ◌≡◌, refl, sym, ◌∙◌, arith,
}
use asciinema.Asciicast.Events.{
  Frame, Feed, Speed, to_relative_from, to_relative_time, to_absolute_from, to_absolute_time,
  cap_frame, cap_relative_time, divide_frame, adjust_frames, adjust_speed, is_zero_speed, compress,
}
use asciinema.Player.Defs.{
  Printed, raw_text, header_line, event_line, raw_output, output_write, takes, print_frame,
}
use asciinema.Player.Loops.{schedule, or_limit}
use asciinema.Player.Shows.{printed}

abbrev pub printed_text : List Printed → Text
printed_text [] = []
printed_text (raw_text t ∷ ps) = t ++ printed_text ps
printed_text (header_line h ∷ ps) = printed_text ps
printed_text (event_line time code text ∷ ps) = printed_text ps

pub printed_text-append :
    (ps qs : List Printed) → printed_text (ps ++ qs) ≡ printed_text ps ++ printed_text qs
printed_text-append [] qs = refl
printed_text-append (raw_text t ∷ ps) qs =
    rw (printed_text-append ps qs) (sym (append_assoc t (printed_text ps) (printed_text qs)))
printed_text-append (header_line h ∷ ps) qs = printed_text-append ps qs
printed_text-append (event_line time code text ∷ ps) qs = printed_text-append ps qs

-- Two lists of frames that differ in their times at most.
abbrev pub Retimed : List Frame → List Frame → Type 0
Retimed [] [] = Unit
Retimed (f ∷ fs) (g ∷ gs) = (f.code ≡ g.code) × ((f.text ≡ g.text) × Retimed fs gs)
Retimed _ _ = ⊥

Retimed-trans : (fs gs hs : List Frame) → Retimed fs gs → Retimed gs hs → Retimed fs hs
Retimed-trans [] [] [] a b = tt
Retimed-trans (f ∷ fs) (g ∷ gs) (h ∷ hs) (c, (t, a)) (d, (u, b)) =
    (c ∙ d, (t ∙ u, Retimed-trans fs gs hs a b))
Retimed-trans [] [] (h ∷ hs) a b = elim b [ ]
Retimed-trans [] (g ∷ gs) hs a b = elim a [ ]
Retimed-trans (f ∷ fs) [] hs a b = elim a [ ]
Retimed-trans (f ∷ fs) (g ∷ gs) [] a b = elim b [ ]

pub Retimed-length : (fs gs : List Frame) → Retimed fs gs → length fs ≡ length gs
Retimed-length [] [] a = refl
Retimed-length (f ∷ fs) (g ∷ gs) (c, (t, a)) = omega (arith, Retimed-length fs gs a)
Retimed-length [] (g ∷ gs) a = elim a [ ]
Retimed-length (f ∷ fs) [] a = elim a [ ]

pub Retimed-printed :
    (stream : Text) (fs gs : List Frame)
    → Retimed fs gs
    → printed (raw_output stream) fs ≡ printed (raw_output stream) gs
unfolding output_write takes print_frame
Retimed-printed stream [] [] a = refl
Retimed-printed stream (f ∷ fs) (g ∷ gs) (c, (t, a)) =
    rw (c, t, Retimed-printed stream fs gs a) refl
Retimed-printed stream [] (g ∷ gs) a = elim a [ ]
Retimed-printed stream (f ∷ fs) [] a = elim a [ ]

Retimed-map :
    (h : Frame → Frame)
    → ((f : Frame) → ((h f).code ≡ f.code) × ((h f).text ≡ f.text))
    → (fs : List Frame) → Retimed (map h fs) fs
Retimed-map h same [] = tt
Retimed-map h same (f ∷ fs) = ((same f).0, ((same f).1, Retimed-map h same fs))

to_relative-Retimed : (prev : ℤ) (fs : List Frame) → Retimed (to_relative_from prev fs) fs
unfolding to_relative_from
to_relative-Retimed prev [] = tt
to_relative-Retimed prev (f ∷ fs) = (refl, (refl, to_relative-Retimed f.time fs))

to_absolute-Retimed : (time : ℤ) (fs : List Frame) → Retimed (to_absolute_from time fs) fs
unfolding to_absolute_from
to_absolute-Retimed time [] = tt
to_absolute-Retimed time (f ∷ fs) = (refl, (refl, to_absolute-Retimed (time +ℤ f.time) fs))

-- The frames of a feed change in their times only, and it raises no more than before.
abbrev SameFrames : Feed → Feed → Type 0
SameFrames events before = Retimed events.frames before.frames × (events.raises ≡ before.raises)

Retimed-refl : (fs : List Frame) → Retimed fs fs
Retimed-refl [] = tt
Retimed-refl (f ∷ fs) = (refl, (refl, Retimed-refl fs))

cap-SameFrames :
    (events : Feed) (time_limit : Option ℤ)
    → SameFrames (cap_relative_time events time_limit) events
unfolding cap_relative_time cap_frame
cap-SameFrames events none = (Retimed-refl events.frames, refl)
cap-SameFrames events (some l) =
    if_rule (λ e. SameFrames e events) (truthy_time (some l)) _ events
      (λ t. (Retimed-map (cap_frame l) (λ f. (refl, refl)) events.frames, refl))
      (λ t. (Retimed-refl events.frames, refl))

compress-SameFrames :
    (events : Feed) (time_limit : Option ℤ) → SameFrames (compress events time_limit) events
unfolding compress to_relative_time to_absolute_time
compress-SameFrames events time_limit =
    let relative = to_relative_time events in
    let capped = cap_relative_time relative time_limit in
    let (same, clean) = cap-SameFrames relative time_limit in
    (
      Retimed-trans (to_absolute_from (pos 0) capped.frames) capped.frames events.frames
          (to_absolute-Retimed (pos 0) capped.frames)
          (Retimed-trans capped.frames relative.frames events.frames same
            (to_relative-Retimed (pos 0) events.frames)),
      clean,
    )

pub schedule-SameFrames :
    (events : Feed) (given stored : Option ℤ) (speed : Speed)
    → is_zero_speed speed ≡ false
    → SameFrames (schedule events given stored speed) events
unfolding schedule adjust_speed adjust_frames divide_frame
schedule-SameFrames events given stored speed h =
    let before = compress events (or_limit given stored) in
    let (same, clean) = compress-SameFrames events (or_limit given stored) in
    rw h (
      Retimed-trans (map (divide_frame speed) before.frames) before.frames events.frames
          (Retimed-map (divide_frame speed) (λ f. (refl, refl)) before.frames) same,
      clean,
    )
