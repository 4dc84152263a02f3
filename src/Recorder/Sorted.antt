-- ===== src/Recorder/Sorted.antt =====
-- asciinema/recorder.py: the times of the output in a file, and that they are in order.
use asciinema.Base.{
  if◌then◌else◌, Bool, true, false, List, [], ◌∷◌, ◌++◌, append_assoc, map, ℤ, ◌+ℤ◌, ◌≤ℤ◌, int_laws,
  bytes_eq, ◌≡◌, refl, sym, ap, arith,
}
use asciinema.Pty.Defs.{Entry, stdin, stdout, marker, resize}
use asciinema.Pty.Rising.{Rising}
use asciinema.Asciicast.Json.{Json, float, arr, str, cons}
use asciinema.Asciicast.V2.Writer.{event_json, round_time}
use asciinema.Utf8.{Decoder, decode}
use asciinema.Recorder.Worker.{enqueue, enqueue_all}
use asciinema.Recorder.Lines.{line, lines, next_in, next_out}
use asciinema.Recorder.Times.{round_time_mono}

-- The times of the lines of output.
unfoldable pub time_of_line : Json → List ℤ
unfolding bytes_eq
time_of_line (arr (cons (float t) (cons (str etype) rest))) =
    if bytes_eq etype (b'o' ∷ []) then t ∷ [] else []
time_of_line _ = []

unfoldable pub output_times : List Json → List ℤ
unfolding time_of_line
output_times [] = []
output_times (l ∷ ls) = time_of_line l ++ output_times ls

-- They never fall, and start at `low` or above.
abbrev pub Sorted : ℤ → List ℤ → Type 0
Sorted low [] = Unit
Sorted low (t ∷ ts) = (low ≤ℤ t) × Sorted t ts

abbrev pub final : ℤ → List ℤ → ℤ
final low [] = low
final low (t ∷ ts) = final t ts

pub Sorted-append :
    (low : ℤ) (ts us : List ℤ) → Sorted low ts → Sorted (final low ts) us → Sorted low (ts ++ us)
Sorted-append low [] us h k = k
Sorted-append low (t ∷ ts) us (l, h) k = (l, Sorted-append t ts us h k)

pub Sorted-front : (low : ℤ) (ts us : List ℤ) → Sorted low (ts ++ us) → Sorted low ts
Sorted-front low [] us h = tt
Sorted-front low (t ∷ ts) us (l, h) = (l, Sorted-front t ts us h)

pub Sorted-lower : (low low' : ℤ) (ts : List ℤ) → low ≤ℤ low' → Sorted low' ts → Sorted low ts
Sorted-lower low low' [] le h = tt
Sorted-lower low low' (t ∷ ts) le (l, h) = (omega arith, h)

pub output_times-append :
    (xs ys : List Json) → output_times (xs ++ ys) ≡ output_times xs ++ output_times ys
unfolding output_times
output_times-append [] ys = refl
output_times-append (x ∷ xs) ys =
    rw (output_times-append xs ys)
      (sym (append_assoc (time_of_line x) (output_times xs) (output_times ys)))

-- The times of the output among the events.
abbrev pub event_times : List Entry → List ℤ
event_times [] = []
event_times (stdout ts bytes ∷ es) = ts ∷ event_times es
event_times (_ ∷ es) = event_times es

pub Rising-Sorted :
    (low high : ℤ) (es : List Entry) → Rising low high es → Sorted low (event_times es)
Rising-Sorted low high [] h = tt
Rising-Sorted low high (stdout t b ∷ es) (l, h) = (l, Rising-Sorted t high es h)
Rising-Sorted low high (stdin t b ∷ es) (l, h) =
    Sorted-lower low t (event_times es) l (Rising-Sorted t high es h)
Rising-Sorted low high (marker t ∷ es) h = Rising-Sorted low high es h
Rising-Sorted low high (resize t z ∷ es) h = Rising-Sorted low high es h

pub event_times-enqueue_all :
    (record_stdin : Bool) (es : List Entry)
    → event_times (enqueue_all record_stdin es) ≡ event_times es
unfolding enqueue_all enqueue
event_times-enqueue_all record_stdin [] = refl
event_times-enqueue_all record_stdin (stdout ts bytes ∷ es) =
    ap (λ (t : List ℤ). ts ∷ t) (event_times-enqueue_all record_stdin es)
event_times-enqueue_all true (stdin ts bytes ∷ es) = event_times-enqueue_all true es
event_times-enqueue_all false (stdin ts bytes ∷ es) = event_times-enqueue_all false es
event_times-enqueue_all record_stdin (marker ts ∷ es) = event_times-enqueue_all record_stdin es
event_times-enqueue_all record_stdin (resize ts size ∷ es) = event_times-enqueue_all record_stdin es

-- The times in the file: with the offset, and rounded.
abbrev pub stamped : ℤ → List ℤ → List ℤ
stamped offset = map (λ t. round_time (offset +ℤ t))

pub lines-times :
    (offset : ℤ) (i o : Decoder) (es : List Entry)
    → output_times (lines offset i o es) ≡ stamped offset (event_times es)
unfolding output_times time_of_line lines line event_json next_in next_out bytes_eq
lines-times offset i o [] = refl
lines-times offset i o (stdout ts bytes ∷ es) =
    ap (λ (t : List ℤ). round_time (offset +ℤ ts) ∷ t)
      (lines-times offset i (decode o bytes).decoder es)
lines-times offset i o (stdin ts bytes ∷ es) = lines-times offset (decode i bytes).decoder o es
lines-times offset i o (marker ts ∷ es) = lines-times offset i o es
lines-times offset i o (resize ts size ∷ es) = lines-times offset i o es

pub stamped-Sorted :
    (offset low : ℤ) (ts : List ℤ)
    → Sorted low ts
    → Sorted (round_time (offset +ℤ low)) (stamped offset ts)
stamped-Sorted offset low [] h = tt
stamped-Sorted offset low (t ∷ ts) (l, h) =
    (round_time_mono (offset +ℤ low) (offset +ℤ t) (omega int_laws), stamped-Sorted offset t ts h)
