-- ===== src/Recorder/Processes/Ends.antt =====
-- asciinema/async_worker.py with the writer of version 2: every schedule ends, and how.
use mathlib.Core.Path.{subst}
use asciinema.Base.{
  ℕ, ◌+◌, ◌*◌, ◌≤◌, ◌<◌, true, false, Option, none, some, List, [], ◌∷◌, ◌++◌, take, append-nil,
  length, ℤ, ◌≡◌, ◌≢◌, ◌⊎◌, inl, inr, refl, sym, ap, ◌∙◌, arith,
}
use asciinema.Pty.Defs.{Entry}
use asciinema.Asciicast.Json.{Json, Fields, obj}
use asciinema.Asciicast.V2.Writer as V2
use asciinema.Asciicast.V2.Writer.{can_encode}
use asciinema.FileWriter.{Disk}
use asciinema.Recorder.Worker.{Writer, consume, drain, v2_writer}
use asciinema.Recorder.Lines.{Written, Ended, Untouched, kept, run_lines, run-Written, queue_of}
use asciinema.Recorder.Processes.{
  Phase, entering, consuming, finished, gave_up, died, System, work, puts, works, Steps, joined,
  started,
}
use asciinema.Recorder.Processes.Schedules.{
  Steps-left, becomes, fate, Steps-fate, IsStuck, put-unsent,
}

-- The worker has ended without an exception: it has written all lines behind what the file held,
-- and has closed it; or a write has failed, the lines before it are there, no other is whole, and
-- the failure was reported once.
abbrev pub Saved : List Json → List Json → Phase V2.Writer → Type 0
Saved old new (finished w) =
    (w.file.content ≡ old ++ new) × ((w.file.is_open ≡ false) × (w.file.errors ≡ []))
Saved old new (gave_up w) =
    (w.file.errors ≡ "Write error, recording suspended" ∷ [])
    × ((k : ℕ) × ((k < length new) × (w.file.content ≡ old ++ take k new)))
Saved old new _ = ⊥

-- Nothing has been written: the file could not be opened, and the recorder joins the worker without
-- an error; or the header cannot be encoded, and it raises a `RuntimeError`.
abbrev pub Spared : Disk → Option Fields → List Json → System V2.Writer → Phase V2.Writer → Type 0
Spared disk header old s (gave_up w) =
    (disk.opens ≡ false) × ((s.queue ≡ []) × ((w.file.errors ≡ []) × (w.file.content ≡ old)))
Spared disk (some h) old s (died w) =
    (can_encode (obj h) ≡ false) × ((w.file.errors ≡ []) × (w.file.content ≡ old))
Spared disk header old s _ = ⊥

-- All messages are put, and either they are taken, the recorder can join the worker without an error,
-- and the file is saved; or nothing was written.
abbrev pub IsOver : Disk → Option Fields → List Json → List Json → System V2.Writer → Type 0
IsOver disk header old new s =
    (s.unsent ≡ [])
    × (((s.queue ≡ []) × ((joined s.phase ≡ some true) × Saved old new s.phase))
        ⊎ ((joined s.phase ≢ none) × Spared disk header old s s.phase))

module _ (disk : Disk) (header : Option Fields) (old : List Json) (offset : ℤ) where
  abbrev writer : Writer
  writer = v2_writer disk header old

  stuck-Saved :
      (p : Phase V2.Writer) (queue : List (Option Entry)) (s : System V2.Writer)
      (before new : List Json)
      → ((t : System V2.Writer) → work writer offset p queue s ≡ some t → ⊥)
      → Written before new (becomes writer offset p queue)
      → (queue ≡ []) × ((joined p ≡ some true) × Saved before new p)
  unfolding work joined consume drain
  stuck-Saved entering queue s before new h k = absurd (h _ refl)
  stuck-Saved (consuming c) [] s before new h k = absurd k
  stuck-Saved (consuming c) (none ∷ queue) s before new h k = absurd (h _ refl)
  stuck-Saved (consuming c) (some event ∷ queue) s before new h k = absurd (h _ refl)
  stuck-Saved (Phase.draining c) [] s before new h k = absurd k
  stuck-Saved (Phase.draining c) (none ∷ queue) s before new h k = absurd (h _ refl)
  stuck-Saved (Phase.draining c) (some event ∷ queue) s before new h k = absurd (h _ refl)
  stuck-Saved (finished c) queue s before new h (e, (q, k)) = (q, (refl, (e, k)))
  stuck-Saved (gave_up c) queue s before new h (q, k) = (q, (refl, k))
  stuck-Saved (died c) queue s before new h k = absurd k

  stuck-Spared :
      (p : Phase V2.Writer) (queue : List (Option Entry)) (h : Option Fields) (s : System V2.Writer)
      (before : List Json)
      → s.queue ≡ queue
      → ((t : System V2.Writer) → work writer offset p queue s ≡ some t → ⊥)
      → Untouched disk h before (becomes writer offset p queue)
      → (joined p ≢ none) × Spared disk h before s p
  unfolding work joined consume drain
  stuck-Spared entering queue _ s before e h k = absurd (h _ refl)
  stuck-Spared (consuming c) [] _ s before e h k = absurd k
  stuck-Spared (consuming c) (none ∷ queue) _ s before e h k = absurd (h _ refl)
  stuck-Spared (consuming c) (some event ∷ queue) _ s before e h k = absurd (h _ refl)
  stuck-Spared (Phase.draining c) [] _ s before e h k = absurd k
  stuck-Spared (Phase.draining c) (none ∷ queue) _ s before e h k = absurd (h _ refl)
  stuck-Spared (Phase.draining c) (some event ∷ queue) _ s before e h k = absurd (h _ refl)
  stuck-Spared (finished c) queue _ s before e h k = absurd k
  stuck-Spared (gave_up c) queue _ s before e h (o, (q, k)) = ((λ n. cc), (o, (e ∙ q, k)))
  stuck-Spared (died c) queue none s before e h k = absurd k
  stuck-Spared (died c) queue (some f) s before e h k = ((λ n. cc), k)

  over :
      (s : System V2.Writer) (before new : List Json)
      → IsStuck writer offset s
      → Ended disk header before new (fate writer offset s)
      → IsOver disk header before new s
  over s before new stuck k =
      let e : s.unsent ≡ [] = put-unsent writer offset s.unsent s (λ t h. stuck t (puts h)) in
      let ended : Ended disk header before new (becomes writer offset s.phase s.queue) =
        subst (λ q. Ended disk header before new (becomes writer offset s.phase q))
          (ap (λ u. s.queue ++ u) e ∙ append-nil s.queue) k in
      (
        e,
        elim ended [
          | inl w ↦ inl (stuck-Saved s.phase s.queue s before new (λ t h. stuck t (works h)) w)
          | inr u ↦
              inr (stuck-Spared s.phase s.queue header s before refl (λ t h. stuck t (works h)) u)
        ],
      )

-- Whatever the order in which the recorder puts messages and the worker takes them: an execution
-- that cannot go on has put all messages, and the worker has ended. If the file could be opened and
-- the header encoded, all messages are taken and the recorder joins the worker without an error; and
-- the file holds, behind what it held before, the header if there is one and a line for each event,
-- in order, and is closed, or a proper beginning of that where a write failed. If it could not be
-- opened, all are taken too, and nothing is written and nothing reported; if the header has a
-- surrogate in it, an exception has ended the worker, and nothing is written.
pub schedule-IsOver :
    (disk : Disk) (header : Option Fields) (old : List Json) (offset : ℤ) (es : List Entry) (n : ℕ)
    (s : System V2.Writer)
    → Steps (v2_writer disk header old) offset (started (queue_of es)) n s
    → IsStuck (v2_writer disk header old) offset s
    → IsOver disk header (kept header old) (run_lines header offset es) s
unfolding started
schedule-IsOver disk header old offset es n s r stuck =
    over disk header old offset s (kept header old) (run_lines header offset es) stuck (
      subst (Ended disk header (kept header old) (run_lines header offset es))
        (sym (Steps-fate (v2_writer disk header old) offset r))
        (run-Written disk header old offset es))

length-queue_of : (es : List Entry) → length (queue_of es) ≡ length es + 1
length-queue_of [] = refl
length-queue_of (e ∷ es) = omega (arith, length-queue_of es)

-- No execution goes on for ever, whichever writer is used and whatever it raises: it has at most two
-- steps for each event and three more.
pub schedule_bound :
    (w : Writer) (offset : ℤ) (es : List Entry) (n : ℕ) (s : System w.State)
    → Steps w offset (started (queue_of es)) n s
    → n ≤ 2 * length es + 3
unfolding started
schedule_bound w offset es n s r = omega (arith, Steps-left w offset r, length-queue_of es)
