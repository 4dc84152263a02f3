-- ===== src/Recorder/Processes/Schedules.antt =====
-- asciinema/async_worker.py: whatever the schedule, the worker does what it does with the whole queue.
use asciinema.Base.{
  ℕ, ◌+◌, ◌*◌, ◌≤◌, Option, none, some, List, [], ◌∷◌, ◌++◌, append_assoc, length, length-append, ℤ,
  ◌≡◌, refl, sym, ap, ◌∙◌, arith,
}
use asciinema.Pty.Defs.{Entry}
use asciinema.FileWriter.{Result, ok, io_error, other_error}
use asciinema.Recorder.Worker.{Writer, Worker, done, failed, crashed, drain, perform, consume, run}
use asciinema.Recorder.Processes.{
  Phase, entering, consuming, finished, gave_up, died, System, put, entered, performed, work, Step,
  puts, works, Steps, here, next,
}

-- How many steps are left at most: two for each message to be put, one for each in the queue, and
-- one for entering the writer.
abbrev pub entering_left : {S : Type 0} → Phase S → ℕ
entering_left entering = 1
entering_left (consuming s) = 0
entering_left (Phase.draining s) = 0
entering_left (finished s) = 0
entering_left (gave_up s) = 0
entering_left (died s) = 0

abbrev pub left : {S : Type 0} → System S → ℕ
left s = 2 * length s.unsent + length s.queue + entering_left s.phase

put-left :
    {S : Type 0} (messages : List (Option Entry)) (s t : System S)
    → s.unsent ≡ messages
    → put messages s ≡ some t
    → left t + 1 ≤ left s
unfolding put
put-left [] s t e h = cc
put-left (m ∷ ms) s t e h = ground (arith, length-append s.queue (m ∷ []), ap length e)

module _ (w : Writer) (offset : ℤ) where
  open w use {State, enter, exit}

  phase_left :
      (r : Result State)
      → (entering_left (entered w offset r) ≡ 0) × (entering_left (performed w offset r) ≡ 0)
  unfolding entered performed
  phase_left (ok s) = (refl, refl)
  phase_left (io_error s) = (refl, refl)
  phase_left (other_error s) = (refl, refl)

  work-left :
      (p : Phase State) (queue : List (Option Entry)) (s t : System State)
      → s.phase ≡ p
      → s.queue ≡ queue
      → work w offset p queue s ≡ some t
      → left t + 1 ≤ left s
  unfolding work
  work-left entering queue s t e f h = ground (arith, (phase_left enter).0, ap entering_left e)
  work-left (consuming c) [] s t e f h = cc
  work-left (consuming c) (none ∷ queue) s t e f h = ground (arith, ap length f)
  work-left (consuming c) (some event ∷ queue) s t e f h =
      ground (arith, ap length f, (phase_left (perform w offset event c)).1)
  work-left (Phase.draining c) [] s t e f h = cc
  work-left (Phase.draining c) (none ∷ queue) s t e f h = ground (arith, ap length f)
  work-left (Phase.draining c) (some event ∷ queue) s t e f h = ground (arith, ap length f)
  work-left (finished c) queue s t e f h = cc
  work-left (gave_up c) queue s t e f h = cc
  work-left (died c) queue s t e f h = cc

  Step-left : {s t : System State} → Step w offset s t → left t + 1 ≤ left s
  Step-left {s} {t} (puts h) = put-left s.unsent s t refl h
  Step-left {s} {t} (works h) = work-left s.phase s.queue s t refl refl h

  pub Steps-left : {s t : System State} {n : ℕ} → Steps w offset s n t → n + left t ≤ left s
  Steps-left here = omega arith
  Steps-left (next r st) = omega (arith, Steps-left r, Step-left st)

  -- What becomes of the worker, given the messages that are still to come.
  abbrev pub becomes : Phase State → List (Option Entry) → Worker State
  becomes entering messages = run w offset messages
  becomes (consuming s) messages = consume w offset messages s
  becomes (Phase.draining s) messages = drain messages s
  becomes (finished s) messages = done s messages
  becomes (gave_up s) messages = failed s messages
  becomes (died s) messages = crashed s

  abbrev pub fate : System State → Worker State
  fate s = becomes s.phase (s.queue ++ s.unsent)

  entered-becomes :
      (r : Result State) (messages : List (Option Entry))
      → becomes (entered w offset r) messages ≡ elim r [
        | ok s ↦ consume w offset messages s
        | io_error s ↦ drain messages s
        | other_error s ↦ crashed s
      ]
  unfolding entered
  entered-becomes (ok s) messages = refl
  entered-becomes (io_error s) messages = refl
  entered-becomes (other_error s) messages = refl

  performed-becomes :
      (r : Result State) (messages : List (Option Entry))
      → becomes (performed w offset r) messages ≡ elim r [
        | ok s ↦ consume w offset messages s
        | io_error s ↦ drain messages (exit s)
        | other_error s ↦ crashed (exit s)
      ]
  unfolding performed
  performed-becomes (ok s) messages = refl
  performed-becomes (io_error s) messages = refl
  performed-becomes (other_error s) messages = refl

  abbrev or_self : System State → Option (System State) → System State
  or_self s none = s
  or_self s (some t) = t

  put-fate :
      (messages : List (Option Entry)) (s t : System State)
      → s.unsent ≡ messages
      → put messages s ≡ some t
      → fate t ≡ fate s
  unfolding put
  put-fate [] s t e h = cc
  put-fate (m ∷ ms) s t e h =
      ap (λ o. fate (or_self s o)) (sym h)
      ∙ ap (becomes s.phase) (append_assoc s.queue (m ∷ []) ms)
      ∙ ap (λ u. becomes s.phase (s.queue ++ u)) (sym e)

  work-fate :
      (p : Phase State) (queue : List (Option Entry)) (s t : System State)
      → s.phase ≡ p
      → s.queue ≡ queue
      → work w offset p queue s ≡ some t
      → fate t ≡ becomes p (queue ++ s.unsent)
  unfolding work run consume drain
  work-fate entering queue s t e f h =
      ap (λ o. fate (or_self s o)) (sym h)
      ∙ ap (λ q. becomes (entered w offset enter) (q ++ s.unsent)) f
      ∙ entered-becomes enter (queue ++ s.unsent)
  work-fate (consuming c) [] s t e f h = cc
  work-fate (consuming c) (none ∷ queue) s t e f h = ap (λ o. fate (or_self s o)) (sym h)
  work-fate (consuming c) (some event ∷ queue) s t e f h =
      ap (λ o. fate (or_self s o)) (sym h)
      ∙ performed-becomes (perform w offset event c) (queue ++ s.unsent)
  work-fate (Phase.draining c) [] s t e f h = cc
  work-fate (Phase.draining c) (none ∷ queue) s t e f h = ap (λ o. fate (or_self s o)) (sym h)
  work-fate (Phase.draining c) (some event ∷ queue) s t e f h =
      ap (λ o. fate (or_self s o)) (sym h) ∙ ap (λ q. becomes q (queue ++ s.unsent)) e
  work-fate (finished c) queue s t e f h = cc
  work-fate (gave_up c) queue s t e f h = cc
  work-fate (died c) queue s t e f h = cc

  Step-fate : {s t : System State} → Step w offset s t → fate t ≡ fate s
  Step-fate {s} {t} (puts h) = put-fate s.unsent s t refl h
  Step-fate {s} {t} (works h) = work-fate s.phase s.queue s t refl refl h

  pub Steps-fate : {s t : System State} {n : ℕ} → Steps w offset s n t → fate t ≡ fate s
  Steps-fate here = refl
  Steps-fate (next r st) = Step-fate st ∙ Steps-fate r

  -- No step is possible.
  abbrev pub IsStuck : System State → Type 0
  IsStuck s = (t : System State) → Step w offset s t → ⊥

  pub put-unsent :
      (messages : List (Option Entry)) (s : System State)
      → ((t : System State) → put messages s ≡ some t → ⊥)
      → messages ≡ []
  unfolding put
  put-unsent [] s h = refl
  put-unsent (m ∷ ms) s h = absurd (h _ refl)
