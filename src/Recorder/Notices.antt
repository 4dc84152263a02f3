-- ===== src/Recorder/Notices.antt =====
-- asciinema/recorder.py: the texts of the recording loop and of the writer, as `async_notifier` tells
-- them to the user.
use mathlib.Core.Path.{subst}
use asciinema.Base.{
  inl, inr, ◌⊎◌, ℕ, ◌+◌, length, arith, Bool, true, Option, none, some, List, [], ◌∷◌, ◌++◌,
  append_assoc, append-nil, map, String, ℤ, ◌≡◌, refl, sym, ap, Option-cases, inl, inr,
}
use asciinema.Asciicast.Json.{Fields, Json}
use asciinema.Asciicast.V2.Writer as V2
use asciinema.FileWriter.{Disk}
use asciinema.Pty.Defs.{Keys, Host, session_of}
use asciinema.Pty.Copy.{Selected, record_session}
use asciinema.Recorder.Worker.{Worker, done, failed, waiting, draining, crashed, enqueue_all}
use asciinema.Recorder.Lines.{Ended, Untouched-rule, Written, kept, run_lines, run-Written}
use asciinema.Recorder.Whole.{recorded_events, record_with}
use asciinema.Recorder.Notifier.{
  Raised, Turn, got, Ran, finished, joined, Notified, silent, returned, notify, perform, run,
  told_of, run_notifier,
}

-- What two processes put into one queue: all that either puts, in its order.
pub data Shuffle {A : Type 0} : List A → List A → List A → Type 0 where
  empty : Shuffle [] [] []
  first : {x : A} {xs ys zs : List A} → Shuffle xs ys zs → Shuffle (x ∷ xs) ys (x ∷ zs)
  second : {y : A} {xs ys zs : List A} → Shuffle xs ys zs → Shuffle xs (y ∷ ys) (y ∷ zs)

-- The queue that `__exit__` ends with `None`.
abbrev pub turns_of : List String → List (Turn String)
turns_of texts = map (λ t. got (some t)) texts ++ got none ∷ []

Shuffle-nil : {A : Type 0} {xs zs : List A} → Shuffle xs [] zs → zs ≡ xs
Shuffle-nil empty = refl
Shuffle-nil (first {x = x} h) = ap (λ t. x ∷ t) (Shuffle-nil h)

-- What the writer of such a worker has put into the notifier's queue, with `on_error`.
unfoldable pub reported : Worker V2.Writer → List String
reported (done w queue) = w.file.errors
reported (failed w queue) = w.file.errors
reported (waiting w) = w.file.errors
reported (draining w) = w.file.errors
reported (crashed w) = w.file.errors

-- Where a single element of the other list stands.
abbrev pub Inserted : {A : Type 0} → A → List A → List A → Type 0
Inserted {A} y xs zs = (before after : List A) × (zs ≡ before ++ y ∷ after) × (before ++ after ≡ xs)

Shuffle-one : {A : Type 0} {y : A} {xs zs : List A} → Shuffle xs (y ∷ []) zs → Inserted y xs zs
Shuffle-one {A} {y} (first {x = x} h) =
    let (b, a, e, k) = Shuffle-one h in (x ∷ b, a, ap (λ t. x ∷ t) e, ap (λ t. x ∷ t) k)
Shuffle-one (second {zs = zs} h) = ([], zs, refl, Shuffle-nil h)

module _ (raises : ℕ → Option Raised) where
  abbrev told_next : String → Notified → Notified
  told_next t s = record s { told = s.told ++ t ∷ []; calls = s.calls + 1 }

  -- Whatever `notify` raises is caught.
  perform-returned : (t : String) (s : Notified) → perform raises t s ≡ returned (told_next t s)
  unfolding perform notify
  perform-returned t s = elim (Option-cases (raises s.calls)) [
    | inl e ↦ rw (e, perform) refl
    | inr (r, e) ↦ rw (e, perform) refl
  ]

  same :
      {s t : List String} {m n : ℕ}
      → s ≡ t
      → m ≡ n
      → ◌≡◌ {A = Ran String Notified}
          (finished (record { told = s; calls = m }) [])
          (finished (record { told = t; calls = n }) [])
  same e h = rw (e, h) refl

  run_told :
      (texts : List String) (s : Notified)
      → run (perform raises) (turns_of texts) s
        ≡ finished (record { told = s.told ++ texts; calls = s.calls + length texts }) []
  unfolding run
  run_told [] s = same (sym (append-nil s.told)) (omega arith)
  run_told (t ∷ ts) s =
      rw (run, perform-returned t s, run_told ts (told_next t s))
        (same (append_assoc s.told (t ∷ []) ts) (omega arith))

-- The texts that the user was told, against those of the recording loop, when the writer's process
-- ended so.
abbrev pub IsTold : List String → Worker V2.Writer → List String → Type 0
IsTold notices (done w queue) told = told ≡ notices
IsTold notices (failed w queue) told =
    (w.file.errors ≡ "Write error, recording suspended" ∷ []
      × Inserted "Write error, recording suspended" notices told)
    ⊎ ((w.file.errors ≡ []) × (told ≡ notices))
IsTold notices (crashed w) told = told ≡ notices
IsTold notices _ told = ⊥

Written-IsTold :
    (notices texts : List String) (old new : List Json) (r : Worker V2.Writer)
    → Written old new r
    → Shuffle notices (reported r) texts
    → IsTold notices r texts
unfolding reported
Written-IsTold notices texts old new (done w queue) h k =
    Shuffle-nil (subst (λ e. Shuffle notices e texts) h.1.1.1 k)
Written-IsTold notices texts old new (failed w queue) h k =
    inl (h.1.0, Shuffle-one (subst (λ e. Shuffle notices e texts) h.1.0 k))
Written-IsTold notices texts old new (waiting w) h k = elim h [ ]
Written-IsTold notices texts old new (draining w) h k = elim h [ ]
Written-IsTold notices texts old new (crashed w) h k = elim h [ ]

Ended-IsTold :
    (notices texts : List String) (disk : Disk) (header : Option Fields) (old new : List Json)
    (r : Worker V2.Writer)
    → Ended disk header old new r
    → Shuffle notices (reported r) texts
    → IsTold notices r texts
unfolding reported
Ended-IsTold notices texts disk header old new r (inl h) k =
    Written-IsTold notices texts old new r h k
Ended-IsTold notices texts disk header old new r (inr u) k =
    Untouched-rule (λ r. Shuffle notices (reported r) texts → IsTold notices r texts) disk header
      old r (λ w queue c e k. inr (e, Shuffle-nil (subst (λ e. Shuffle notices e texts) e k)))
      (λ w c e k. Shuffle-nil (subst (λ e. Shuffle notices e texts) e k)) u k

-- The texts of the recording loop and of the writer come into the notifier's queue in any order that
-- keeps that of each, and `None` ends it. Whatever `notify` raises for any of them, the notifier's
-- process ends without an error and has told all of them, in the order of the queue. If the worker
-- has ended without an error, they are the loop's texts; if a write failed, they are these with the
-- report of the failure once among them. A file that cannot be opened and a header that cannot be
-- encoded are not told.
pub run_notifier-IsTold :
    (raises : ℕ → Option Raised) (disk : Disk) (header : Option Fields) (old : List Json)
    (offset : ℤ) (record_stdin : Bool) (host : Host) (keys : Keys) (rounds : List Selected)
    (texts : List String)
    → let notices = (session_of (record_session host keys rounds)).notices in
      let r = record_with disk header old offset record_stdin host keys rounds in
      Shuffle notices (reported r) texts
      → (joined (run_notifier raises (turns_of texts)) ≡ some true)
        × (told_of (run_notifier raises (turns_of texts)) ≡ texts)
        × IsTold notices r texts
unfolding run_notifier joined told_of record_with
run_notifier-IsTold raises disk header old offset record_stdin host keys rounds texts h =
    rw (run_told raises texts silent) (
      refl,
      refl,
      Ended-IsTold _ texts disk header (kept header old)
          (run_lines header offset (enqueue_all record_stdin (recorded_events host keys rounds))) _
          (run-Written disk header old offset
            (enqueue_all record_stdin (recorded_events host keys rounds)))
          h,
    )
