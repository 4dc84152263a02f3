-- ===== src/Commands/Cat/Again.antt =====
-- asciinema/commands/cat.py, where a write fails while the terminal is open.
use asciinema.Base.{
  ℕ, zero, suc, ◌+◌, ◌==◌, ◌<◌, Bool, true, false, some, List, [], ◌∷◌, ◌++◌, append-nil,
  append_assoc, length, take, drop, Option, Text, ◌≡◌, refl, sym, ap, ◌∙◌, arith,
}
use asciinema.Asciicast.Json.{Json}
use asciinema.Asciicast.Events.{Frame}
use asciinema.Asciicast.Opening.{Recording}
use asciinema.Asciicast.Frames.{recording_events}
use asciinema.Asciicast.V2.Reader.{returned}
use asciinema.Commands.Cat.{
  Screen, blank, Catted, status, os_error, show, show_frames, cat, or_again, execute,
}

abbrev pub texts : List Frame → List Text
texts [] = []
texts (f ∷ fs) = f.text ∷ texts fs

abbrev screen : List Text → List Text → ℕ → Screen
screen shown pending n = record { shown = shown; pending = pending; writes = n; errors = 0 }

same_screen : {s t p : List Text} {m n : ℕ} → s ≡ t → m ≡ n → screen s p m ≡ screen t p n
same_screen e h = rw (e, h) refl

append-take-drop :
    (shown ts ys : List Text) (j : ℕ)
    → (shown ++ take j ts) ++ (take 1 (drop j ts) ++ ys) ≡ shown ++ (take (suc j) ts ++ ys)
append-take-drop shown [] ys zero = ap (λ s. s ++ ys) (append-nil shown)
append-take-drop shown [] ys (suc j) = ap (λ s. s ++ ys) (append-nil shown)
append-take-drop shown (t ∷ ts) ys zero = ap (λ s. s ++ t ∷ ys) (append-nil shown)
append-take-drop shown (t ∷ ts) ys (suc j) =
    ap (λ s. s ++ (take 1 (drop j ts) ++ ys)) (sym (append_assoc shown (t ∷ []) (take j ts)))
    ∙ append-take-drop (shown ++ t ∷ []) ts ys j
    ∙ append_assoc shown (t ∷ []) (take (suc j) ts ++ ys)

-- Only the k-th write fails.
module _ (fails : ℕ → Bool) (k : ℕ) (at_k : fails k ≡ true)
    (others : (n : ℕ) → (n == k) ≡ false → fails n ≡ false) where
  works : (n : ℕ) → k < n → fails n ≡ false
  works n h = others n (ground arith)

  show_frames-works :
      (frames : List Frame) (rest : Screen → Catted) (shown : List Text) (n : ℕ)
      → k < n
      → show_frames fails frames false rest (screen shown [] n)
        ≡ rest (screen (shown ++ texts frames) [] (n + length frames))
  unfolding show_frames show
  show_frames-works [] rest shown n h = ap rest (same_screen (sym (append-nil shown)) (omega arith))
  show_frames-works (f ∷ fs) rest shown n h = rw (works n h) (
      show_frames-works fs rest (shown ++ f.text ∷ []) (n + 1) (omega (arith, h))
      ∙ ap rest (same_screen (append_assoc shown (f.text ∷ []) (texts fs)) (omega arith)))

  -- What the buffer holds goes before the first text.
  show_frames-flushes :
      (frames : List Frame) (rest : Screen → Catted) (shown pending : List Text) (n : ℕ)
      → k < n
      → 0 < length frames
      → show_frames fails frames false rest (screen shown pending n)
        ≡ rest (screen (shown ++ (pending ++ texts frames)) [] (n + length frames))
  unfolding show_frames show
  show_frames-flushes [] rest shown pending n h lt = absurd (omega (arith, lt))
  show_frames-flushes (f ∷ fs) rest shown pending n h lt = rw (works n h) (
      show_frames-works fs rest (shown ++ (pending ++ f.text ∷ [])) (n + 1) (omega (arith, h))
      ∙ ap rest (
          same_screen
            (append_assoc shown (pending ++ f.text ∷ []) (texts fs)
              ∙ ap (λ (ts : List Text). shown ++ ts)
                  (append_assoc pending (f.text ∷ []) (texts fs)))
            (omega arith)))

  show_frames-fails :
      (frames : List Frame) (rest : Screen → Catted) (shown : List Text) (n j : ℕ)
      → k ≡ n + j
      → j < length frames
      → show_frames fails frames false rest (screen shown [] n)
        ≡ os_error
            (screen (shown ++ take j (texts frames)) (take 1 (drop j (texts frames))) (k + 1))
  unfolding show_frames show
  show_frames-fails [] rest shown n j e lt = absurd (omega (arith, lt))
  show_frames-fails (f ∷ fs) rest shown n zero e lt =
      let now : fails n ≡ true = rw (start n e) at_k in
      rw now (ap os_error (same_screen (sym (append-nil shown)) (omega (arith, e))))
    where
      start : (n : ℕ) → k ≡ n + 0 → n ≡ k
      start n e = omega (arith, e)
  show_frames-fails (f ∷ fs) rest shown n (suc j) e lt = rw (others n (ground (arith, e))) (
      show_frames-fails fs rest (shown ++ f.text ∷ []) (n + 1) j (omega (arith, e))
        (omega (arith, lt))
      ∙ ap os_error (same_screen (append_assoc shown (f.text ∷ []) (take j (texts fs))) refl))

  -- One recording that is opened twice and can be read to its end each time is printed with the
  -- terminal open, and a single write fails, that of its k-th text, which stays in the buffer. Then
  -- the command returns 0 and reports no error, and stdout has the texts up to the k-th, and behind
  -- them all texts from the first on.
  pub execute-prints_twice :
      (loads : Text → Option Json) (recording : Recording)
      → let events = recording_events loads (some (b'o' ∷ [])) recording in
        events.raises ≡ false
        → k < length events.frames
        → execute fails loads true (returned recording ∷ []) (returned recording ∷ [])
          ≡ status 0 (record {
            shown = take (suc k) (texts events.frames) ++ texts events.frames;
            pending = [];
            writes = k + 1 + length events.frames;
            errors = 0;
          })
  unfolding execute cat or_again
  execute-prints_twice loads recording clean lt =
      let frames = (recording_events loads (some (b'o' ∷ [])) recording).frames in
      let again : Screen → Catted = cat fails loads (returned recording ∷ []) in
      let printed : (s : Screen) → again s ≡ show_frames fails frames false (status 0) s =
        λ s. rw (cat, clean) refl in
      let ts = texts frames in
      ap (or_again again)
        (printed blank ∙ show_frames-fails frames (status 0) [] 0 k (omega arith) lt)
      ∙ printed (screen (take k ts) (take 1 (drop k ts)) (k + 1))
      ∙ show_frames-flushes frames (status 0) (take k ts) (take 1 (drop k ts)) (k + 1) (omega arith)
          (omega (arith, lt))
      ∙ ap (status 0) (same_screen (append-take-drop [] ts ts k) refl)
