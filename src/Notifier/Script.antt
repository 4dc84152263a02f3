-- ===== src/Notifier/Script.antt =====
-- asciinema/notifier.py, `AppleScriptNotifier`: what AppleScript reads in the command.
use asciinema.Base.{
  ℕ, if◌then◌else◌, ◌==◌, Bool, true, false, Option, none, some, List, [], ◌∷◌, ◌++◌, drop, length,
  Text, chars, All, sym, Bool-cases, inl, inr, ==_iff, ◌≡◌, refl, ap,
}
use asciinema.Notifier.{apple_script, quoted, args}

abbrev push : ℕ → Option (Text × Text) → Option (Text × Text)
push c none = none
push c (some (t, rest)) = some (c ∷ t, rest)

-- A literal of AppleScript behind its opening quote: the text up to the closing one, and the rest. A
-- backslash makes the next character part of the text.
unfoldable pub read_literal : Bool → Text → Option (Text × Text)
read_literal escaped [] = none
read_literal true (c ∷ cs) = push c (read_literal false cs)
read_literal false (c ∷ cs) =
    let rest = read_literal (c == b'\\') cs in
    if c == b'"' then some ([], cs) else if c == b'\\' then rest else push c rest

-- The literal of `display notification`, in the arguments of `osascript`.
unfoldable pub notification : List Text → Option (Text × Text)
unfolding read_literal
notification (program ∷ (e ∷ (s ∷ []))) =
    read_literal false (drop (length (chars "display notification \"")) s)
notification _ = none

read_literal-quoted :
    (t rest : Text)
    → All (λ c. (c == b'\\') ≡ false) t
    → read_literal false (quoted t ++ b'"' ∷ rest) ≡ some (t, rest)
unfolding read_literal quoted
read_literal-quoted [] rest h = refl
read_literal-quoted (c ∷ cs) rest (h, k) =
    let rest_read = read_literal-quoted cs rest k in
    elim (Bool-cases (c == b'"')) [
      | inl e ↦
          let same : c ≡ b'"' = (==_iff c b'"').0 e in
          rw (e, rest_read) (ap (λ d. some (d ∷ cs, rest)) (sym same))
      | inr e ↦ rw e (rw (e, h, rest_read) refl)
    ]

-- For a text without backslashes, with any quotes, the command of the AppleScript notifier is one
-- whose literal is read as that text, and that goes on behind it with the title.
pub notification-args :
    (icon : Option Text) (text : Text)
    → All (λ c. (c == b'\\') ≡ false) text
    → notification (args icon apple_script text) ≡ some (text, chars " with title \"asciinema\"")
unfolding notification args
notification-args icon text h = read_literal-quoted text (chars " with title \"asciinema\"") h
