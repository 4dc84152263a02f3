-- ===== src/Notifier/Shown.antt =====
-- asciinema/notifier.py: the text that each notifier is given to show.
use asciinema.Base.{
  ◌==◌, if◌then◌else◌, false, Option, none, some, List, [], ◌∷◌, Text, Dict, chars, bytes_eq,
  last_of, lookup, insert, lookup-insert, All, ◌≡◌, refl, ap, ◌∙◌,
}
use asciinema.Notifier.{
  Notifier, terminal_notifier, apple_script, lib_notify, noop, custom, args, env,
}
use asciinema.Notifier.Running.{Run, notify}
use asciinema.Notifier.Script.{notification, notification-args}

-- The argument behind this one.
abbrev after : Text → List Text → Option Text
after key [] = none
after key (k ∷ []) = none
after key (k ∷ v ∷ rest) = if bytes_eq k key then some v else after key (v ∷ rest)

abbrev first_part : Option (Text × Text) → Option Text
first_part none = none
first_part (some (t, rest)) = some t

abbrev in_environ : Option (Dict Text) → Option Text
in_environ none = none
in_environ (some environ) = lookup "TEXT" environ

-- The text that a program shows, by its own rules: `terminal-notifier` that of `-message`,
-- `notify-send` its last argument, `osascript` the literal in its script; and a command of the user
-- finds it in its environment.
abbrev pub shown_by : Notifier → Run → Option Text
shown_by terminal_notifier run = after (chars "-message") run.command
shown_by lib_notify run = last_of none run.command
shown_by apple_script run = first_part (notification run.command)
shown_by (custom command) run = in_environ run.environ
shown_by noop run = none

abbrev pub IsShown : Notifier → Text → Option Run → Type 0
IsShown noop text none = Unit
IsShown noop text (some run) = ⊥
IsShown notifier text none = ⊥
IsShown notifier text (some run) = shown_by notifier run ≡ some text

lookup-env :
    (icon : Option Text) (text : Text) (environ : Dict Text)
    → lookup "TEXT" (env icon text environ) ≡ some text
unfolding env
lookup-env none text environ = lookup-insert "TEXT" "TEXT" text environ
lookup-env (some icon) text environ =
    lookup-insert "ICON_PATH" "TEXT" icon (insert "TEXT" text environ)
    ∙ lookup-insert "TEXT" "TEXT" text environ

-- Whatever the environment is and whether there is an icon: the program that a notifier runs shows
-- the text, if that has no backslash, and only where there is no notifier nothing is run.
pub notify-IsShown :
    (icon : Option Text) (environ : Dict Text) (notifier : Notifier) (text : Text)
    → All (λ c. (c == b'\\') ≡ false) text
    → IsShown notifier text (notify icon environ notifier text)
unfolding notify args bytes_eq
notify-IsShown none environ terminal_notifier text h = refl
notify-IsShown (some icon) environ terminal_notifier text h = refl
notify-IsShown none environ lib_notify text h = refl
notify-IsShown (some icon) environ lib_notify text h = refl
notify-IsShown icon environ apple_script text h = ap first_part (notification-args icon text h)
notify-IsShown icon environ (custom command) text h = lookup-env icon text environ
notify-IsShown icon environ noop text h = tt
