-- ===== src/Notifier.antt =====
-- asciinema/notifier.py. `which` stands for `shutil.which`, and the icon is there or not.
pub mod Script
pub mod Running
pub mod Shown
mod Tests
use asciinema.Base.{
  if◌then◌else◌, ◌==◌, Bool, true, false, String, Option, none, some, List, [], ◌∷◌, ◌++◌, Text,
  chars, Dict, insert,
}

pub data Notifier : Type 0 where
  terminal_notifier apple_script lib_notify noop : Notifier
  custom : Text → Notifier

abbrev pub cmd : Notifier → Option Text
cmd terminal_notifier = some (chars "terminal-notifier")
cmd apple_script = some (chars "osascript")
cmd lib_notify = some (chars "notify-send")
cmd (custom command) = some command
cmd noop = none

-- `is_available`
unfoldable pub is_available : (Text → Bool) → Notifier → Bool
is_available which n = elim (cmd n) [ none ↦ false | some c ↦ which c ]

unfoldable pub first_available : (Text → Bool) → List Notifier → Notifier
unfolding is_available
first_available which [] = noop
first_available which (n ∷ ns) =
    let rest = first_available which ns in if is_available which n then n else rest

unfoldable pub get_notifier : (Text → Bool) → Bool → Option Text → Notifier
unfolding first_available
get_notifier which false command = noop
get_notifier which true (some (c ∷ cs)) = custom (c ∷ cs)
get_notifier which true _ =
    first_available which (terminal_notifier ∷ apple_script ∷ lib_notify ∷ [])

-- `text.replace('"', '\\"')`
unfoldable pub quoted : Text → Text
quoted [] = []
quoted (c ∷ cs) = if c == b'"' then b'\\' ∷ b'"' ∷ quoted cs else c ∷ quoted cs

abbrev pub script : Text → Text
script text = chars "display notification \"" ++ (text ++ chars "\" with title \"asciinema\"")

-- The command that shows a text, with the icon if there is one.
unfoldable pub args : Option Text → Notifier → Text → List Text
unfolding quoted
args icon apple_script text = chars "osascript" ∷ chars "-e" ∷ script (quoted text) ∷ []
args none lib_notify text = chars "notify-send" ∷ chars "asciinema" ∷ text ∷ []
args (some icon) lib_notify text =
    chars "notify-send" ∷ chars "-i" ∷ icon ∷ chars "asciinema" ∷ text ∷ []
args none terminal_notifier text =
    chars "terminal-notifier" ∷ chars "-title" ∷ chars "asciinema" ∷ chars "-message" ∷ text ∷ []
args (some icon) terminal_notifier text =
    chars "terminal-notifier"
    ∷ chars "-title"
    ∷ chars "asciinema"
    ∷ chars "-message"
    ∷ text
    ∷ chars "-appIcon"
    ∷ icon
    ∷ []
args icon (custom command) text = chars "/bin/sh" ∷ chars "-c" ∷ command ∷ []
args icon noop text = []

-- The environment that a custom command gets.
unfoldable pub env : Option Text → Text → Dict Text → Dict Text
unfolding insert
env none text environ = insert "TEXT" text environ
env (some icon) text environ = insert "ICON_PATH" icon (insert "TEXT" text environ)
