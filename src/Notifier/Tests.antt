-- ===== src/Notifier/Tests.antt =====
-- A notification with quotes.
use asciinema.Base.{Bool, true, bytes_eq, none, some, [], Text, chars, ◌≡◌, refl}
use asciinema.Notifier.{
  apple_script, lib_notify, quoted, args, get_notifier, first_available, is_available,
}
use asciinema.Notifier.Script.{notification, read_literal}
use asciinema.Notifier.Running.{get_icon_path}

abbrev on_linux : Text → Bool
on_linux program = bytes_eq program (chars "notify-send")

linux_notifier : get_notifier on_linux true (some []) ≡ lib_notify
unfolding get_notifier first_available is_available bytes_eq
linux_notifier = refl

icon_found :
    get_icon_path (λ path. true) (chars "/usr/asciinema")
    ≡ some (chars "/usr/asciinema/data/icon-256x256.png")
unfolding get_icon_path
icon_found = refl

-- A backslash before a quote ends the text.
backslash_lost :
    notification (args none apple_script (chars "a\\\"b"))
    ≡ some (chars "a\\", chars "b\" with title \"asciinema\"")
unfolding notification read_literal args quoted
backslash_lost = refl
