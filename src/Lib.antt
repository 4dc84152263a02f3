-- ===== src/Lib.antt =====
-- asciinema, a recorder and player of terminal sessions: a model of its Python code.
--
-- The parts. `asciinema rec` runs a shell in a pseudo-terminal. The recording loop (asciinema/pty_.py)
-- copies bytes between the terminal and the child, answers the hotkeys, and hands output, input,
-- markers and resizes, with their times, to the recorder (asciinema/recorder.py). That puts them into
-- a queue, from which a worker process (asciinema/async_worker.py) writes them with one of the
-- writers (asciinema/asciicast/v2.py, raw.py, on top of asciinema/file_writer.py). `asciinema play`
-- opens a recording (asciinema/asciicast/__init__.py, v1.py, v2.py), passes its events through
-- asciinema/asciicast/events.py and shows them at their times (asciinema/player.py). The
-- configuration (asciinema/config.py) gives both their hotkeys, and the install ID.
--
-- `asciinema cat` prints the text of recordings at once, `asciinema upload` posts a file to the
-- server (asciinema/api.py, over asciinema/urllib_http_adapter.py), and asciinema/__main__.py declares
-- the arguments of the commands and calls the one that is chosen (asciinema/commands/*.py).
--
-- The files.
--   Base         names of the libraries, and helpers: lists, byte strings, dictionaries, integers
--   Asciicast    Events: asciinema/asciicast/events.py, function by function, with its laws
--                Json: the values of Python's json module, dictionaries included
--                V2/Writer, V2/Reader: the class `writer`, and `open_from_file`, `Asciicast` and
--                `get_duration`, of asciinema/asciicast/v2.py
--                V1: asciinema/asciicast/v1.py; Raw: asciinema/asciicast/raw.py
--                Opening: version 2, then version 1; Loading: `open_from_url`; Url: `open_url` and
--                `Parser`, with Url/Links and Url/Leads on where pages lead; Frames: events as frames
--   FileWriter   asciinema/file_writer.py
--   Utf8         Python's UTF-8 codec, as the writer of version 2 uses it
--   Pty          Defs: the state of `record` and the handlers inside it; Copy: `copy` and its rounds;
--                Timing, Paused, Input, Output, Notices, Faults: theorems, with Rising and Taken for what they
--                speak of; Copy/Rules, Copy/OnGo: how an invariant goes through the loop
--   Recorder     Worker: `async_writer`; Metadata: the arguments of `record`, `build_metadata`,
--                `_get_tty_size`; Lines, Chunks, Output, Duration, Headless: what the file
--                holds in the end, with either writer; Works: that no write fails; Whole: the
--                recording loop and the worker; Call: `record`, all of it, with either writer, and
--                `tty_fds`; RawAppended: a raw file that is recorded to twice; Notifier:
--                `async_notifier`, with Notices on the texts that it tells; Processes: the worker
--                as a process beside the recorder, with Schedules and Ends on all orders of their
--                steps; Appended, with Sorted and Times: a file that is recorded to twice
--   Terminal     asciinema/tty_.py and `SignalFD` of asciinema/pty_.py; Restored: what is left
--   Player       Defs: outputs and state; Loops: `_play` and `play`; Shows, Finish, Pause: theorems
--   Commands     Record: `RecordCommand.execute`, with Kept and Questions; Recording: the same with
--                the recorder that it calls, with Saved; Init: `RecordCommand.__init__`; Whitelist:
--                the names in `--env`, with Env; Cat, Play: the commands of these names, with
--                Cat/Again on a write that fails; Upload: upload.py and auth.py, with
--                Upload/Exits
--   Replay       what `record` wrote, opened again and shown by `cat` (Cat) and by `play` (Play,
--                with Frames and Retimed); Command, CommandPlay: `rec` and then `cat` or `play`
--   Http         asciinema/urllib_http_adapter.py: Multipart: the encoder; Request: `post` up to
--                `urlopen`, and what api.py hands to it; Split, ReadBack: reading a body
--   Api          asciinema/api.py and what asciinema/urllib_http_adapter.py makes of a reply; Agent:
--                the addresses and the headers
--   Notifier     asciinema/notifier.py; Script: the literal in the AppleScript; Running: `notify` and
--                the icon; Shown: what the programs show
--   Main         asciinema/__main__.py: `main` and `config.load`; Arguments: what `add_argument`
--                declares; Positive: the numbers that the commands get
--   Config       the class `Config` and `get_config_home`; Settings: the readers of options
--
-- The models. A class or a function with nested functions is a record of its variables, and each
-- function maps such a record to the next one. An exception ends it with a constructor that keeps
-- the state. What the operating system answers is an argument: the recording loop takes, for each
-- round, what `select` and the reads behind it give, in any order and number; the clock, the keys
-- pressed in the player and the failures of writes are functions from a count of calls. The file of
-- a recording may fail to open, a header with a surrogate in it cannot be encoded, and a raw file
-- may take a part of a write; the part of a line that a failed write may leave is not written down,
-- and what stdout does not take stays in its buffer. Times are whole nanoseconds, as integers;
-- Python has binary floating point there. Speeds are fractions. Bytes and characters are natural
-- numbers. A line of a recording is the JSON value dumped into it where it is written; where it is
-- read, it is text, and `json.loads` is a function that may fail. `strip`, `upper`, `path.join` and
-- `path.isfile` are arguments of the configuration, and so are, of the parts that use them,
-- `urlopen`, `HTMLParser`, `urlparse`, `dirname`, `b64encode`, `uuid4`, `shutil.which`,
-- `path.exists`, `platform` and `parse_args`. `json.dumps` is a function from a value to its line
-- where a file that was written is read again. The recorder and its worker are two processes with a
-- queue between them: one step is a put of the one or a turn of the other, in any order.
--
-- Fuel. The player's loops run for a number of rounds, where each round consumes a frame or a key or
-- changes the loop; keys can keep it from ending as long as they come. `write_tty`, the loop that
-- shows output, runs as often as there are bytes. Digits of a number are as many as its value at
-- most, and one. `open_url` calls itself for each page that leads on, as deep as its fuel allows.
--
-- Not modelled: the fork, the pipe of the signals and the size of the pseudo-terminal (pty_.py),
-- `read_blocking` (tty_.py), what the programs for desktop notifications do with their arguments
-- beyond the literal of the AppleScript, and the wording of help and errors; these are for the most
-- part calls of the operating system and of Python's libraries. The writes of the player do not
-- fail, and so the second playback that `Player.play` starts after an `IOError` is left out.
pub mod Api
pub mod Asciicast
pub mod Base
pub mod Commands
pub mod Config
pub mod FileWriter
pub mod Http
pub mod Main
pub mod Notifier
pub mod Player
pub mod Pty
pub mod Recorder
pub mod Replay
pub mod Terminal
pub mod Utf8
