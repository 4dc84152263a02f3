-- ===== src/Asciicast/V2/Writer.antt =====
-- asciinema/asciicast/v2.py, `writer`: events as lines of JSON.
use asciinema.Base.{
  ℕ, suc, ◌+◌, ◌*◌, ◌/◌, ◌%◌, ltb, ◌==◌, if◌then◌else◌, Bool, true, false, ◌&&◌, Option, none, some,
  List, [], ◌∷◌, ◌++◌, Bytes, Text, ℤ, pos, negsuc, sub_ℕ,
}
use asciinema.Asciicast.Json.{
  Json, Items, null, int, float, str, arr, obj, nil, cons, Fields, end, field, get_field, set_field,
}
use asciinema.FileWriter.{
  File, Result, ok, io_error, other_error, Disk, open_file, try_open, write, ◌>>=◌,
}
use asciinema.Utf8.{Decoder, start, decode, encode}

-- Decimal digits, on fuel; a number has at most as many digits as its value, and one.
unfoldable pub digits : ℕ → ℕ → Text → Text
digits ℕ.zero n rest = rest
digits (suc fuel) n rest =
    let more = digits fuel (n / 10) ((n % 10 + b'0') ∷ rest) in
    if ltb n 10 then (n + b'0') ∷ rest else more

-- `f"{n}"`
unfoldable pub decimal : ℕ → Text
unfolding digits
decimal n = digits (n + 1) n []

-- `round(ts, 6)` of a number of nanoseconds: to whole microseconds, ties to an even one.
unfoldable pub round_micros : ℕ → ℕ
round_micros n =
    let q = n / 1000 in
    let r = n % 1000 in
    if ltb r 500 then q * 1000 else if (r == 500) && (q % 2 == 0) then q * 1000 else (q + 1) * 1000

unfoldable pub round_time : ℤ → ℤ
unfolding round_micros
round_time (pos n) = pos (round_micros n)
round_time (negsuc n) = sub_ℕ 0 (round_micros (suc n))

-- A header, or the message of a failed assertion.
pub data Header : Type 0 where
  header : Fields → Header
  assertion_error : Header

abbrev is_int : Option Json → Bool
is_int (some (int n)) = true
is_int (some (Json.bool b)) = true
is_int _ = false

abbrev is_time_or_none : Option Json → Bool
is_time_or_none none = true
is_time_or_none (some (int n)) = true
is_time_or_none (some (Json.bool b)) = true
is_time_or_none (some (float t)) = true
is_time_or_none _ = false

abbrev json_of : Option ℕ → Json
json_of none = null
json_of (some n) = int (pos n)

-- `header.update(metadata)`
unfoldable pub update : Fields → Fields → Fields
update end old = old
update (field k v new) old = update new (set_field k v old)

unfoldable pub build_header : Option ℕ → Option ℕ → Fields → Header
unfolding update
build_header width height metadata =
    let h = update metadata (
      field "version" (int (pos 2))
        (field "width" (json_of width) (field "height" (json_of height) end))) in
    if is_int (get_field "width" h)
      && is_int (get_field "height" h)
      && is_time_or_none (get_field "timestamp" h)
    then header h
    else assertion_error

-- A writer between `__enter__` and `__exit__`.
pub record Writer : Type 0 where
  pub file : File Json
  pub stdin_decoder : Decoder
  pub stdout_decoder : Decoder

-- `Union[str, bytes]`
pub data Payload : Type 0 where
  text : Text → Payload
  raw : Bytes → Payload

abbrev pub bytes_of : Payload → Option Bytes
bytes_of (text t) = encode t
bytes_of (raw bytes) = some bytes

unfoldable pub event_json : ℤ → Text → Text → Json
unfolding round_time
event_json ts etype content =
    arr (cons (float (round_time ts)) (cons (str etype) (cons (str content) nil)))

abbrev pub with_file : Writer → Result (File Json) → Result Writer
with_file w (ok f) = ok (record w { file = f })
with_file w (io_error f) = io_error (record w { file = f })
with_file w (other_error f) = other_error (record w { file = f })

-- Whether the line of a value can be encoded, without `ensure_ascii`: no text has a surrogate.
abbrev is_encoded : Option Bytes → Bool
is_encoded none = false
is_encoded (some bytes) = true

unfoldable mutual
  unfolding encode

  pub can_encode : Json → Bool
  can_encode (str t) = is_encoded (encode t)
  can_encode (arr items) = items_encode items
  can_encode (obj d) = fields_encode d
  can_encode _ = true

  pub items_encode : Items → Bool
  items_encode nil = true
  items_encode (cons j items) = can_encode j && items_encode items

  pub fields_encode : Fields → Bool
  fields_encode end = true
  fields_encode (field k j d) = can_encode j && fields_encode d

module _ (disk : Disk) where
  -- A line that can be encoded. The texts of events can: they come from the decoder, which replaces
  -- what is no character, or are ASCII.
  unfoldable pub write_line : Json → Writer → Result Writer
  write_line line w = with_file w (write disk line w.file)

  unfoldable pub write_event : ℤ → Text → Text → Writer → Result Writer
  unfolding write_line event_json
  write_event ts etype content w = write_line (event_json ts etype content) w

  -- The header's line. Text with a surrogate in it raises a `UnicodeEncodeError`, before anything is
  -- written.
  unfoldable pub write_header : Fields → Writer → Result Writer
  unfolding write_line can_encode
  write_header h w = if can_encode (obj h) then write_line (obj h) w else other_error w

  abbrev pub fresh : File Json → Writer
  fresh f = record { file = f; stdin_decoder = start; stdout_decoder = start }

  -- `append` opens the file behind what it holds, and writes no header.
  unfoldable pub enter : Option Fields → List Json → Result Writer
  unfolding try_open write_header
  enter none old = with_file (fresh (open_file true old)) (try_open disk true old)
  enter (some h) old =
      with_file (fresh (open_file false old)) (try_open disk false old) >>= write_header h

  unfoldable pub write_stdout : ℤ → Payload → Writer → Result Writer
  unfolding write_event
  write_stdout ts payload w = elim (bytes_of payload) [
    | none ↦ other_error w
    | some bytes ↦
        let decoded = decode w.stdout_decoder bytes in
        write_event ts (b'o' ∷ []) decoded.text (record w { stdout_decoder = decoded.decoder })
  ]

  unfoldable pub write_stdin : ℤ → Payload → Writer → Result Writer
  unfolding write_event
  write_stdin ts payload w = elim (bytes_of payload) [
    | none ↦ other_error w
    | some bytes ↦
        let decoded = decode w.stdin_decoder bytes in
        write_event ts (b'i' ∷ []) decoded.text (record w { stdin_decoder = decoded.decoder })
  ]

  unfoldable pub write_marker : ℤ → Writer → Result Writer
  unfolding write_event
  write_marker ts w = write_event ts (b'm' ∷ []) [] w

  unfoldable pub write_resize : ℤ → ℕ → ℕ → Writer → Result Writer
  unfolding write_event decimal
  write_resize ts cols rows w = write_event ts (b'r' ∷ []) (decimal cols ++ b'x' ∷ decimal rows) w
