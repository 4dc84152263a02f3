-- ===== src/Recorder/RawAppended.antt =====
-- asciinema/recorder.py with `append` and the raw writer: `record` asks for the duration of the file
-- before it looks at the writer.
mod Tests
use asciinema.Base.{
  ℕ, ◌==◌, ◌+◌, ◌/◌, ◌%◌, leb, sym, Bool, ltb, ◌<◌, ◌&&◌, if◌then◌else◌, true, none, some, List, [],
  ◌∷◌, ◌++◌, Option, Text, Bytes, ◌≡◌, concat, false, if_rule, refl, ap, ◌∙◌, arith,
}
use asciinema.Asciicast.Json.{Json}
use asciinema.Asciicast.V2.Reader.{
  Read, raised, returned, load_error, get_duration, duration_of, open_from_file, from_first_value,
}
use asciinema.Pty.Defs.{Size, Entry}
use asciinema.Asciicast.Raw.{resize_sequence}
use asciinema.Utf8.{encode, encode_char, append_encoded, within}
use asciinema.Recorder.Chunks.{run_chunks}
use asciinema.Recorder.Metadata.{time_offset_of}
use asciinema.Recorder.Call.{Arguments, Machine, Called, raises, record_raw}

module _ (loads : Text → Option Json) (size : ℕ) (t : Text) (ts : List Text) where
  get_duration-load_error : loads t ≡ none → get_duration loads (t ∷ ts) ≡ raised load_error
  unfolding get_duration duration_of open_from_file from_first_value
  get_duration-load_error h = ap (λ o. duration_of loads (from_first_value o ts)) h

  time_offset-load_error :
      0 < size → loads t ≡ none → time_offset_of loads true size (t ∷ ts) ≡ raised load_error
  unfolding time_offset_of
  time_offset-load_error s h =
      if_rule (λ r. r ≡ raised load_error) (ltb 0 size) _ _ (λ _. get_duration-load_error h)
        (λ e. absurd (ground (arith, s, e)))

abbrev first_or : Text → ℕ
first_or [] = 0
first_or (c ∷ cs) = c

-- Universal newlines: `\r\n` and `\r` are read as `\n`. The flag tells that a `\r` stands before.
unfoldable pub universal : Bool → Text → Text
universal after_cr [] = []
universal after_cr (c ∷ cs) =
    let broken = universal true cs in
    let rest = universal false cs in
    if c == 13 then 10 ∷ broken else if after_cr && c == 10 then rest else c ∷ rest

-- These lines are what a file of these bytes, opened as a text in UTF-8, is read as: the bytes are
-- valid, and the lines end where they ended.
abbrev pub ReadsAs : List Text → Bytes → Type 0
ReadsAs ts bytes = (text : Text) × (encode text ≡ some bytes) × (concat ts ≡ universal false text)

lead :
    (b : ℕ) (ds : Bytes) (rest : Option Bytes) (bs : Bytes)
    → append_encoded (some (b ∷ ds)) rest ≡ some (0x1b ∷ bs)
    → b ≡ 0x1b
lead b ds none bs h = absurd cc
lead b ds (some es) bs h = cc

-- Only the escape character is encoded to bytes that begin with it.
encode_char-escape :
    (c : ℕ) (rest : Option Bytes) (bs : Bytes)
    → append_encoded (encode_char c) rest ≡ some (0x1b ∷ bs)
    → c ≡ 0x1b
unfolding encode_char
encode_char-escape c rest bs =
    let P : Option Bytes → Type 0 = λ o. append_encoded o rest ≡ some (0x1b ∷ bs) → c ≡ 0x1b in
    if_rule P (ltb c 0x80) _ _ (λ e h. lead c [] rest bs h)
      λ e.
        if_rule P (ltb c 0x800) _ _
          (λ k h.
            let l : 0xc0 + c / 64 ≡ 0x1b = lead (0xc0 + c / 64) ((0x80 + c % 64) ∷ []) rest bs h in
            absurd (omega (arith, l)))
          λ k.
            if_rule P (within 0xd800 0xdfff c) _ _ (λ n h. absurd cc)
              λ n.
                if_rule P (ltb c 0x10000) _ _
                  (λ m h.
                    let l : 0xe0 + c / 4096 ≡ 0x1b =
                      lead (0xe0 + c / 4096) ((0x80 + c / 64 % 64) ∷ (0x80 + c % 64) ∷ []) rest bs
                        h in
                    absurd (omega (arith, l)))
                  (λ m h.
                    let l : 0xf0 + c / 262144 ≡ 0x1b =
                      lead (0xf0 + c / 262144)
                        ((0x80 + c / 4096 % 64) ∷ (0x80 + c / 64 % 64) ∷ (0x80 + c % 64) ∷ []) rest
                        bs h in
                    absurd (omega (arith, l)))

universal-escape :
    (text : Text) (bs : Bytes)
    → encode text ≡ some (0x1b ∷ bs)
    → first_or (universal false text) ≡ 0x1b
unfolding universal encode
universal-escape [] bs h = absurd cc
universal-escape (c ∷ cs) bs h = let e = encode_char-escape c (encode cs) bs h in rw e refl

-- The first character of what the raw writer makes of a new file.
first-run_chunks :
    (screen : Size) (es : List Entry) (text : Text)
    → encode text ≡ some (concat (run_chunks false screen es))
    → first_or (universal false text) ≡ 0x1b
unfolding resize_sequence
first-run_chunks screen es text h = universal-escape text _ h

-- A line that begins with an escape character is no JSON. A first recording with the raw writer has
-- made a file, all of it, which is valid UTF-8, is read as these lines and is not empty. Then no
-- second recording can be appended to it with the raw writer: whatever the arguments are, `record`
-- raises a `LoadError` before anything is started.
pub record_raw-load_error :
    (m : Machine) (a : Arguments) (screen : Size) (es : List Entry) (c : ℕ) (cs : Text)
    (ts : List Text)
    → ((rest : Text) → m.loads (0x1b ∷ rest) ≡ none)
    → 0 < m.size
    → ReadsAs ((c ∷ cs) ∷ ts) (concat (run_chunks false screen es))
    → record_raw m a true ((c ∷ cs) ∷ ts) (run_chunks false screen es) ≡ raises load_error
unfolding record_raw
record_raw-load_error m a screen es c cs ts h s (text, e, r) =
    let first : c ≡ 0x1b = ap first_or r ∙ first-run_chunks screen es text e in
    rw (record_raw, time_offset-load_error m.loads m.size (c ∷ cs) ts s (rw first (h cs))) refl
