-- ===== src/Utf8.antt =====
-- UTF-8 as the writers of asciinema/asciicast use it: Python's incremental decoder with the error
-- handler "replace", and `str.encode`.
pub mod Laws
mod Tests
use asciinema.Base.{
  ℕ, zero, suc, ◌+◌, ◌-◌, ◌*◌, ◌/◌, ◌%◌, ltb, leb, ◌==◌, if◌then◌else◌, Bool, ◌&&◌, Option, none,
  some, List, [], ◌∷◌, ◌++◌, Bytes, Text,
}

-- What the decoder keeps between two calls: how many bytes are missing, the range of the next one,
-- and the bits read so far.
pub data Decoder : Type 0 where
  start : Decoder
  more : ℕ → ℕ → ℕ → ℕ → Decoder

abbrev pub within : ℕ → ℕ → ℕ → Bool
within low high b = leb low b && leb b high

pub record Decoded : Type 0 where
  pub text : Text
  pub decoder : Decoder

abbrev emit : ℕ → Decoded
emit c = record { text = c ∷ []; decoder = start }

abbrev wait : Decoder → Decoded
wait d = record { text = []; decoder = d }

-- U+FFFD
abbrev pub replacement : ℕ
replacement = 0xfffd

unfoldable pub first_byte : ℕ → Decoded
first_byte b =
    if ltb b 0x80
    then emit b
    else if within 0xc2 0xdf b
    then wait (more 0 0x80 0xbf (b - 0xc0))
    else if b == 0xe0
    then wait (more 1 0xa0 0xbf 0)
    else if b == 0xed
    then wait (more 1 0x80 0x9f 0xd)
    else if within 0xe1 0xef b
    then wait (more 1 0x80 0xbf (b - 0xe0))
    else if b == 0xf0
    then wait (more 2 0x90 0xbf 0)
    else if within 0xf1 0xf3 b
    then wait (more 2 0x80 0xbf (b - 0xf0))
    else if b == 0xf4
    then wait (more 2 0x80 0x8f 4)
    else emit replacement

unfoldable pub next_byte : Decoder → ℕ → Decoded
unfolding first_byte
next_byte start b = first_byte b
next_byte (more n low high bits) b =
    if within low high b
    then elim n [
      | zero ↦ emit (bits * 64 + (b - 0x80))
      | suc m ↦ wait (more m 0x80 0xbf (bits * 64 + (b - 0x80)))
    ]
    else let again = first_byte b in
      record { text = replacement ∷ again.text; decoder = again.decoder }

-- `decoder.decode(data)`
unfoldable pub decode : Decoder → Bytes → Decoded
unfolding next_byte
decode d [] = record { text = []; decoder = d }
decode d (b ∷ bs) =
    let one = next_byte d b in
    let rest = decode one.decoder bs in
    record { text = one.text ++ rest.text; decoder = rest.decoder }

-- `str.encode` of one character; a surrogate raises a `UnicodeEncodeError`.
unfoldable pub encode_char : ℕ → Option Bytes
encode_char c =
    if ltb c 0x80
    then some (c ∷ [])
    else if ltb c 0x800
    then some ((0xc0 + c / 64) ∷ (0x80 + c % 64) ∷ [])
    else if within 0xd800 0xdfff c
    then none
    else if ltb c 0x10000
    then some ((0xe0 + c / 4096) ∷ (0x80 + c / 64 % 64) ∷ (0x80 + c % 64) ∷ [])
    else some
        ((0xf0 + c / 262144) ∷ (0x80 + c / 4096 % 64) ∷ (0x80 + c / 64 % 64) ∷ (0x80 + c % 64) ∷ [])

abbrev pub append_encoded : Option Bytes → Option Bytes → Option Bytes
append_encoded (some bs) (some cs) = some (bs ++ cs)
append_encoded _ _ = none

unfoldable pub encode : Text → Option Bytes
unfolding encode_char
encode [] = some []
encode (c ∷ cs) = append_encoded (encode_char c) (encode cs)
