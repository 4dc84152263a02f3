-- ===== src/Utf8/Tests.antt =====
-- Runs of the decoder and the encoder.
use asciinema.Base.{some, [], ◌∷◌, ◌≡◌, refl}
use asciinema.Utf8.{encode, encode_char}

encode-euro : encode (0x20ac ∷ []) ≡ some (0xe2 ∷ 0x82 ∷ 0xac ∷ [])
unfolding encode encode_char
encode-euro = refl
