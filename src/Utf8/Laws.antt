-- ===== src/Utf8/Laws.antt =====
-- The decoder does not see how the bytes are split, and it undoes the encoder.
use mathlib.Core.Path.{subst}
use asciinema.Base.{
  ap, ◌∙◌, ℕ, suc, ◌+◌, ◌*◌, ◌/◌, ◌%◌, ◌<◌, ◌≤◌, ltb, false, Option, none, some, [], ◌∷◌, ◌++◌,
  append_assoc, All, Bytes, Text, ◌⊎◌, if_rule, ltb→lt, ◌≡◌, refl, sym, arith, append-nil,
}
use asciinema.Utf8.{
  Decoder, start, more, Decoded, next_byte, decode, encode_char, encode, first_byte, within,
  append_encoded,
}

-- Decoding in two pieces gives what decoding the whole gives, and leaves the same decoder.
pub decode-append :
    (d : Decoder) (xs ys : Bytes)
    → let first = decode d xs in
      let second = decode first.decoder ys in
      decode d (xs ++ ys) ≡ record { text = first.text ++ second.text; decoder = second.decoder }
unfolding decode
decode-append d [] ys = refl
decode-append d (x ∷ xs) ys =
    let one = next_byte d x in
    let first = decode one.decoder xs in
    rw (decode-append one.decoder xs ys)
      (rw (append_assoc one.text first.text (decode first.decoder ys).text))

-- The bytes that a decoder takes one after the other.
abbrev last_byte : ℕ → ℕ → Decoded
last_byte bits m = next_byte (more 0 0x80 0xbf bits) (0x80 + m)

last_byte_lem :
    (bits m : ℕ)
    → m < 64
    → last_byte bits m ≡ record { text = (bits * 64 + m) ∷ []; decoder = start }
unfolding next_byte
last_byte_lem bits m h = ground arith

abbrev more_byte : ℕ → ℕ → ℕ → Decoded
more_byte n bits m = next_byte (more (suc n) 0x80 0xbf bits) (0x80 + m)

more_byte_lem :
    (n bits m : ℕ)
    → m < 64
    → more_byte n bits m ≡ record { text = []; decoder = more n 0x80 0xbf (bits * 64 + m) }
unfolding next_byte
more_byte_lem n bits m h = ground arith

lead_two :
    (q : ℕ)
    → 2 ≤ q
    → q < 32
    → first_byte (0xc0 + q) ≡ record { text = []; decoder = more 0 0x80 0xbf q }
unfolding first_byte
lead_two q l h = ground arith

lead_three :
    (q m : ℕ)
    → q < 16
    → m < 64
    → 32 ≤ q * 64 + m
    → (q ≡ 13 → m < 32)
    → ((first_byte (0xe0 + q)).text ≡ [])
      × (next_byte (first_byte (0xe0 + q)).decoder (0x80 + m)
          ≡ record { text = []; decoder = more 0 0x80 0xbf (q * 64 + m) })
unfolding first_byte next_byte
lead_three q m h k l n = ground arith

lead_four :
    (q m : ℕ)
    → q < 5
    → m < 64
    → 16 ≤ q * 64 + m
    → (q ≡ 4 → m < 16)
    → ((first_byte (0xf0 + q)).text ≡ [])
      × (next_byte (first_byte (0xf0 + q)).decoder (0x80 + m)
          ≡ record { text = []; decoder = more 1 0x80 0xbf (q * 64 + m) })
unfolding first_byte next_byte
lead_four q m h k l n = ground arith

start_byte : (b : ℕ) → next_byte start b ≡ first_byte b
unfolding next_byte
start_byte b = refl

ascii : (c : ℕ) → c < 128 → first_byte c ≡ record { text = c ∷ []; decoder = start }
unfolding first_byte
ascii c h = ground arith

-- What decoding a character and a rest should give.
abbrev pub then_rest : ℕ → Bytes → Decoded
then_rest c rest = record {
  text = c ∷ (decode start rest).text;
  decoder = (decode start rest).decoder;
}

decode_one : (c : ℕ) (rest : Bytes) → c < 128 → decode start (c ∷ rest) ≡ then_rest c rest
unfolding decode
decode_one c rest h = rw start_byte (rw (ascii c h))

decode_two :
    (c : ℕ) (rest : Bytes)
    → 128 ≤ c
    → c < 2048
    → decode start ((0xc0 + c / 64) ∷ (0x80 + c % 64) ∷ rest) ≡ then_rest c rest
unfolding decode
decode_two c rest l h =
    let e : c / 64 * 64 + c % 64 ≡ c = omega arith in
    rw start_byte (
      rw
        (
          lead_two (c / 64) (omega arith) (omega arith),
          last_byte_lem (c / 64) (c % 64) (omega arith),
        )
        (rw e))

outside : (low high c : ℕ) → within low high c ≡ false → (c < low) ⊎ (high < c)
outside low high c h = ground arith

not_surrogate : (c : ℕ) → within 0xd800 0xdfff c ≡ false → c / 4096 ≡ 13 → c / 64 % 64 < 32
not_surrogate c h e = omega (arith, outside 0xd800 0xdfff c h)

decode_three :
    (c : ℕ) (rest : Bytes)
    → 2048 ≤ c
    → c < 65536
    → within 0xd800 0xdfff c ≡ false
    → decode start ((0xe0 + c / 4096) ∷ (0x80 + c / 64 % 64) ∷ (0x80 + c % 64) ∷ rest)
      ≡ then_rest c rest
unfolding decode
decode_three c rest l h surrogate =
    let e : (c / 4096 * 64 + c / 64 % 64) * 64 + c % 64 ≡ c = omega arith in
    let lead =
      lead_three (c / 4096) (c / 64 % 64) (omega arith) (omega arith) (omega arith)
        (not_surrogate c surrogate) in
    rw start_byte (
      rw (lead.0, lead.1, last_byte_lem (c / 4096 * 64 + c / 64 % 64) (c % 64) (omega arith))
        (rw e))

decode_four :
    (c : ℕ) (rest : Bytes)
    → 65536 ≤ c
    → c < 0x110000
    → decode start (
        (0xf0 + c / 262144)
        ∷ (0x80 + c / 4096 % 64)
        ∷ (0x80 + c / 64 % 64)
        ∷ (0x80 + c % 64)
        ∷ rest)
      ≡ then_rest c rest
unfolding decode
decode_four c rest l h =
    let e : ((c / 262144 * 64 + c / 4096 % 64) * 64 + c / 64 % 64) * 64 + c % 64 ≡ c =
      omega arith in
    let lead =
      lead_four (c / 262144) (c / 4096 % 64) (omega arith) (omega arith) (omega arith)
        (λ q. omega arith) in
    rw start_byte (
      rw
        (
          lead.0,
          lead.1,
          more_byte_lem 0 (c / 262144 * 64 + c / 4096 % 64) (c / 64 % 64) (omega arith),
          last_byte_lem ((c / 262144 * 64 + c / 4096 % 64) * 64 + c / 64 % 64) (c % 64)
              (omega arith),
        )
        (rw e))

-- The bytes of an encoded character, followed by others, decode to it and what the others give.
abbrev Decodes : ℕ → Option Bytes → Type 0
Decodes c none = Unit
Decodes c (some bs) = (rest : Bytes) → decode start (bs ++ rest) ≡ then_rest c rest

ge_of_ltb : (a b : ℕ) → ltb a b ≡ false → b ≤ a
ge_of_ltb a b h = ground arith

encode_char-Decodes : (c : ℕ) → c < 0x110000 → Decodes c (encode_char c)
unfolding encode_char
encode_char-Decodes c h =
    if_rule (Decodes c) (ltb c 0x80) _ _ (λ e rest. decode_one c rest (ltb→lt c 0x80 e))
      λ e₁.
        if_rule (Decodes c) (ltb c 0x800) _ _
          (λ e rest. decode_two c rest (ge_of_ltb c 0x80 e₁) (ltb→lt c 0x800 e))
          λ e₂.
            if_rule (Decodes c) (within 0xd800 0xdfff c) none _ (λ _. tt)
              λ e₃.
                if_rule (Decodes c) (ltb c 0x10000) _ _
                  (λ e rest. decode_three c rest (ge_of_ltb c 0x800 e₂) (ltb→lt c 0x10000 e) e₃)
                  (λ e rest. decode_four c rest (ge_of_ltb c 0x10000 e) h)

abbrev DecodesAll : Text → Option Bytes → Type 0
DecodesAll t none = Unit
DecodesAll t (some bs) =
    (rest : Bytes)
    → decode start (bs ++ rest)
      ≡ record { text = t ++ (decode start rest).text; decoder = (decode start rest).decoder }

append-DecodesAll :
    (c : ℕ) (cs : Text) (first others : Option Bytes)
    → Decodes c first
    → DecodesAll cs others
    → DecodesAll (c ∷ cs) (append_encoded first others)
append-DecodesAll c cs (some bs) (some ds) h k =
    λ rest. rw (append_assoc bs ds rest) (rw (h (ds ++ rest), k rest))
append-DecodesAll c cs none others h k = tt
append-DecodesAll c cs (some bs) none h k = tt

encode-DecodesAll : (t : Text) → All (λ c. c < 0x110000) t → DecodesAll t (encode t)
unfolding encode
encode-DecodesAll [] h = λ rest. refl
encode-DecodesAll (c ∷ cs) (h, k) =
    append-DecodesAll c cs (encode_char c) (encode cs) (encode_char-Decodes c h)
      (encode-DecodesAll cs k)

-- A text of Unicode code points that can be encoded is what its bytes decode to, and no byte is
-- left in the decoder.
pub decode-encode :
    (t : Text) (bs : Bytes)
    → All (λ c. c < 0x110000) t
    → encode t ≡ some bs
    → decode start bs ≡ record { text = t; decoder = start }
unfolding decode
decode-encode t bs h e =
    let all : DecodesAll t (some bs) = subst (DecodesAll t) e (encode-DecodesAll t h) in
    ap (decode start) (sym (append-nil bs)) ∙ all [] ∙ rw append-nil
