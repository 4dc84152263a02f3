-- ===== src/Pty/Rising.antt =====
-- asciinema/pty_.py: recorded events whose times do not fall.
use asciinema.Base.{List, [], ◌∷◌, ◌++◌, ℤ, ◌≤ℤ◌, arith}
use asciinema.Pty.Defs.{Entry, stdout, stdin, marker, resize}

-- The times of the output and of the input never fall, and lie between `low` and `high`.
abbrev pub Rising : ℤ → ℤ → List Entry → Type 0
Rising low high [] = low ≤ℤ high
Rising low high (stdout t bytes ∷ es) = (low ≤ℤ t) × Rising t high es
Rising low high (stdin t bytes ∷ es) = (low ≤ℤ t) × Rising t high es
Rising low high (marker t ∷ es) = Rising low high es
Rising low high (resize t size ∷ es) = Rising low high es

pub Rising-widen :
    (low high high' : ℤ) (es : List Entry)
    → high ≤ℤ high'
    → Rising low high es
    → Rising low high' es
Rising-widen low high high' [] le h = omega arith
Rising-widen low high high' (stdout t b ∷ es) le (l, h) = (l, Rising-widen t high high' es le h)
Rising-widen low high high' (stdin t b ∷ es) le (l, h) = (l, Rising-widen t high high' es le h)
Rising-widen low high high' (marker t ∷ es) le h = Rising-widen low high high' es le h
Rising-widen low high high' (resize t z ∷ es) le h = Rising-widen low high high' es le h

Rising-append :
    (low mid high : ℤ) (es fs : List Entry)
    → Rising low mid es
    → Rising mid high fs
    → ((l m : ℤ) → l ≤ℤ m → Rising m high fs → Rising l high fs)
    → Rising low high (es ++ fs)
Rising-append low mid high [] fs h k weaken = weaken low mid h k
Rising-append low mid high (stdout t b ∷ es) fs (l, h) k weaken =
    (l, Rising-append t mid high es fs h k weaken)
Rising-append low mid high (stdin t b ∷ es) fs (l, h) k weaken =
    (l, Rising-append t mid high es fs h k weaken)
Rising-append low mid high (marker t ∷ es) fs h k weaken =
    Rising-append low mid high es fs h k weaken
Rising-append low mid high (resize t z ∷ es) fs h k weaken =
    Rising-append low mid high es fs h k weaken

-- One more entry, not before `high` and not after `high'`.
abbrev pub Next : ℤ → ℤ → Entry → Type 0
Next high high' e = Rising high high' (e ∷ [])

pub Rising-snoc :
    (low high high' : ℤ) (es : List Entry) (e : Entry)
    → Rising low high es
    → Next high high' e
    → Rising low high' (es ++ e ∷ [])
Rising-snoc low high high' es (stdout t b) h k =
    Rising-append low high high' es _ h k (λ l m le w. (omega arith, w.1))
Rising-snoc low high high' es (stdin t b) h k =
    Rising-append low high high' es _ h k (λ l m le w. (omega arith, w.1))
Rising-snoc low high high' es (marker t) h k =
    Rising-append low high high' es _ h k (λ l m le w. omega arith)
Rising-snoc low high high' es (resize t z) h k =
    Rising-append low high high' es _ h k (λ l m le w. omega arith)
