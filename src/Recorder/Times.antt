-- ===== src/Recorder/Times.antt =====
-- asciinema/asciicast/v2.py: the rounding of times keeps their order.
use asciinema.Base.{ℕ, suc, ◌≤◌, ℤ, pos, negsuc, sub_ℕ, ◌≤ℤ◌, ◌≡◌, refl, ap, ◌∙◌, zero, arith}
use asciinema.Asciicast.V2.Writer.{round_micros, round_time}

round_micros_mono : (m n : ℕ) → m ≤ n → round_micros m ≤ round_micros n
unfolding round_micros
round_micros_mono m n h = ground arith

round_micros_idem : (n : ℕ) → round_micros (round_micros n) ≡ round_micros n
unfolding round_micros
round_micros_idem n = ground arith

pub round_time_mono : (a b : ℤ) → a ≤ℤ b → round_time a ≤ℤ round_time b
unfolding round_time
round_time_mono (pos m) (pos n) h = omega (arith, round_micros_mono m n)
round_time_mono (negsuc m) (pos n) h = ground arith
round_time_mono (negsuc m) (negsuc n) h = ground (arith, round_micros_mono (suc n) (suc m))
round_time_mono (pos m) (negsuc n) h = absurd (omega arith)

sub_ℕ-suc : (m : ℕ) → sub_ℕ 0 (suc m) ≡ negsuc m
sub_ℕ-suc m = ground arith

round_time-sub_ℕ : (k : ℕ) → round_micros k ≡ k → round_time (sub_ℕ 0 k) ≡ sub_ℕ 0 k
unfolding round_time round_micros
round_time-sub_ℕ zero h = refl
round_time-sub_ℕ (suc m) h = ap round_time (sub_ℕ-suc m) ∙ ap (sub_ℕ 0) h

pub round_time_idem : (a : ℤ) → round_time (round_time a) ≡ round_time a
unfolding round_time
round_time_idem (pos n) = ap pos (round_micros_idem n)
round_time_idem (negsuc n) = round_time-sub_ℕ (round_micros (suc n)) (round_micros_idem (suc n))
