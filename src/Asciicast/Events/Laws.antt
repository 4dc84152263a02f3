-- ===== src/Asciicast/Events/Laws.antt =====
-- Laws of the passes of asciinema/asciicast/events.py.
use mathlib.Core.List.{map}
use mathlib.Core.Path.{subst}
use native.Mathlib.Omega.{arith}
use native.Mathlib.Nat.{le-div_iff_mul-le, div-mul-le_self, le_trans, mul-le-mul_right}
use asciinema.Base.{ℕ, zero, suc, ◌/◌, ◌≤◌, ◌<◌, false, some, ◌≡◌, refl, ap}
use asciinema.Base.{
  List, [], ◌∷◌, ℤ, pos, negsuc, ◌+ℤ◌, ◌-ℤ◌, ◌≤ℤ◌, ◌<ℤ◌, int_laws, add-sub, min_ℤ-nonneg,
  add-sub_left, min_ℤ-le-right, min_ℤ-eq_of_le,
}
use asciinema.Asciicast.Events.{
  compress, Frame, Feed, Speed, to_relative_from, to_relative_time, to_absolute_from,
  to_absolute_time, cap_frame, cap_relative_time, div_floor, times, divide_time, divide_frame,
  is_zero_speed, adjust_speed,
}

retime : (f : Frame) {t u : ℤ} → t ≡ u → record f { time = t } ≡ record f { time = u }
retime f p = ap (λ (t : ℤ). record f { time = t }) p

absolute-relative_from :
    (prev : ℤ) (fs : List Frame) → to_absolute_from prev (to_relative_from prev fs) ≡ fs
unfolding to_relative_from to_absolute_from
absolute-relative_from prev [] = refl
absolute-relative_from prev (f ∷ fs) =
    rw (add-sub f.time prev) (cc (absolute-relative_from f.time fs))

relative-absolute_from :
    (prev : ℤ) (fs : List Frame) → to_relative_from prev (to_absolute_from prev fs) ≡ fs
unfolding to_relative_from to_absolute_from
relative-absolute_from prev [] = refl
relative-absolute_from prev (f ∷ fs) =
    rw (add-sub_left prev f.time) (cc (relative-absolute_from (prev +ℤ f.time) fs))

-- Relative times turned back to absolute ones are the frames that came in.
pub to_absolute-to_relative : (events : Feed) → to_absolute_time (to_relative_time events) ≡ events
unfolding to_absolute_time to_relative_time
to_absolute-to_relative events = rw (absolute-relative_from (pos 0) events.frames)

-- And the other way round.
pub to_relative-to_absolute : (events : Feed) → to_relative_time (to_absolute_time events) ≡ events
unfolding to_absolute_time to_relative_time
to_relative-to_absolute events = rw (relative-absolute_from (pos 0) events.frames)

-- The frames are in the order of their times, from `prev` on.
abbrev pub Ordered : ℤ → List Frame → Type 0
Ordered prev [] = Unit
Ordered prev (f ∷ fs) = (prev ≤ℤ f.time) × Ordered f.time fs

-- The same, and no frame comes later than `limit` behind the one before it.
abbrev pub Spaced : ℤ → ℤ → List Frame → Type 0
Spaced limit prev [] = Unit
Spaced limit prev (f ∷ fs) = (prev ≤ℤ f.time) × (f.time ≤ℤ prev +ℤ limit) × Spaced limit f.time fs

abbrev capped : ℤ → ℤ → ℤ → List Frame → List Frame
capped limit prev now fs = to_absolute_from now (map (cap_frame limit) (to_relative_from prev fs))

capped-Spaced :
    (limit prev now : ℤ) (fs : List Frame)
    → pos 0 ≤ℤ limit
    → Ordered prev fs
    → Spaced limit now (capped limit prev now fs)
unfolding to_relative_from to_absolute_from cap_frame
capped-Spaced limit prev now [] positive h = tt
capped-Spaced limit prev now (f ∷ fs) positive (le, h) =
    let diff : pos 0 ≤ℤ f.time -ℤ prev = omega int_laws in
    (
      omega (int_laws, min_ℤ-nonneg _ limit diff positive),
      omega (int_laws, min_ℤ-le-right (f.time -ℤ prev) limit),
      capped-Spaced limit f.time _ fs positive h,
    )

capped-eq :
    (limit prev : ℤ) (fs : List Frame) → Spaced limit prev fs → capped limit prev prev fs ≡ fs
unfolding to_relative_from to_absolute_from cap_frame
capped-eq limit prev [] h = refl
capped-eq limit prev (f ∷ fs) (le, near, h) =
    rw (min_ℤ-eq_of_le (f.time -ℤ prev) limit (omega int_laws), add-sub f.time prev)
      (cc (capped-eq limit f.time fs h))

cap_relative_time-pos :
    (events : Feed) (limit : ℤ)
    → pos 0 <ℤ limit
    → cap_relative_time events (some limit)
      ≡ record events { frames = map (cap_frame limit) events.frames }
unfolding cap_relative_time
cap_relative_time-pos events (pos n) h = ground arith
cap_relative_time-pos events (negsuc n) h = refl

compress-eq_capped :
    (events : Feed) (limit : ℤ)
    → pos 0 <ℤ limit
    → compress events (some limit)
      ≡ record events { frames = capped limit (pos 0) (pos 0) events.frames }
unfolding compress to_absolute_time to_relative_time
compress-eq_capped events limit h =
    ap to_absolute_time (cap_relative_time-pos (to_relative_time events) limit h)

-- For a limit above zero, frames in order, from time zero on, come out in order, none later than the
-- limit behind the one before it.
pub compress-Spaced :
    (events : Feed) (limit : ℤ)
    → pos 0 <ℤ limit
    → Ordered (pos 0) events.frames
    → Spaced limit (pos 0) (compress events (some limit)).frames
compress-Spaced events limit positive h =
    rw (compress-eq_capped events limit positive)
      (capped-Spaced limit (pos 0) (pos 0) events.frames (omega arith) h)

-- For a limit above zero, a recording in order, from time zero on, whose gaps are within the limit,
-- is left as it is.
pub compress-eq_of_Spaced :
    (events : Feed) (limit : ℤ)
    → pos 0 <ℤ limit
    → Spaced limit (pos 0) events.frames
    → compress events (some limit) ≡ events
compress-eq_of_Spaced events limit positive h =
    rw (compress-eq_capped events limit positive, capped-eq limit (pos 0) events.frames h)

div_le_div : (n m d : ℕ) → n ≤ m → n / d ≤ m / d
div_le_div n m zero h = grind arith
div_le_div n m (suc d) h =
    (le-div_iff_mul-le (omega arith)).1 (le_trans (div-mul-le_self n (suc d)) h)

at_pos : (a b : ℕ) → pos a ≤ℤ pos b → a ≤ b
at_pos a b h = omega arith

at_negsuc : (a b : ℕ) → negsuc a ≤ℤ negsuc b → suc b ≤ suc a
at_negsuc a b h = omega arith

times_mono : (a b : ℤ) (d : ℕ) → a ≤ℤ b → times a d ≤ℤ times b d
unfolding times
times_mono (pos a) (pos b) d h = omega (arith, mul-le-mul_right d (at_pos a b h))
times_mono (pos a) (negsuc b) d h = absurd (omega arith)
times_mono (negsuc a) (pos b) d h = ground arith
times_mono (negsuc a) (negsuc b) d h = ground (arith, mul-le-mul_right d (at_negsuc a b h))

div_floor_mono : (a b : ℤ) (d : ℕ) → a ≤ℤ b → div_floor a d ≤ℤ div_floor b d
unfolding div_floor
div_floor_mono (pos a) (pos b) d h = omega (arith, div_le_div a b d (omega arith))
div_floor_mono (pos a) (negsuc b) d h = absurd (omega arith)
div_floor_mono (negsuc a) (pos b) d h = omega arith
div_floor_mono (negsuc a) (negsuc b) d h = omega (arith, div_le_div b a d (omega arith))

divided-Ordered :
    (n d : ℕ) (prev : ℤ) (fs : List Frame)
    → Ordered prev fs
    → let v : Speed = record { num = pos n; den = d } in
      Ordered (divide_time prev v) (map (divide_frame v) fs)
unfolding divide_frame divide_time
divided-Ordered n d prev [] h = tt
divided-Ordered n d prev (f ∷ fs) (le, h) =
    (div_floor_mono _ _ n (times_mono prev f.time d le), divided-Ordered n d f.time fs h)

positive_speed : (n d : ℕ) → 0 < n → is_zero_speed (record { num = pos n; den = d }) ≡ false
unfolding is_zero_speed
positive_speed n d h = ground arith

divide_time-zero : (n d : ℕ) → divide_time (pos 0) (record { num = pos n; den = d }) ≡ pos 0
unfolding divide_time
divide_time-zero n d = ground arith

-- At a speed above zero frames in order, from time zero on, stay so.
pub adjust_speed-Ordered :
    (events : Feed) (n d : ℕ)
    → 0 < n
    → Ordered (pos 0) events.frames
    → Ordered (pos 0) (adjust_speed events (record { num = pos n; den = d })).frames
unfolding adjust_speed
adjust_speed-Ordered events n d positive h =
    rw (positive_speed n d positive, adjust_speed)
      (subst (λ t. Ordered t (map (divide_frame (record { num = pos n; den = d })) events.frames))
        (divide_time-zero n d) (divided-Ordered n d (pos 0) events.frames h))
