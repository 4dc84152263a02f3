-- ===== src/Main/Positive.antt =====
-- asciinema/__main__.py: which numbers the commands get.
use asciinema.Base.{
  if◌then◌else◌, Bool, true, false, String, Option, none, some, Text, All, Dict, lookup, ℤ, ltb_ℤ,
  not-ltb_ℤ, ◌≤ℤ◌, pos, ◌⊎◌, inl, inr, ◌≡◌, refl,
}
use mathlib.Core.Path.{subst}
use asciinema.Main.Arguments.{
  Value, absent, text, int, float, Action, positive_float, positive_int, Argument, Settings,
  maybe_str, rec_arguments, play_arguments, positive_float_of, positive_int_of,
}

module _ {F : Type 0} (to_float : Text → Option F) (le_zero : F → Bool)
    (to_int : Text → Option ℤ) where
  unfoldable pub convert : Action → Text → Option (Value F)
  unfolding positive_float_of positive_int_of
  convert positive_float t = positive_float_of to_float le_zero t
  convert positive_int t = positive_int_of to_int t
  convert _ t = some (text t)

  -- A default that is a text is converted like one of the command line; another is as it is.
  abbrev default_of : Action → Value F → Option (Value F)
  default_of action (text t) = convert action t
  default_of action v = some v

  -- What `argparse` documents of an argument with a `type`: its value in the namespace is one that
  -- was converted, or that of the default.
  abbrev IsConverted : Action → Value F → Value F → Type 0
  IsConverted action default v =
      ((t : Text) × (convert action t ≡ some v)) ⊎ (default_of action default ≡ some v)

  abbrev IsParsedAs : Action → Value F → Option (Value F) → Type 0
  IsParsedAs positive_float default o =
      (v : Value F) × (o ≡ some v) × IsConverted positive_float default v
  IsParsedAs positive_int default o =
      (v : Value F) × (o ≡ some v) × IsConverted positive_int default v
  IsParsedAs _ default o = Unit

  abbrev pub IsParsed : Dict (Value F) → Argument F → Type 0
  IsParsed args a = IsParsedAs a.action a.default (lookup a.dest args)

  -- `None`, or a number that the check of its type lets through.
  abbrev pub IsPositive : Value F → Type 0
  IsPositive absent = Unit
  IsPositive (float x) = le_zero x ≡ false
  IsPositive (int n) = pos 1 ≤ℤ n
  IsPositive _ = ⊥

  IsPositive-if :
      (b : Bool) (u v : Value F)
      → (b ≡ false → IsPositive u)
      → (if b then none else some u) ≡ some v
      → IsPositive v
  IsPositive-if true u v h k = absurd cc
  IsPositive-if false u v h k = let same : u ≡ v = cc in subst IsPositive same (h refl)

  positive_float_of-IsPositive :
      (t : Text) (v : Value F) → positive_float_of to_float le_zero t ≡ some v → IsPositive v
  unfolding positive_float_of
  positive_float_of-IsPositive t v h =
      elim (to_float t)
          as (λ (o : Option F).
            elim o as (λ p. Option (Value F)) [
              | none ↦ none
              | some x ↦ if le_zero x then none else some (float x)
            ]
              ≡ some v
            → IsPositive v) [
              | none ↦ λ k. absurd cc
              | some x ↦ λ k. IsPositive-if (le_zero x) (float x) v (λ e. e) k
            ]
        h

  positive_int_of-IsPositive :
      (t : Text) (v : Value F) → positive_int_of to_int t ≡ some v → IsPositive v
  unfolding positive_int_of
  positive_int_of-IsPositive t v h =
      elim (to_int t)
          as (λ (o : Option ℤ).
            elim o as (λ p. Option (Value F)) [
              | none ↦ none
              | some n ↦ if ltb_ℤ n (pos 1) then none else some (int n)
            ]
              ≡ some v
            → IsPositive v) [
              | none ↦ λ k. absurd cc
              | some n ↦ λ k. IsPositive-if (ltb_ℤ n (pos 1)) (int n) v (not-ltb_ℤ n (pos 1)) k
            ]
        h

  -- The value of an argument is such a number.
  abbrev pub HasPositive : String → Dict (Value F) → Type 0
  HasPositive dest args = (v : Value F) × (lookup dest args ≡ some v) × IsPositive v

  module _ (shown : F → Text) where
    maybe_str-IsPositive :
        (limit : Option F) (v : Value F)
        → IsConverted positive_float (maybe_str shown limit) v
        → IsPositive v
    unfolding convert maybe_str
    maybe_str-IsPositive limit v (inl (t, h)) = positive_float_of-IsPositive t v h
    maybe_str-IsPositive none v (inr h) = let same : absent ≡ v = cc in subst IsPositive same tt
    maybe_str-IsPositive (some x) v (inr h) = positive_float_of-IsPositive (shown x) v h

    int-IsPositive : (v : Value F) → IsConverted positive_int absent v → IsPositive v
    unfolding convert
    int-IsPositive v (inl (t, h)) = positive_int_of-IsPositive t v h
    int-IsPositive v (inr h) = let same : absent ≡ v = cc in subst IsPositive same tt

    limit-HasPositive :
        (dest : String) (limit : Option F) (args : Dict (Value F))
        → IsParsedAs positive_float (maybe_str shown limit) (lookup dest args)
        → HasPositive dest args
    limit-HasPositive dest limit args (v, e, c) = (v, e, maybe_str-IsPositive limit v c)

    int-HasPositive :
        (dest : String) (args : Dict (Value F))
        → IsParsedAs positive_int absent (lookup dest args)
        → HasPositive dest args
    int-HasPositive dest args (v, e, c) = (v, e, int-IsPositive v c)

  abbrev pub HasSpeed : F → Dict (Value F) → Type 0
  HasSpeed speed args =
      (v : Value F) × (lookup "speed" args ≡ some v) × (IsPositive v ⊎ (v ≡ float speed))

  speed-HasSpeed :
      (speed : F) (args : Dict (Value F))
      → IsParsedAs positive_float (float speed) (lookup "speed" args)
      → HasSpeed speed args
  unfolding convert
  speed-HasSpeed speed args (v, e, inl (t, h)) = (v, e, inl (positive_float_of-IsPositive t v h))
  speed-HasSpeed speed args (v, e, inr h) = let same : v ≡ float speed = cc in (v, e, inr same)

-- Where every argument of `rec` and of `play` that has a type is parsed as `argparse` documents
-- it: a limit of idle time is `None`, or a number of which `<= 0.0` is false, be it from the
-- command line or the configuration; the sizes that override the terminal's are `None` or
-- positive; and the speed is such a number too or that of the configuration, which is not checked.
pub arguments-HasPositive :
    {F : Type 0} (to_float : Text → Option F) (le_zero : F → Bool) (to_int : Text → Option ℤ)
    (shown : F → Text) (s : Settings F) (rec_args play_args : Dict (Value F))
    → All (IsParsed to_float le_zero to_int rec_args) (rec_arguments shown s)
    → All (IsParsed to_float le_zero to_int play_args) (play_arguments shown s)
    → HasPositive to_float le_zero to_int "idle_time_limit" rec_args
      × HasPositive to_float le_zero to_int "cols" rec_args
      × HasPositive to_float le_zero to_int "rows" rec_args
      × HasPositive to_float le_zero to_int "idle_time_limit" play_args
      × HasSpeed to_float le_zero to_int s.speed play_args
unfolding rec_arguments play_arguments
arguments-HasPositive to_float le_zero to_int shown s rec_args play_args h k =
    let typed = h.1.1.1.1.1.1.1 in
    (
      limit-HasPositive to_float le_zero to_int shown "idle_time_limit" s.record_limit rec_args
          typed.0,
      int-HasPositive to_float le_zero to_int shown "cols" rec_args typed.1.0,
      int-HasPositive to_float le_zero to_int shown "rows" rec_args typed.1.1.0,
      limit-HasPositive to_float le_zero to_int shown "idle_time_limit" s.play_limit play_args k.0,
      speed-HasSpeed to_float le_zero to_int s.speed play_args k.1.0,
    )
