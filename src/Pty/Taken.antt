-- ===== src/Pty/Taken.antt =====
-- asciinema/pty_.py: the keys that the recorder takes for itself, and those left for the child.
use asciinema.Base.{
  if◌then◌else◌, Bool, false, not, ◌&&◌, ◌||◌, Option, none, some, List, [], ◌∷◌, ◌++◌,
  append_assoc, Bytes, is_key, ◌≡◌, ◌∙◌,
}
use asciinema.Pty.Copy.OnGo.{OnGo}
use asciinema.Pty.Defs.{Keys, Session, Step, truthy_key}
use asciinema.Pty.Copy.{Read, got, failed, Selected, keyboard_interrupt, Ready, ready, watched}

-- The keys that the recorder takes for itself, given whether the prefix key came just before.
abbrev pub is_prefix : Keys → Bool → Bytes → Bool
is_prefix keys mode bytes = not mode && truthy_key keys.prefix && is_key bytes keys.prefix

abbrev pub is_hotkey : Keys → Bytes → Bool
is_hotkey keys bytes = is_key bytes keys.pause || is_key bytes keys.add_marker

abbrev pub is_taken : Keys → Bool → Bytes → Bool
is_taken keys mode bytes =
    is_prefix keys mode bytes || mode || (not (truthy_key keys.prefix) && is_hotkey keys bytes)

-- What the child gets of the keys typed in some rounds, by the reads alone.
abbrev pub child_input : Keys → Bool → Bool → List Selected → Bytes
child_input keys mode is_open [] = []
child_input keys mode is_open (keyboard_interrupt ∷ rounds) = []
child_input keys mode is_open (ready r ∷ rounds) = elim (watched is_open r.from_stdin) [
  | none ↦ child_input keys mode is_open rounds
  | some failed ↦ child_input keys mode is_open rounds
  | some (got []) ↦ child_input keys mode false rounds
  | some (got (b ∷ bs)) ↦
      (if is_taken keys mode (b ∷ bs) then [] else b ∷ bs)
      ++ child_input keys (is_prefix keys mode (b ∷ bs)) is_open rounds
]

-- All bytes for the child so far, sent or not, and what decides on the next key.
pub record View : Type 0 where
  pub stream : Bytes
  pub mode : Bool
  pub is_open : Bool

abbrev pub view : Session → View
view s = record {
  stream = s.to_child ++ s.input_data;
  mode = s.prefix_mode;
  is_open = s.stdin_watched;
}

unfoldable pub after_read : Keys → Option (Read Bytes) → View → View
after_read keys none v = v
after_read keys (some failed) v = v
after_read keys (some (got [])) v = record v { is_open = false }
after_read keys (some (got (b ∷ bs))) v = record v {
  stream = v.stream ++ (if is_taken keys v.mode (b ∷ bs) then [] else b ∷ bs);
  mode = is_prefix keys v.mode (b ∷ bs);
}

pub OnGo-trans :
    {v w : View} (step : Step) → w ≡ v → OnGo (λ t. view t ≡ w) step → OnGo (λ t. view t ≡ v) step
unfolding OnGo
OnGo-trans step p h t e = h t e ∙ p

abbrev pub stdin_of : Ready → View → Option (Read Bytes)
stdin_of r v = watched v.is_open r.from_stdin

pub after_read-stream :
    (keys : Keys) (r : Ready) (x : Option (Read Bytes)) (v : View) (rounds : List Selected)
    → stdin_of r v ≡ x
    → let w = after_read keys x v in
      w.stream ++ child_input keys w.mode w.is_open rounds
      ≡ v.stream ++ child_input keys v.mode v.is_open (ready r ∷ rounds)
unfolding after_read
after_read-stream keys r none v rounds e = rw (e, child_input)
after_read-stream keys r (some failed) v rounds e = rw (e, child_input)
after_read-stream keys r (some (got [])) v rounds e = rw (e, child_input)
after_read-stream keys r (some (got (b ∷ bs))) v rounds e =
    rw (e, child_input)
      (append_assoc v.stream (if is_taken keys v.mode (b ∷ bs) then [] else b ∷ bs)
        (child_input keys (is_prefix keys v.mode (b ∷ bs)) v.is_open rounds))
