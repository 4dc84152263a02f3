-- ===== src/Commands/Whitelist.antt =====
-- asciinema/commands/record.py, `execute`: the names of variables in `--env`.
use Prim.Native.Char.{Char, code}
use Prim.Native.String.{String}
use asciinema.Base.{
  ℕ, leb, ◌==◌, ◌&&◌, ◌||◌, if◌then◌else◌, Bool, true, false, List, [], ◌∷◌, map, All, ◌≡◌, refl,
  ap, ◌∙◌, arith,
}

-- `c.isspace()`
unfoldable pub is_space : ℕ → Bool
is_space c =
    (leb 9 c && leb c 13)
    || (leb 28 c && leb c 32)
    || (c == 0x85)
    || (c == 0xa0)
    || (c == 0x1680)
    || (leb 0x2000 c && leb c 0x200a)
    || (c == 0x2028)
    || (c == 0x2029)
    || (c == 0x202f)
    || (c == 0x205f)
    || (c == 0x3000)

unfoldable pub lstrip : String → String
unfolding is_space
lstrip String.[] = String.[]
lstrip (String.◌∷◌ c s) = let rest = lstrip s in if is_space (code c) then rest else String.◌∷◌ c s

abbrev before : Char → String → String
before c String.[] = if is_space (code c) then String.[] else String.◌∷◌ c String.[]
before c (String.◌∷◌ d s) = String.◌∷◌ c (String.◌∷◌ d s)

unfoldable pub rstrip : String → String
rstrip String.[] = String.[]
rstrip (String.◌∷◌ c s) = before c (rstrip s)

-- `var.strip()`
unfoldable pub strip : String → String
unfolding lstrip rstrip
strip s = rstrip (lstrip s)

abbrev onto_first : Char → List String → List String
onto_first c [] = String.◌∷◌ c String.[] ∷ []
onto_first c (s ∷ ss) = String.◌∷◌ c s ∷ ss

-- `s.split(",")`
unfoldable pub split : String → List String
split String.[] = String.[] ∷ []
split (String.◌∷◌ c s) =
    let rest = split s in if code c == b',' then String.[] ∷ rest else onto_first c rest

-- `filter(None, …)`
unfoldable pub not_empty : List String → List String
not_empty [] = []
not_empty (String.[] ∷ ss) = not_empty ss
not_empty (String.◌∷◌ c s ∷ ss) = String.◌∷◌ c s ∷ not_empty ss

unfoldable pub vars : String → List String
unfolding strip split not_empty
vars whitelist = not_empty (map strip (split whitelist))

infixr 35 ◌+++◌
abbrev pub ◌+++◌ : String → String → String
String.[] +++ t = t
(String.◌∷◌ c s) +++ t = String.◌∷◌ c (s +++ t)

-- Every character is like this.
abbrev pub AllChars : (ℕ → Type 0) → String → Type 0
AllChars P String.[] = Unit
AllChars P (String.◌∷◌ c s) = P (code c) × AllChars P s

abbrev pub IsBlank : String → Type 0
IsBlank = AllChars (λ c. is_space c ≡ true)

abbrev pub NoComma : String → Type 0
NoComma = AllChars (λ c. (c == b',') ≡ false)

-- The last character, which is `c` if none follows, is no space.
abbrev pub Ends : Char → String → Type 0
Ends c String.[] = is_space (code c) ≡ false
Ends c (String.◌∷◌ d s) = Ends d s

-- A name without a comma, and without a space at either end.
abbrev pub IsName : String → Type 0
IsName String.[] = ⊥
IsName (String.◌∷◌ c s) = (is_space (code c) ≡ false) × Ends c s × NoComma (String.◌∷◌ c s)

lstrip-blank : (b s : String) → IsBlank b → lstrip (b +++ s) ≡ lstrip s
unfolding lstrip
lstrip-blank String.[] s h = refl
lstrip-blank (String.◌∷◌ c b) s (h, k) = rw (lstrip, h) (lstrip-blank b s k)

lstrip-name : (s a : String) → IsName s → lstrip (s +++ a) ≡ s +++ a
unfolding lstrip
lstrip-name String.[] a h = elim h [ ]
lstrip-name (String.◌∷◌ c s) a (h, _, _) = rw h refl

rstrip-blank : (a : String) → IsBlank a → rstrip a ≡ String.[]
unfolding rstrip
rstrip-blank String.[] h = refl
rstrip-blank (String.◌∷◌ c a) (h, k) = rw (rstrip-blank a k, h) refl

rstrip-Ends :
    (c : Char) (s a : String)
    → Ends c s
    → IsBlank a
    → rstrip (String.◌∷◌ c (s +++ a)) ≡ String.◌∷◌ c s
unfolding rstrip
rstrip-Ends c String.[] a h k = rw (rstrip-blank a k, h) refl
rstrip-Ends c (String.◌∷◌ d s) a h k = ap (before c) (rstrip-Ends d s a h k)

strip-name : (b s a : String) → IsBlank b → IsName s → IsBlank a → strip (b +++ (s +++ a)) ≡ s
unfolding strip
strip-name b String.[] a h n k = elim n [ ]
strip-name b (String.◌∷◌ c s) a h (n, e, m) k =
    ap rstrip (lstrip-blank b (String.◌∷◌ c s +++ a) h ∙ lstrip-name (String.◌∷◌ c s) a (n, e, m))
    ∙ rstrip-Ends c s a e k

split-one : (s : String) → NoComma s → split s ≡ s ∷ []
unfolding split
split-one String.[] h = refl
split-one (String.◌∷◌ c s) (h, k) = rw (h, split-one s k) refl

split-comma : (s t : String) → NoComma s → split (s +++ ("," +++ t)) ≡ s ∷ split t
unfolding split
split-comma String.[] t h = refl
split-comma (String.◌∷◌ c s) t (h, k) = rw (h, split-comma s t k) refl

-- A name with spaces around it.
pub record Padded : Type 0 where
  pub left : String
  pub name : String
  pub right : String

abbrev pub IsPadded : Padded → Type 0
IsPadded p = IsBlank p.left × IsName p.name × IsBlank p.right

abbrev pub text_of : Padded → String
text_of p = p.left +++ (p.name +++ p.right)

-- The names with commas between them.
abbrev pub joined : Padded → List Padded → String
joined p [] = text_of p
joined p (q ∷ qs) = text_of p +++ ("," +++ joined q qs)

abbrev pub names : List Padded → List String
names [] = []
names (p ∷ ps) = p.name ∷ names ps

NoComma-append : (s t : String) → NoComma s → NoComma t → NoComma (s +++ t)
NoComma-append String.[] t h k = k
NoComma-append (String.◌∷◌ c s) t (h, hs) k = (h, NoComma-append s t hs k)

IsBlank-NoComma : (s : String) → IsBlank s → NoComma s
unfolding is_space
IsBlank-NoComma String.[] h = tt
IsBlank-NoComma (String.◌∷◌ c s) (h, k) = (ground arith, IsBlank-NoComma s k)

IsName-NoComma : (s : String) → IsName s → NoComma s
IsName-NoComma String.[] h = elim h [ ]
IsName-NoComma (String.◌∷◌ c s) (_, _, h) = h

text_of-NoComma : (p : Padded) → IsPadded p → NoComma (text_of p)
text_of-NoComma p (l, n, r) =
    NoComma-append p.left (p.name +++ p.right) (IsBlank-NoComma p.left l)
      (NoComma-append p.name p.right (IsName-NoComma p.name n) (IsBlank-NoComma p.right r))

not_empty-name : (s : String) (ss : List String) → IsName s → not_empty (s ∷ ss) ≡ s ∷ not_empty ss
unfolding not_empty
not_empty-name String.[] ss h = elim h [ ]
not_empty-name (String.◌∷◌ c s) ss h = refl

-- Names that have no comma and neither begin nor end with a space, with commas between them and any
-- spaces around them: these names are captured, in their order.
pub vars-joined :
    (p : Padded) (ps : List Padded)
    → IsPadded p
    → All IsPadded ps
    → vars (joined p ps) ≡ names (p ∷ ps)
unfolding vars
vars-joined p [] (l, n, r) hs =
    rw
      (
        split-one (text_of p) (text_of-NoComma p (l, n, r)),
        strip-name p.left p.name p.right l n r,
        not_empty-name p.name [] n,
      )
      refl
vars-joined p (q ∷ qs) (l, n, r) (k, hs) =
    rw
      (
        split-comma (text_of p) (joined q qs) (text_of-NoComma p (l, n, r)),
        strip-name p.left p.name p.right l n r,
        not_empty-name p.name (map strip (split (joined q qs))) n,
      )
      (ap (λ (ss : List String). p.name ∷ ss) (vars-joined q qs k hs))
