-- ===== src/Http/Split.antt =====
-- A text cut at the occurrences of a delimiter, for the bodies that
-- asciinema/urllib_http_adapter.py encodes.
use asciinema.Base.{
  starts, occurs, ℕ, zero, suc, ◌-◌, ◌==◌, ◌&&◌, if◌then◌else◌, true, false, List, [], ◌∷◌, ◌++◌,
  length, All, ◌≡◌, refl, ap, ◌∙◌, arith,
}

abbrev pub onto_first : ℕ → List (List ℕ) → List (List ℕ)
onto_first x [] = (x ∷ []) ∷ []
onto_first x (p ∷ ps) = (x ∷ p) ∷ ps

-- `s.split(delimiter)`, with the number of bytes of the delimiter still to be passed over.
unfoldable pub split : List ℕ → ℕ → List ℕ → List (List ℕ)
unfolding starts
split d k [] = [] ∷ []
split d (suc k) (x ∷ xs) = split d k xs
split d zero (x ∷ xs) =
    let found = starts d (x ∷ xs) in
    let rest = split d (if found then length d - 1 else zero) xs in
    if found then [] ∷ rest else onto_first x rest

split-found :
    (d : List ℕ) (x : ℕ) (xs : List ℕ)
    → starts d (x ∷ xs) ≡ true
    → split d zero (x ∷ xs) ≡ [] ∷ split d (length d - 1) xs
unfolding split
split-found d x xs h = rw h refl

split-other :
    (d : List ℕ) (x : ℕ) (xs : List ℕ)
    → starts d (x ∷ xs) ≡ false
    → split d zero (x ∷ xs) ≡ onto_first x (split d zero xs)
unfolding split
split-other d x xs h = rw h refl

occurs-cons :
    (d : List ℕ) (x : ℕ) (xs : List ℕ)
    → occurs d (x ∷ xs) ≡ false
    → (starts d (x ∷ xs) ≡ false) × (occurs d xs ≡ false)
unfolding occurs
occurs-cons d x xs h = ground arith

-- A delimiter that begins with a byte which it does not have again.
module _ (m : ℕ) (ds : List ℕ) (once : All (λ d. (d == m) ≡ false) ds) where
  starts-append :
      (es xs rest : List ℕ)
      → All (λ d. (d == m) ≡ false) es
      → starts es (xs ++ m ∷ rest) ≡ starts es xs
  unfolding starts
  starts-append [] xs rest h = refl
  starts-append (e ∷ es) [] rest (h, k) = rw h refl
  starts-append (e ∷ es) (x ∷ xs) rest (h, k) = rw (starts-append es xs rest k) refl

  starts-behind :
      (x : ℕ) (xs rest : List ℕ)
      → starts (m ∷ ds) (x ∷ (xs ++ m ∷ (ds ++ rest))) ≡ starts (m ∷ ds) (x ∷ xs)
  unfolding starts
  starts-behind x xs rest = ap (λ b. (m == x) && b) (starts-append ds xs (ds ++ rest) once)

  starts-own : (es rest : List ℕ) → starts es (es ++ rest) ≡ true
  unfolding starts
  starts-own [] rest = refl
  starts-own (e ∷ es) rest = rw (starts-own es rest) (ground arith)

  split-passed :
      (xs rest : List ℕ) → split (m ∷ ds) (length xs) (xs ++ rest) ≡ split (m ∷ ds) zero rest
  unfolding split
  split-passed [] rest = refl
  split-passed (x ∷ xs) rest = split-passed xs rest

  -- A text without the delimiter, the delimiter, and more.
  pub split-append :
      (xs rest : List ℕ)
      → occurs (m ∷ ds) xs ≡ false
      → split (m ∷ ds) zero (xs ++ m ∷ (ds ++ rest)) ≡ xs ∷ split (m ∷ ds) zero rest
  split-append [] rest h =
      split-found (m ∷ ds) m (ds ++ rest) (starts-own (m ∷ ds) rest)
      ∙ ap (λ k. [] ∷ split (m ∷ ds) k (ds ++ rest)) (omega arith)
      ∙ ap (λ r. [] ∷ r) (split-passed ds rest)
  split-append (x ∷ xs) rest h =
      let (head, tail) = occurs-cons (m ∷ ds) x xs h in
      split-other (m ∷ ds) x (xs ++ m ∷ (ds ++ rest)) (starts-behind x xs rest ∙ head)
      ∙ ap (onto_first x) (split-append xs rest tail)

  pub split-last : (xs : List ℕ) → occurs (m ∷ ds) xs ≡ false → split (m ∷ ds) zero xs ≡ xs ∷ []
  unfolding split
  split-last [] h = refl
  split-last (x ∷ xs) h =
      let (head, tail) = occurs-cons (m ∷ ds) x xs h in
      split-other (m ∷ ds) x xs head ∙ ap (onto_first x) (split-last xs tail)
