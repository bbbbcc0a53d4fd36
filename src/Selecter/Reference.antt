-- ===== src/Selecter/Reference.antt =====
-- What the selecter is for: the first string of the list that a whole name begins or is.
use c_web_socket_pico_w_test.Base.{
  ℕ, ◌+◌, ◌≡◌, ◌≢◌, refl, sym, ◌∙◌, ap, inl, inr, ap₂, ==_iff, Bool-cases, true, false, Option,
  none, some, List, [], ◌∷◌, ◌++◌, ◌==◌, if◌then◌else◌, arith, length, All, append-nil,
}
use c_web_socket_pico_w_test.Selecter.{
  Selection, index, no_match_yet, no_match, char_at, strncmp_eq,
}

-- What is left of a string behind a prefix.
abbrev pub strip : List ℕ → List ℕ → Option (List ℕ)
strip [] str = some str
strip (c ∷ name) [] = none
strip (c ∷ name) (d ∷ str) = if c == d then strip name str else none

abbrev pub judge : ℕ → Option (List ℕ) → Selection → Selection
judge i none later = later
judge i (some []) later = index i
judge i (some (c ∷ rest)) later = no_match_yet

-- The answer to a whole name, from the strings `strs` that are numbered from `i` on.
unfoldable pub answer : ℕ → List (List ℕ) → List ℕ → Selection
answer i [] name = no_match
answer i (str ∷ strs) name = judge i (strip name str) (answer (i + 1) strs name)

abbrev pub IsText : List ℕ → Type 0
IsText = All (λ c. c ≢ 0)

abbrev pub NoPrefix : List ℕ → List ℕ → Type 0
NoPrefix name str = strip name str ≡ none

pub strip-append : (name rest : List ℕ) → strip name (name ++ rest) ≡ some rest
strip-append [] rest = refl
strip-append (c ∷ name) rest = ground (arith, strip-append name rest)

-- A string that a name does not begin, no longer name begins.
pub NoPrefix-append : (name more str : List ℕ) → NoPrefix name str → NoPrefix (name ++ more) str
NoPrefix-append [] more str h = cc
NoPrefix-append (c ∷ name) more [] h = refl
NoPrefix-append (c ∷ name) more (d ∷ str) h = ground (arith, NoPrefix-append name more str)

-- Nor does a name with another next byte.
pub NoPrefix-other :
    (name : List ℕ) (c d : ℕ) (rest : List ℕ) → c ≢ d → NoPrefix (name ++ c ∷ []) (name ++ d ∷ rest)
NoPrefix-other [] c d rest h = ground arith
NoPrefix-other (x ∷ name) c d rest h = ground (arith, NoPrefix-other name c d rest h)

pub NoPrefix-longer : (name : List ℕ) (c : ℕ) → NoPrefix (name ++ c ∷ []) (name ++ [])
NoPrefix-longer [] c = refl
NoPrefix-longer (x ∷ name) c = ground (arith, NoPrefix-longer name c)

pub char_at-append : (name rest : List ℕ) → char_at (name ++ rest) (length name) ≡ char_at rest 0
unfolding char_at
char_at-append [] rest = refl
char_at-append (c ∷ name) rest = char_at-append name rest

-- `strncmp` with a string that begins with `name`, over the length of `name`.
pub strncmp_eq-strip :
    (name rest str : List ℕ)
    → IsText name
    → strncmp_eq str (name ++ rest) (length name) ≡ true
    → (rest' : List ℕ) × (str ≡ name ++ rest')
unfolding strncmp_eq
strncmp_eq-strip [] rest str t h = (str, refl)
strncmp_eq-strip (c ∷ name) rest [] t h = absurd (ground arith)
strncmp_eq-strip (c ∷ name) rest (d ∷ str) t h = elim (Bool-cases (d == c)) [
  | inl e ↦
      let (rest', p) = strncmp_eq-strip name rest str t.1 (ground arith) in
      (rest', ap₂ ◌∷◌ ((==_iff d c).0 e) p)
  | inr e ↦ absurd (ground arith)
]

pub strncmp_eq-NoPrefix :
    (name rest str : List ℕ)
    → IsText name
    → strncmp_eq str (name ++ rest) (length name) ≡ false
    → NoPrefix name str
unfolding strncmp_eq
strncmp_eq-NoPrefix [] rest str t h = cc
strncmp_eq-NoPrefix (c ∷ name) rest [] t h = refl
strncmp_eq-NoPrefix (c ∷ name) rest (d ∷ str) t h =
    ground (arith, strncmp_eq-NoPrefix name rest str)

pub answer-skip :
    (i : ℕ) (before strs : List (List ℕ)) (name : List ℕ)
    → All (NoPrefix name) before
    → answer i (before ++ strs) name ≡ answer (i + length before) strs name
unfolding answer
answer-skip i [] strs name h = ap (λ k. answer k strs name) (omega arith)
answer-skip i (str ∷ before) strs name (np, h) =
    ap (λ o. judge i o (answer (i + 1) (before ++ strs) name)) np
    ∙ answer-skip (i + 1) before strs name h
    ∙ ap (λ k. answer k strs name) (omega arith)

pub answer-none :
    (strs : List (List ℕ)) (name : List ℕ)
    → All (NoPrefix name) strs
    → answer 0 strs name ≡ no_match
unfolding answer
answer-none strs name h =
    ap (λ l. answer 0 l name) (sym (append-nil strs)) ∙ answer-skip 0 strs [] name h

pub answer-found :
    (before after : List (List ℕ)) (name rest : List ℕ)
    → All (NoPrefix name) before
    → answer 0 (before ++ (name ++ rest) ∷ after) name
      ≡ judge (length before) (some rest) (answer (length before + 1) after name)
unfolding answer
answer-found before after name rest h =
    answer-skip 0 before ((name ++ rest) ∷ after) name h
    ∙ ap (λ k. judge k (strip name (name ++ rest)) (answer (k + 1) after name)) (omega arith)
    ∙ ap (λ o. judge (length before) o (answer (length before + 1) after name))
        (strip-append name rest)

pub All-NoPrefix-append :
    (name more : List ℕ) (strs : List (List ℕ))
    → All (NoPrefix name) strs
    → All (NoPrefix (name ++ more)) strs
All-NoPrefix-append name more [] h = tt
All-NoPrefix-append name more (str ∷ strs) (np, h) =
    (NoPrefix-append name more str np, All-NoPrefix-append name more strs h)

pub All-middle {ℓ κ} :
    {A : Type ℓ} (P : A → Type κ) (before : List A) (x : A) (after : List A)
    → All P (before ++ x ∷ after)
    → P x
All-middle P [] x after h = h.0
All-middle P (y ∷ before) x after h = All-middle P before x after h.1

pub All-append_right {ℓ κ} :
    {A : Type ℓ} (P : A → Type κ) (xs ys : List A) → All P (xs ++ ys) → All P ys
All-append_right P [] ys h = h
All-append_right P (x ∷ xs) ys h = All-append_right P xs ys h.1
