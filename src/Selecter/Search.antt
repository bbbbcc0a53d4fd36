-- ===== src/Selecter/Search.antt =====
-- The inner `do … while` of `bl_str_select`: it stops at the next string that begins with the bytes
-- that have matched so far, or past the list.
use native.Mathlib.Nat.{suc-add}
use c_web_socket_pico_w_test.Base.{
  ℕ, zero, suc, ◌+◌, ◌<◌, ◌≤◌, ◌≡◌, refl, sym, ◌∙◌, ap, ap₂, if◌then◌else◌, ◌⊎◌, inl, inr,
  Bool-cases, some, List, [], ◌∷◌, ◌++◌, append_assoc, arith, length, length-append, All, get_elem?,
}
use c_web_socket_pico_w_test.Selecter.{
  Selecter, Candidate, found, exhausted, strncmp_eq, next_match,
}
use c_web_socket_pico_w_test.Selecter.Reference.{
  IsText, NoPrefix, strncmp_eq-strip, strncmp_eq-NoPrefix,
}

pub get_elem?-middle {ℓ} :
    {A : Type ℓ} (before : List A) (x : A) (after : List A)
    → get_elem? (before ++ x ∷ after) (length before) ≡ some x
get_elem?-middle [] x after = refl
get_elem?-middle (y ∷ before) x after = get_elem?-middle before x after

pub get_elem?-next {ℓ} :
    {A : Type ℓ} (before : List A) (x y : A) (after : List A)
    → get_elem? (before ++ x ∷ y ∷ after) (length before + 1) ≡ some y
get_elem?-next [] x y after = refl
get_elem?-next (z ∷ before) x y after =
    ap (λ i. get_elem? (z ∷ before ++ x ∷ y ∷ after) i) (suc-add (length before) 1)
    ∙ get_elem?-next before x y after

-- Where the search from the string behind `i` ends.
unfoldable pub Ends : List ℕ → List (List ℕ) → ℕ → Candidate → Type 0
Ends name after i c =
    ((c ≡ exhausted (i + length after + 1)) × All (NoPrefix name) after)
    ⊎ ((skip : List (List ℕ)) × (rest : List ℕ) × (after' : List (List ℕ)) × (c
          ≡ found (i + length skip + 1) (name ++ rest))
        × (after ≡ skip ++ (name ++ rest) ∷ after')
        × All (NoPrefix name) skip)

Ends-skip :
    (name str : List ℕ) (after : List (List ℕ)) (i : ℕ) (c : Candidate)
    → NoPrefix name str
    → Ends name after (i + 1) c
    → Ends name (str ∷ after) i c
unfolding Ends
Ends-skip name str after i c np (inl (e, all)) = inl (e ∙ ap exhausted (omega arith), (np, all))
Ends-skip name str after i c np (inr (skip, rest, after', e, split, all)) = inr (
  str ∷ skip,
  rest,
  after',
  e ∙ ap (λ k. found k (name ++ rest)) (omega arith),
  ap (λ l. str ∷ l) split,
  (np, all),
)

Ends-found :
    (name str rest : List ℕ) (after : List (List ℕ)) (i : ℕ)
    → str ≡ name ++ rest
    → Ends name (str ∷ after) i (found (i + 1) str)
unfolding Ends
Ends-found name str rest after i e =
    inr ([], rest, after, ap₂ found (omega arith) e, ap (λ (t : List ℕ). t ∷ after) e, tt)

module _ (s : Selecter) (name rest : List ℕ) (text : IsText name)
    (eaten : s.str_index ≡ length name) where
  next_match-last :
      (left i : ℕ)
      → s.strs_len ≤ i + 1
      → next_match (suc left) s (name ++ rest) i ≡ exhausted (i + 1)
  unfolding next_match
  next_match-last left i h = ground arith

  next_match-more :
      (left i : ℕ) {t : List ℕ}
      → i + 1 < s.strs_len
      → get_elem? s.strs (i + 1) ≡ some t
      → next_match (suc left) s (name ++ rest) i ≡ (
          if strncmp_eq t (name ++ rest) (length name)
          then found (i + 1) t
          else next_match left s (name ++ rest) (i + 1))
  unfolding next_match
  next_match-more left i h e = ground arith

  pub next_match-Ends :
      (before : List (List ℕ)) (str : List ℕ) (after : List (List ℕ)) (left i : ℕ)
      → s.strs ≡ before ++ str ∷ after
      → i ≡ length before
      → s.strs_len ≡ length before + 1 + length after
      → left ≡ length after + 1
      → Ends name after i (next_match left s (name ++ rest) i)
  next_match-Ends before str after zero i split at counted enough = absurd (omega arith)
  next_match-Ends before str [] (suc left) i split at counted enough =
      unfold Ends in inl (next_match-last left i (omega arith) ∙ ap exhausted (omega arith), tt)
  next_match-Ends before str (t ∷ after) (suc left) i split at counted enough =
      let here : get_elem? s.strs (i + 1) ≡ some t =
        ap₂ get_elem? split (ap (λ (k : ℕ). k + 1) at) ∙ get_elem?-next before str t after in
      let later : Ends name after (i + 1) (next_match left s (name ++ rest) (i + 1)) =
        next_match-Ends (before ++ str ∷ []) t after left (i + 1)
          (split ∙ sym (append_assoc before (str ∷ []) (t ∷ after)))
          (omega (arith, length-append before (str ∷ [])))
          (omega (arith, length-append before (str ∷ []))) (omega arith) in
      rw (next_match-more left i (omega arith) here)
        (elim (Bool-cases (strncmp_eq t (name ++ rest) (length name))) [
          | inl e ↦
              let (rest', p) = strncmp_eq-strip name rest t text e in
              rw e (Ends-found name t rest' after i p)
          | inr e ↦ rw e (
              Ends-skip name t after i (next_match left s (name ++ rest) (i + 1))
                (strncmp_eq-NoPrefix name rest t text e) later)
        ])
