-- ===== src/Selecter/Stream.antt =====
-- Several calls of `bl_str_select` on the pieces of one name, as the header parser makes them.
use c_web_socket_pico_w_test.Base.{
  ℕ, ◌+◌, ◌≡◌, ◌≢◌, refl, sym, ◌∙◌, ap, ap₂, inl, inr, none, some, Option-cases, List, [], ◌∷◌,
  ◌++◌, append_assoc, append-nil, arith, length, All, All-append, get_elem?,
}
use c_web_socket_pico_w_test.Selecter.{Selecter, Selection, no_match, fault, select, reset}
use c_web_socket_pico_w_test.Selecter.Reference.{
  IsText, NoPrefix-append, strip, judge, answer, answer-found,
}
use c_web_socket_pico_w_test.Selecter.Scan.{At, Scanned, select-Scanned, List-cases}

-- The calls for the pieces in turn; the answer to the last one counts.
unfoldable pub feed : Selection → Selecter → List (List ℕ) → Selection
feed last s [] = last
feed last s (piece ∷ pieces) = let (next, s') = select s piece in feed next s' pieces

abbrev pub flatten : List (List ℕ) → List ℕ
flatten [] = []
flatten (piece ∷ pieces) = piece ++ flatten pieces

pub reset-At :
    (str : List ℕ) (strs : List (List ℕ))
    → At (str ∷ strs) [] [] (reset (str ∷ strs) (length (str ∷ strs)))
unfolding reset
reset-At str strs = record {
  before = [];
  after = strs;
  rest = str;
  whole = refl;
  split = refl;
  counted = refl;
  listed = refl;
  eaten = refl;
  skipped = tt;
}

-- The answer of a freshly reset selecter to a name without NUL bytes is that of the reference:
-- the number of the first string that the name begins if it is the whole of it, `no_match_yet` if
-- there is more of that string, and `no_match` if the name begins no string. The list holds a
-- string at least, and none with a NUL byte.
pub select-reset :
    (str : List ℕ) (strs : List (List ℕ)) (name : List ℕ)
    → All IsText (str ∷ strs)
    → IsText name
    → (select (reset (str ∷ strs) (length (str ∷ strs))) name).0 ≡ answer 0 (str ∷ strs) name
select-reset str strs name texts t =
    (select-Scanned [] name (reset (str ∷ strs) (length (str ∷ strs))) texts (reset-At str strs) tt
      t).answered

-- A name that begins no string does not come to begin one by growing.
pub answer-no_match :
    (i : ℕ) (strs : List (List ℕ)) (name more : List ℕ)
    → answer i strs name ≡ no_match
    → answer i strs (name ++ more) ≡ no_match
unfolding answer
answer-no_match i [] name more h = refl
answer-no_match i (str ∷ strs) name more h = elim (Option-cases (strip name str)) [
  | inl e ↦
      rw (NoPrefix-append name more str e) (answer-no_match (i + 1) strs name more (rw e at h))
  | inr (r, e) ↦ absurd (judge-some r e)
]
  where
    judge-some : (r : List ℕ) → strip name str ≡ some r → ⊥
    judge-some [] e = ground arith
    judge-some (c ∷ r) e = ground arith

feed-At :
    {strs : List (List ℕ)} (last : Selection) (s : Selecter) (done : List ℕ)
    (pieces : List (List ℕ))
    → All IsText strs
    → At strs done done s
    → last ≡ answer 0 strs done
    → IsText done
    → All IsText pieces
    → answer 0 strs (done ++ flatten pieces) ≢ no_match
    → feed last s pieces ≡ answer 0 strs (done ++ flatten pieces)
unfolding feed
feed-At {strs} last s done [] texts at e t u h = e ∙ ap (answer 0 strs) (sym (append-nil done))
feed-At {strs} last s done (piece ∷ pieces) texts at e t (u, us) h =
    let o : Scanned strs (done ++ piece) (select s piece) =
      select-Scanned done piece s texts at t u in
    let joined : (done ++ piece) ++ flatten pieces ≡ done ++ (piece ++ flatten pieces) =
      append_assoc done piece (flatten pieces) in
    elim o.left [
      | inl (spent, _, _) ↦ absurd (
          h (
            ap (answer 0 strs) (sym joined)
            ∙ answer-no_match 0 strs (done ++ piece) (flatten pieces) (sym o.answered ∙ spent)))
      | inr on ↦
          feed-At (select s piece).0 (select s piece).1 (done ++ piece) pieces texts on o.answered
            (All-append (λ c. c ≢ 0) done piece t u) us
            (λ z. h (ap (answer 0 strs) (sym joined) ∙ z))
          ∙ ap (answer 0 strs) joined
    ]

-- A name that begins some string of the list gets the answer of the reference, however it is cut
-- into pieces and whatever answer came before.
pub feed-answer :
    (last : Selection) (str : List ℕ) (strs pieces : List (List ℕ)) (piece : List ℕ)
    → All IsText (str ∷ strs)
    → All IsText (piece ∷ pieces)
    → answer 0 (str ∷ strs) (flatten (piece ∷ pieces)) ≢ no_match
    → feed last (reset (str ∷ strs) (length (str ∷ strs))) (piece ∷ pieces)
      ≡ answer 0 (str ∷ strs) (flatten (piece ∷ pieces))
unfolding feed
feed-answer last str strs pieces piece texts us h =
    feed-At (answer 0 (str ∷ strs) []) (reset (str ∷ strs) (length (str ∷ strs))) []
      (piece ∷ pieces) texts (reset-At str strs) refl tt us h

get_elem?-length {ℓ} : {A : Type ℓ} (l : List A) → get_elem? l (length l) ≡ none
get_elem?-length [] = refl
get_elem?-length (x ∷ l) = get_elem?-length l

pub select-past :
    (s : Selecter) (strs : List (List ℕ)) (buf : List ℕ)
    → s.list_index ≡ length strs
    → s.strs ≡ strs
    → (select s buf).0 ≡ fault
unfolding select
select-past s strs buf e whole =
    let past : get_elem? s.strs s.list_index ≡ none =
      ap₂ get_elem? whole e ∙ get_elem?-length strs in
    ground arith

pub At-ne-no_match :
    {strs : List (List ℕ)} (name : List ℕ) (s : Selecter)
    → At strs name name s
    → answer 0 strs name ≢ no_match
At-ne-no_match {strs} name s at h = elim (List-cases at.rest) [
  | inl e ↦ absurd (ground (arith, judged, h, e))
  | inr (c, r, e) ↦ absurd (ground (arith, judged, h, e))
]
  where
    judged :
        answer 0 strs name
        ≡ judge (length at.before) (some at.rest) (answer (length at.before + 1) at.after name)
    judged =
        ap (λ l. answer 0 l name) at.split ∙ answer-found at.before at.after name at.rest at.skipped

-- Once the answer was `no_match` the selecter stands behind its list: the next call, on any piece,
-- reads `strs[strs_len]`, outside of the array.
pub select-no_match_fault :
    (str : List ℕ) (strs : List (List ℕ)) (name more : List ℕ)
    → All IsText (str ∷ strs)
    → IsText name
    → answer 0 (str ∷ strs) name ≡ no_match
    → (select (select (reset (str ∷ strs) (length (str ∷ strs))) name).1 more).0 ≡ fault
select-no_match_fault str strs name more texts t h =
    let o =
      select-Scanned [] name (reset (str ∷ strs) (length (str ∷ strs))) texts (reset-At str strs) tt
        t in
    elim o.left [
      | inl (_, past, whole) ↦ select-past _ (str ∷ strs) more past whole
      | inr at ↦ absurd (At-ne-no_match name _ at h)
    ]
