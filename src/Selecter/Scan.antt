-- ===== src/Selecter/Scan.antt =====
-- `bl_str_select` on one buffer: the `while` loop answers as the reference does.
use c_web_socket_pico_w_test.Base.{
  ℕ, zero, suc, ◌+◌, ◌-◌, ◌<◌, ◌≤◌, ◌≡◌, ◌≢◌, refl, sym, ◌∙◌, ap, ap₂, subst, ◌⊎◌, inl, inr,
  Bool-cases, some, List, [], ◌∷◌, ◌++◌, append_assoc, append-nil, arith, length, length-append,
  All, All-append, get_elem?, ==_iff, ◌==◌,
}
use c_web_socket_pico_w_test.Selecter.{
  Selecter, Selection, no_match, fault, Candidate, found, exhausted, outside, char_at, next_match,
  finish, scan, select,
}
use c_web_socket_pico_w_test.Selecter.Reference.{
  IsText, NoPrefix, NoPrefix-append, NoPrefix-other, NoPrefix-longer, judge, answer, char_at-append,
  answer-none, answer-found, All-NoPrefix-append, All-middle, All-append_right,
}
use c_web_socket_pico_w_test.Selecter.Search.{Ends, next_match-Ends, get_elem?-middle}

-- `s` has matched `name` against a string of `strs`, and none before that string begins with `full`.
pub record At (strs : List (List ℕ)) (name full : List ℕ) (s : Selecter) : Type 0 where
  pub before : List (List ℕ)
  pub after : List (List ℕ)
  pub rest : List ℕ
  pub whole : s.strs ≡ strs
  pub split : strs ≡ before ++ (name ++ rest) ∷ after
  pub counted : s.strs_len ≡ length strs
  pub listed : s.list_index ≡ length before
  pub eaten : s.str_index ≡ length name
  pub skipped : All (NoPrefix full) before

-- What a call leaves: the answer to the whole input, and a selecter that can go on or is spent.
pub record Scanned (strs : List (List ℕ)) (full : List ℕ) (o : Selection × Selecter) : Type 0 where
  pub answered : o.0 ≡ answer 0 strs full
  pub left :
      ((o.0 ≡ no_match) × (o.1.list_index ≡ length strs) × (o.1.strs ≡ strs))
      ⊎ At strs full full o.1

finish-rest :
    (s : Selecter) (str rest : List ℕ) (later : Selection)
    → IsText rest
    → char_at str s.str_index ≡ char_at rest 0
    → finish s str ≡ (judge s.list_index (some rest) later, s)
unfolding finish char_at
finish-rest s str [] later t e = rw (finish, e)
finish-rest s str (c ∷ rest) later t e = ground arith

-- What `scan` does with the string that the search found.
resume : ℕ → Selecter → List ℕ → Candidate → Selection × Selecter
resume fuel s buf (found i str) = scan fuel (record s { list_index = i }) str buf
resume fuel s buf (exhausted i) = (no_match, record s { list_index = i })
resume fuel s buf outside = (fault, s)

scan-eat :
    (fuel : ℕ) (s : Selecter) (str : List ℕ) (c : ℕ) (buf : List ℕ)
    → c ≢ 0
    → char_at str s.str_index ≡ some c
    → scan (suc fuel) s str (c ∷ buf) ≡ scan fuel (record s { str_index = s.str_index + 1 }) str buf
unfolding scan
scan-eat fuel s str c buf text e = ground arith

scan-retry :
    (fuel : ℕ) (s : Selecter) (str : List ℕ) (c d : ℕ) (buf : List ℕ)
    → d ≢ c
    → char_at str s.str_index ≡ some d
    → scan (suc fuel) s str (c ∷ buf)
      ≡ resume fuel s (c ∷ buf) (next_match (s.strs_len - s.list_index) s str s.list_index)
unfolding scan resume
scan-retry fuel s str c d buf ne e = ground arith

char_at-nil : char_at [] 0 ≡ some 0
unfolding char_at
char_at-nil = refl

char_at-cons : (c : ℕ) (rest : List ℕ) → char_at (c ∷ rest) 0 ≡ some c
unfolding char_at
char_at-cons c rest = refl

pub List-cases {ℓ} : {A : Type ℓ} (l : List A) → (l ≡ []) ⊎ ((x : A) × (r : List A) × (l ≡ x ∷ r))
List-cases [] = inl refl
List-cases (x ∷ r) = inr (x, r, refl)

module _ {strs : List (List ℕ)} {full : List ℕ} (texts : All IsText strs) where
  rest-IsText : {name : List ℕ} {s : Selecter} (at : At strs name full s) → IsText at.rest
  rest-IsText {name} at =
      All-append_right (λ c. c ≢ 0) name at.rest
        (All-middle IsText at.before (name ++ at.rest) at.after (subst (All IsText) at.split texts))

  finish-Scanned :
      (s : Selecter) (at : At strs full full s) → Scanned strs full (finish s (full ++ at.rest))
  finish-Scanned s at =
      let later : Selection = answer (length at.before + 1) at.after full in
      let ends : finish s (full ++ at.rest) ≡ (judge s.list_index (some at.rest) later, s) =
        finish-rest s (full ++ at.rest) at.rest later (rest-IsText at)
          (ap (char_at (full ++ at.rest)) at.eaten ∙ char_at-append full at.rest) in
      rw ends (record {
        answered =
            ap (λ k. judge k (some at.rest) later) at.listed
            ∙ sym (answer-found at.before at.after full at.rest at.skipped)
            ∙ ap (λ l. answer 0 l full) (sym at.split);
        left = inr at;
      })

  at_end :
      (s : Selecter) (name str : List ℕ) (at : At strs name full s)
      → str ≡ name ++ at.rest
      → char_at str s.str_index ≡ char_at at.rest 0
  at_end s name str at p = ap₂ char_at p at.eaten ∙ char_at-append name at.rest

  -- The byte that matched joins `name`.
  eat :
      (s : Selecter) (name : List ℕ) (c : ℕ) (rest : List ℕ) (at : At strs name full s)
      → at.rest ≡ c ∷ rest
      → At strs (name ++ c ∷ []) full (record s { str_index = s.str_index + 1 })
  eat s name c rest at more = record {
    before = at.before;
    after = at.after;
    rest = rest;
    whole = at.whole;
    split =
        at.split
        ∙ ap (λ r. at.before ++ r ∷ at.after)
            (ap (λ r. name ++ r) more ∙ sym (append_assoc name (c ∷ []) rest));
    counted = at.counted;
    listed = at.listed;
    eaten = omega (arith, at.eaten, length-append name (c ∷ []));
    skipped = at.skipped;
  }

  scan-end :
      (s : Selecter) (name str : List ℕ) (at : At strs name full s)
      → str ≡ name ++ at.rest
      → name ++ [] ≡ full
      → Scanned strs full (finish s str)
  scan-end s name str at p e =
      let q : name ≡ full = sym (append-nil name) ∙ e in
      rw (p ∙ ap (λ n. n ++ at.rest) q) (
        finish-Scanned s (record {
          before = at.before;
          after = at.after;
          rest = at.rest;
          whole = at.whole;
          split = at.split ∙ ap (λ n. at.before ++ (n ++ at.rest) ∷ at.after) q;
          counted = at.counted;
          listed = at.listed;
          eaten = at.eaten ∙ ap length q;
          skipped = at.skipped;
        }))

  -- Every string is ruled out when the one at hand and those behind it are.
  spent-Scanned :
      (s : Selecter) (name : List ℕ) (c : ℕ) (buf : List ℕ) (at : At strs name full s)
      → name ++ c ∷ buf ≡ full
      → NoPrefix (name ++ c ∷ []) (name ++ at.rest)
      → All (NoPrefix name) at.after
      → (i : ℕ) → i ≡ s.list_index + length at.after + 1
      → Scanned strs full (no_match, record s { list_index = i })
  spent-Scanned s name c buf at e np none_after i p =
      let whole_buf : (name ++ c ∷ []) ++ buf ≡ full = append_assoc name (c ∷ []) buf ∙ e in
      let here : NoPrefix full (name ++ at.rest) =
        subst (λ f. NoPrefix f (name ++ at.rest)) whole_buf
          (NoPrefix-append (name ++ c ∷ []) buf (name ++ at.rest) np) in
      let behind : All (NoPrefix full) at.after =
        subst (λ f. All (NoPrefix f) at.after) e
          (All-NoPrefix-append name (c ∷ buf) at.after none_after) in
      let none_left : All (NoPrefix full) strs = subst (All (NoPrefix full)) (sym at.split) (
        All-append (NoPrefix full) at.before ((name ++ at.rest) ∷ at.after) at.skipped
          (here, behind)) in
      record {
        answered = sym (answer-none strs full none_left);
        left = inl (
          refl,
          omega (
            arith,
            at.listed,
            p,
            ap length at.split,
            length-append at.before ((name ++ at.rest) ∷ at.after),
          ),
          at.whole,
        );
      }

  -- After a mismatch the loop is at the next string that begins with `name`, or is done.
  retry-Scanned :
      (fuel : ℕ) (s : Selecter) (name : List ℕ) (c : ℕ) (buf : List ℕ) (at : At strs name full s)
      → ((s' : Selecter) (str' : List ℕ) (at' : At strs name full s')
          → str' ≡ name ++ at'.rest
          → length at'.after < length at.after
          → Scanned strs full (scan fuel s' str' (c ∷ buf)))
      → name ++ c ∷ buf ≡ full
      → IsText name
      → NoPrefix (name ++ c ∷ []) (name ++ at.rest)
      → (cand : Candidate) → Ends name at.after s.list_index cand
      → Scanned strs full (resume fuel s (c ∷ buf) cand)
  unfolding resume Ends
  retry-Scanned fuel s name c buf at ih e t np cand (inl (found_none, all)) =
      rw found_none
        (spent-Scanned s name c buf at e np all (s.list_index + length at.after + 1) refl)
  retry-Scanned fuel s name c buf at ih e t np cand (inr (skip, rest, after, at_next, split, all)) =
      rw at_next (
        ih (record s { list_index = s.list_index + length skip + 1 }) (name ++ rest) next refl
          (omega (arith, ap length split, length-append skip ((name ++ rest) ∷ after))))
    where
      here : NoPrefix full (name ++ at.rest)
      here =
          subst (λ f. NoPrefix f (name ++ at.rest)) (append_assoc name (c ∷ []) buf ∙ e)
            (NoPrefix-append (name ++ c ∷ []) buf (name ++ at.rest) np)

      next : At strs name full (record s { list_index = s.list_index + length skip + 1 })
      next = record {
        before = at.before ++ (name ++ at.rest) ∷ skip;
        after = after;
        rest = rest;
        whole = at.whole;
        split =
            at.split
            ∙ ap (λ l. at.before ++ (name ++ at.rest) ∷ l) split
            ∙ sym (append_assoc at.before ((name ++ at.rest) ∷ skip) ((name ++ rest) ∷ after));
        counted = at.counted;
        listed = omega (arith, at.listed, length-append at.before ((name ++ at.rest) ∷ skip));
        eaten = at.eaten;
        skipped = All-append (NoPrefix full) at.before ((name ++ at.rest) ∷ skip) at.skipped (
          here,
          subst (λ f. All (NoPrefix f) skip) e (All-NoPrefix-append name (c ∷ buf) skip all),
        );
      }

  mismatch-Scanned :
      (fuel : ℕ) (s : Selecter) (name str : List ℕ) (c d : ℕ) (buf : List ℕ)
      (at : At strs name full s)
      → ((s' : Selecter) (str' : List ℕ) (at' : At strs name full s')
          → str' ≡ name ++ at'.rest
          → length at'.after < length at.after
          → Scanned strs full (scan fuel s' str' (c ∷ buf)))
      → str ≡ name ++ at.rest
      → name ++ c ∷ buf ≡ full
      → IsText name
      → d ≢ c
      → char_at str s.str_index ≡ some d
      → NoPrefix (name ++ c ∷ []) (name ++ at.rest)
      → Scanned strs full (scan (suc fuel) s str (c ∷ buf))
  mismatch-Scanned fuel s name str c d buf at ih p e t ne ch np =
      let length_strs : length strs ≡ length at.before + 1 + length at.after =
        omega (arith, ap length at.split, length-append at.before ((name ++ at.rest) ∷ at.after)) in
      let ends : Ends name at.after s.list_index
          (next_match (s.strs_len - s.list_index) s (name ++ at.rest) s.list_index) =
        next_match-Ends s name at.rest t at.eaten at.before (name ++ at.rest) at.after
          (s.strs_len - s.list_index) s.list_index (at.whole ∙ at.split) at.listed (omega arith)
          (omega arith) in
      rw (scan-retry fuel s str c d buf ne ch) (
        retry-Scanned fuel s name c buf at ih e t np
          (next_match (s.strs_len - s.list_index) s str s.list_index) (rw p ends))

  scan-Scanned :
      (fuel : ℕ) (s : Selecter) (name str buf : List ℕ) (at : At strs name full s)
      → str ≡ name ++ at.rest
      → name ++ buf ≡ full
      → IsText name
      → IsText buf
      → length buf + length at.after ≤ fuel
      → Scanned strs full (scan fuel s str buf)
  unfolding eat
  scan-Scanned zero s name str [] at p e t u h = unfold scan in scan-end s name str at p e
  scan-Scanned (suc fuel) s name str [] at p e t u h = unfold scan in scan-end s name str at p e
  scan-Scanned zero s name str (c ∷ buf) at p e t u h = absurd (omega arith)
  scan-Scanned (suc fuel) s name str (c ∷ buf) at p e t u h = elim (List-cases at.rest) [
    | inl none_left ↦
        mismatch-Scanned fuel s name str c 0 buf at
          (λ s' str' at' q l. scan-Scanned fuel s' name str' (c ∷ buf) at' q e t u (omega arith)) p
          e t (λ z. u.0 (sym z))
          (at_end s name str at p ∙ ap (λ r. char_at r 0) none_left ∙ char_at-nil)
          (rw none_left (NoPrefix-longer name c))
    | inr (d, rest, more) ↦ elim (Bool-cases (d == c)) [
      | inl same ↦
          rw
            (scan-eat fuel s str c buf u.0 (
              at_end s name str at p
              ∙ ap (λ r. char_at r 0) more
              ∙ char_at-cons d rest
              ∙ ap some ((==_iff d c).0 same)))
            (scan-Scanned fuel (record s { str_index = s.str_index + 1 }) (name ++ c ∷ []) str buf
              (eat s name c rest at (more ∙ ap (λ x. x ∷ rest) ((==_iff d c).0 same)))
              (p
                ∙ ap (λ r. name ++ r) (more ∙ ap (λ x. x ∷ rest) ((==_iff d c).0 same))
                ∙ sym (append_assoc name (c ∷ []) rest))
              (append_assoc name (c ∷ []) buf ∙ e)
              (All-append (λ x. x ≢ 0) name (c ∷ []) t (u.0, tt)) u.1 (omega arith))
      | inr other ↦
          mismatch-Scanned fuel s name str c d buf at
            (λ s' str' at' q l. scan-Scanned fuel s' name str' (c ∷ buf) at' q e t u (omega arith))
            p e t (λ z. absurd (ground arith))
            (at_end s name str at p ∙ ap (λ r. char_at r 0) more ∙ char_at-cons d rest)
            (rw more (NoPrefix-other name c d rest (λ z. absurd (ground arith))))
    ]
  ]

  select-eq-scan :
      (s : Selecter) (name buf : List ℕ) (at : At strs name full s)
      → select s buf ≡ scan (length buf + s.strs_len + 1) s (name ++ at.rest) buf
  unfolding select
  select-eq-scan s name buf at =
      let here : get_elem? s.strs s.list_index ≡ some (name ++ at.rest) =
        ap₂ get_elem? (at.whole ∙ at.split) at.listed
        ∙ get_elem?-middle at.before (name ++ at.rest) at.after in
      rw (here, select)

pub select-Scanned :
    {strs : List (List ℕ)} (done buf : List ℕ) (s : Selecter)
    → All IsText strs
    → At strs done done s
    → IsText done
    → IsText buf
    → Scanned strs (done ++ buf) (select s buf)
select-Scanned {strs} done buf s texts at t u =
    let on : At strs done (done ++ buf) s = record {
      before = at.before;
      after = at.after;
      rest = at.rest;
      whole = at.whole;
      split = at.split;
      counted = at.counted;
      listed = at.listed;
      eaten = at.eaten;
      skipped = All-NoPrefix-append done buf at.before at.skipped;
    } in
    rw (select-eq-scan texts s done buf on) (
      scan-Scanned texts (length buf + s.strs_len + 1) s done (done ++ at.rest) buf on refl refl t u
        (omega (
          arith,
          ap length at.split,
          at.counted,
          length-append at.before ((done ++ at.rest) ∷ at.after),
        )))
