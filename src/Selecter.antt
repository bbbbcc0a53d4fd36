-- ===== src/Selecter.antt =====
-- bufferless_str.c, `bl_str_select` and `bl_str_reset`: which string of a list a name is, fed in
-- pieces and never buffered. A C string is the list of its bytes before the NUL.
pub mod Reference
pub mod Search
pub mod Scan
pub mod Stream
mod Examples
use c_web_socket_pico_w_test.Base.{
  ℕ, zero, suc, ◌+◌, ◌-◌, Bool, true, false, Option, none, some, List, [], ◌∷◌, ◌==◌, leb,
  if◌then◌else◌, get_elem?, length,
}

-- `typedef struct bl_str_selecter_`.
pub record Selecter : Type 0 where
  pub strs : List (List ℕ)
  pub strs_len : ℕ
  pub list_index : ℕ
  pub str_index : ℕ

-- The `int` that `bl_str_select` returns; `fault` is a read outside of an array, and `stuck` a
-- loop that ran out of fuel.
pub data Selection : Type 0 where
  index : ℕ → Selection
  no_match_yet no_match fault stuck : Selection

-- `str[i]`: the byte there, the NUL behind the last byte, and nothing past the NUL.
unfoldable pub char_at : List ℕ → ℕ → Option ℕ
char_at [] zero = some 0
char_at [] (suc i) = none
char_at (c ∷ str) zero = some c
char_at (c ∷ str) (suc i) = char_at str i

-- `strncmp(a, b, n) == 0`.
unfoldable pub strncmp_eq : List ℕ → List ℕ → ℕ → Bool
strncmp_eq a b zero = true
strncmp_eq [] [] (suc n) = true
strncmp_eq [] (y ∷ b) (suc n) = y == 0
strncmp_eq (x ∷ a) [] (suc n) = x == 0
strncmp_eq (x ∷ a) (y ∷ b) (suc n) = if x == y then strncmp_eq a b n else false

-- How the inner loop ends: at a string, or past the list; it has moved `list_index` either way.
pub data Candidate : Type 0 where
  found : ℕ → List ℕ → Candidate
  exhausted : ℕ → Candidate
  outside : Candidate

-- The `do … while` on the next string that begins as `str` does, with `strs_len - list_index`
-- rounds left.
unfoldable pub next_match : ℕ → Selecter → List ℕ → ℕ → Candidate
next_match zero s str i = exhausted (i + 1)
next_match (suc left) s str i =
    let rest = next_match left s str (i + 1) in
    if leb s.strs_len (i + 1) then exhausted (i + 1) else elim (get_elem? s.strs (i + 1)) [
      | none ↦ outside
      | some candidate ↦
          if strncmp_eq candidate str s.str_index then found (i + 1) candidate else rest
    ]

-- The end of `buf`: `if (!str[selecter->str_index])`.
unfoldable pub finish : Selecter → List ℕ → Selection × Selecter
finish s str = elim (char_at str s.str_index) [
  | none ↦ (fault, s)
  | some c ↦ (if c == 0 then index s.list_index else no_match_yet, s)
]

-- The `while` loop, on what is left of `buf`.
unfoldable pub scan : ℕ → Selecter → List ℕ → List ℕ → Selection × Selecter
scan fuel s str [] = finish s str
scan zero s str (c ∷ buf) = (stuck, s)
scan (suc fuel) s str (c ∷ buf) = elim (char_at str s.str_index) [
  | none ↦ (fault, s)
  | some d ↦
      let eaten = scan fuel (record s { str_index = s.str_index + 1 }) str buf in
      let retry : Selection × Selecter =
        elim (next_match (s.strs_len - s.list_index) s str s.list_index) [
          | found i str' ↦ scan fuel (record s { list_index = i }) str' (c ∷ buf)
          | exhausted i ↦ (no_match, record s { list_index = i })
          | outside ↦ (fault, s)
        ] in
      if d == c then (if c == 0 then (index s.list_index, s) else eaten) else retry
]

-- A round takes a byte of `buf` or a string off the list, so this fuel is enough.
unfoldable pub select : Selecter → List ℕ → Selection × Selecter
select s buf = elim (get_elem? s.strs s.list_index) [
  | none ↦ (fault, s)
  | some str ↦ scan (length buf + s.strs_len + 1) s str buf
]

-- `bl_str_reset`.
unfoldable pub reset : List (List ℕ) → ℕ → Selecter
reset strs strs_len = record { strs = strs; strs_len = strs_len; list_index = 0; str_index = 0 }
