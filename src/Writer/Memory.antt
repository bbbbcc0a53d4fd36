-- ===== src/Writer/Memory.antt =====
-- Memory that is written and read at a known place.
use c_web_socket_pico_w_test.Base.{
  ℕ, zero, suc, ◌+◌, ◌^◌, ◌<◌, ◌≡◌, refl, sym, ap, ap₂, ◌∙◌, arith, true, leb, some, List, [], ◌∷◌,
  ◌++◌, length, length-append, take, drop, drop-add, get_or,
}
use c_web_socket_pico_w_test.Mask.{load32}
use c_web_socket_pico_w_test.Writer.{store, fetch32, bytes32}

pub take-front : (xs ys : List ℕ) → take (length xs) (xs ++ ys) ≡ xs
take-front [] ys = refl
take-front (x ∷ xs) ys = ap (λ l. x ∷ l) (take-front xs ys)

pub drop-front : (xs ys : List ℕ) → drop (length xs) (xs ++ ys) ≡ ys
drop-front [] ys = refl
drop-front (x ∷ xs) ys = drop-front xs ys

get_or-front :
    (xs ys : List ℕ) (i k d : ℕ) → i ≡ length xs + k → get_or (xs ++ ys) i d ≡ get_or ys k d
get_or-front [] ys i k d e = ap (λ n. get_or ys n d) {x = i} {y = k} (omega arith)
get_or-front (x ∷ xs) ys zero k d e = absurd (omega arith)
get_or-front (x ∷ xs) ys (suc i) k d e = get_or-front xs ys i k d (omega arith)

-- The bytes there are replaced by as many others.
pub store-at :
    (front old new back : List ℕ) (i : ℕ)
    → i ≡ length front
    → length old ≡ length new
    → store (front ++ (old ++ back)) i new ≡ some (front ++ (new ++ back))
unfolding store
store-at front old new back i e same =
    let fits : leb (i + length new) (length (front ++ (old ++ back))) ≡ true =
      ground (arith, length-append front (old ++ back), length-append old back) in
    let before : take i (front ++ (old ++ back)) ≡ front =
      ap (λ k. take k (front ++ (old ++ back))) e ∙ take-front front (old ++ back) in
    let behind : drop (i + length new) (front ++ (old ++ back)) ≡ back =
      ap₂ (λ k m. drop (k + m) (front ++ (old ++ back))) e (sym same)
      ∙ drop-add (length front) (length old) (front ++ (old ++ back))
      ∙ ap (drop (length old)) (drop-front front (old ++ back))
      ∙ drop-front old back in
    rw (fits, before, behind) refl

pub fetch32-at :
    (front back : List ℕ) (packed i : ℕ)
    → i ≡ length front
    → packed < 2 ^ 32
    → fetch32 (front ++ (bytes32 packed ++ back)) i ≡ some packed
unfolding fetch32 load32
fetch32-at front back packed i e small =
    let l : List ℕ = bytes32 packed ++ back in
    let fits : leb (i + 4) (length (front ++ l)) ≡ true = ground (arith, length-append front l) in
    let b0 = get_or-front front l i 0 0 (omega arith) in
    let b1 = get_or-front front l (i + 1) 1 0 (omega arith) in
    let b2 = get_or-front front l (i + 2) 2 0 (omega arith) in
    let b3 = get_or-front front l (i + 3) 3 0 (omega arith) in
    rw (fits, b0, b1, b2, b3) (ap some (omega arith))
