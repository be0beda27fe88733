-- ===== src/Wire/Scrollback.antt =====
-- protocols/rttx-proto/src/v3_scrollback.rs: a pane's scrollback in chunks.
use rttx.Common.{
  ℕ, zero, suc, ◌+◌, ◌-◌, ◌*◌, ◌<◌, ◌≤◌, ◌≡◌, refl, sym, ap, ◌∙◌, arith, ◌⊎◌, inl, inr, min, Bool,
  true, false, Option, none, some, List, [], ◌∷◌, ◌++◌, leb, if◌then◌else◌, length, Bool-cases,
}

abbrev pub max_chunk_size : ℕ
max_chunk_size = 256 * 1024

unfoldable pub cap_limit : ℕ → ℕ
cap_limit requested = min requested max_chunk_size

abbrev pub take : ℕ → List ℕ → List ℕ
take zero xs = []
take (suc n) [] = []
take (suc n) (x ∷ xs) = x ∷ take n xs

abbrev pub drop : ℕ → List ℕ → List ℕ
drop zero xs = xs
drop (suc n) [] = []
drop (suc n) (x ∷ xs) = drop n xs

-- The chunk and `is_last`; `scrollback[start..end]` is `take (end - start) (drop start scrollback)`.
unfoldable pub slice_scrollback : List ℕ → ℕ → ℕ → List ℕ × Bool
slice_scrollback scrollback offset limit =
    let end = min (offset + limit) (length scrollback) in
    if leb (length scrollback) offset
    then ([], true)
    else (take (end - offset) (drop offset scrollback), leb (length scrollback) end)

abbrev append_rest : List ℕ → Option (List ℕ) → Option (List ℕ)
append_rest chunk none = none
append_rest chunk (some later) = some (chunk ++ later)

-- A client that asks for `limit` bytes and moves its offset by what came, until it is told that the
-- chunk was the last. It gives up, with nothing, after `fuel` requests without a last chunk.
abbrev pub page : ℕ → List ℕ → ℕ → ℕ → Option (List ℕ)
page zero scrollback offset limit = none
page (suc fuel) scrollback offset limit =
    let chunk = slice_scrollback scrollback offset (cap_limit limit) in
    let rest = page fuel scrollback (offset + length chunk.0) limit in
    if chunk.1 then some chunk.0 else append_rest chunk.0 rest

length-drop : (n : ℕ) (xs : List ℕ) → length (drop n xs) ≡ length xs - n
length-drop zero xs = omega arith
length-drop (suc n) [] = omega arith
length-drop (suc n) (x ∷ xs) = omega (arith, length-drop n xs)

length-take : (n : ℕ) (xs : List ℕ) → length (take n xs) ≡ min n (length xs)
length-take zero xs = omega arith
length-take (suc n) [] = omega arith
length-take (suc n) (x ∷ xs) = omega (arith, length-take n xs)

take_all : (n : ℕ) (xs : List ℕ) → length xs ≤ n → take n xs ≡ xs
take_all zero [] h = refl
take_all zero (x ∷ xs) h = absurd (omega (arith, h))
take_all (suc n) [] h = refl
take_all (suc n) (x ∷ xs) h = ap (λ ys. x ∷ ys) (take_all n xs (omega (arith, h)))

drop_all : (n : ℕ) (xs : List ℕ) → length xs ≤ n → drop n xs ≡ []
drop_all zero [] h = refl
drop_all zero (x ∷ xs) h = absurd (omega (arith, h))
drop_all (suc n) [] h = refl
drop_all (suc n) (x ∷ xs) h = drop_all n xs (omega (arith, h))

take_then_drop : (n : ℕ) (xs : List ℕ) → take n xs ++ drop n xs ≡ xs
take_then_drop zero xs = refl
take_then_drop (suc n) [] = refl
take_then_drop (suc n) (x ∷ xs) = ap (λ ys. x ∷ ys) (take_then_drop n xs)

shift : (m n : ℕ) → suc (m + n) ≡ suc m + n
shift m n = omega arith

drop-drop : (n m : ℕ) (xs : List ℕ) → drop n (drop m xs) ≡ drop (m + n) xs
drop-drop n zero xs = ap (λ k. drop k xs) (omega arith)
drop-drop zero (suc m) [] = sym (drop_all (suc m + zero) [] (omega arith))
drop-drop (suc n) (suc m) [] = sym (drop_all (suc m + suc n) [] (omega arith))
drop-drop n (suc m) (x ∷ xs) = drop-drop n m xs ∙ ap (λ k. drop k (x ∷ xs)) (shift m n)

take-drop : (n m : ℕ) (xs : List ℕ) → take n (drop m xs) ++ drop (m + n) xs ≡ drop m xs
take-drop n m xs =
    ap (λ ys. take n (drop m xs) ++ ys) (sym (drop-drop n m xs)) ∙ take_then_drop n (drop m xs)

-- A chunk is the bytes from the offset on, as many as were asked for as far as they go, and it is the
-- last exactly when no byte is behind it.
pub slice_scrollback-Chunk :
    (s : List ℕ) (offset limit : ℕ)
    → ((slice_scrollback s offset limit).0 ≡ take limit (drop offset s))
      × ((slice_scrollback s offset limit).1 ≡ leb (length s) (offset + limit))
unfolding slice_scrollback
slice_scrollback-Chunk s offset limit = elim (Bool-cases (leb (length s) offset)) [
  | inl h ↦ (
    rw h (sym (ap (take limit) (drop_all offset s (ground (arith, h))) ∙ nothing limit)),
    ground (arith, h),
  )
  | inr h ↦ (rw h (short (Bool-cases (leb (length s) (offset + limit)))), ground (arith, h))
]
  where
    nothing : (n : ℕ) → take n [] ≡ []
    nothing zero = refl
    nothing (suc n) = refl

    short :
        (leb (length s) (offset + limit) ≡ true) ⊎ (leb (length s) (offset + limit) ≡ false)
        → take (min (offset + limit) (length s) - offset) (drop offset s)
          ≡ take limit (drop offset s)
    short (inl h) =
        take_all (min (offset + limit) (length s) - offset) (drop offset s)
          (ground (arith, h, length-drop offset s))
        ∙ sym (take_all limit (drop offset s) (ground (arith, h, length-drop offset s)))
    short (inr h) = ap (λ n. take n (drop offset s)) (ground (arith, h))

-- More bytes than a chunk holds ask for another request.
still_some : (fuel n : ℕ) → (0 < fuel) ⊎ (fuel * n ≡ 0)
still_some zero n = inr (omega arith)
still_some (suc fuel) n = inl (omega arith)

page_from :
    (fuel : ℕ) (s : List ℕ) (offset limit : ℕ)
    → 0 < limit
    → 0 < fuel
    → length s ≤ offset + fuel * cap_limit limit
    → page fuel s offset limit ≡ some (drop offset s)
unfolding cap_limit
page_from zero s offset limit h p k = absurd (omega (arith, p))
page_from (suc fuel) s offset limit h p k =
    elim (Bool-cases (leb (length s) (offset + cap_limit limit))) [
      | inl e ↦ ground (
        arith,
        slice_scrollback-Chunk s offset (cap_limit limit),
        take_all (cap_limit limit) (drop offset s),
        length-drop offset s,
      )
      | inr e ↦
          (let one_more : suc fuel * cap_limit limit ≡ cap_limit limit + fuel * cap_limit limit =
              grind arith in
            ground (
              arith,
              slice_scrollback-Chunk s offset (cap_limit limit),
              length-take (cap_limit limit) (drop offset s),
              length-drop offset s,
              take-drop (cap_limit limit) offset s,
              still_some fuel (cap_limit limit),
              one_more,
              page_from fuel s (offset + cap_limit limit) limit h,
            ))
    ]

-- A client that pages through a scrollback with any limit but 0 is told that a chunk was the last, and
-- has all the bytes by then, in order, none lost or doubled, after as many requests as it takes chunks
-- of that limit, at most `MAX_CHUNK_SIZE`, to hold the bytes, and one if there are none.
pub page-Reassembles :
    (s : List ℕ) (limit requests : ℕ)
    → 0 < limit
    → 0 < requests
    → length s ≤ requests * cap_limit limit
    → page requests s 0 limit ≡ some s
page-Reassembles s limit requests h p k = page_from requests s 0 limit h p (omega (arith, k))
