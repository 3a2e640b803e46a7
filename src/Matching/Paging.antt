-- ===== src/Matching/Paging.antt =====
-- The paging of `fetchChannels` in cmd/chantools/zombierecovery_findmatches.go.
use chantools.Prelude.{
  ℕ, zero, suc, ◌+◌, ◌*◌, ◌≤◌, ◌<◌, List, [], ◌∷◌, ◌++◌, some, ok, ltb, length, ◌≡◌, refl, sym, ◌∙◌,
  ap, subst, append_assoc, Bool-cases, inl, inr, arith,
}
use chantools.Prelude.Text.{Text}
use chantools.Matching.{GqChannel, Answer, page, on_answer, fetch_loop, fetch_channels}

module _ {A : Type 0} where
  abbrev pub take : ℕ → List A → List A
  take zero xs = []
  take (suc n) [] = []
  take (suc n) (x ∷ xs) = x ∷ take n xs

  abbrev pub drop : ℕ → List A → List A
  drop zero xs = xs
  drop (suc n) [] = []
  drop (suc n) (x ∷ xs) = drop n xs

  take-append-drop : (n : ℕ) (xs : List A) → take n xs ++ drop n xs ≡ xs
  take-append-drop zero xs = refl
  take-append-drop (suc n) [] = refl
  take-append-drop (suc n) (x ∷ xs) = ap (λ ys. x ∷ ys) (take-append-drop n xs)

  take_short : (n : ℕ) (xs : List A) → length (take n xs) < n → take n xs ≡ xs
  take_short zero xs h = absurd (omega arith)
  take_short (suc n) [] h = refl
  take_short (suc n) (x ∷ xs) h = ap (λ ys. x ∷ ys) (take_short n xs (omega arith))

  length-drop_full :
      (n : ℕ) (xs : List A) → n ≤ length (take n xs) → length (drop n xs) + n ≡ length xs
  length-drop_full zero xs h = omega arith
  length-drop_full (suc n) [] h = absurd (omega arith)
  length-drop_full (suc n) (x ∷ xs) h = omega (arith, length-drop_full n xs (omega arith))

  drop-nil : (n : ℕ) → drop n [] ≡ []
  drop-nil zero = refl
  drop-nil (suc n) = refl

  drop-drop : (o n : ℕ) (xs : List A) → drop n (drop o xs) ≡ drop (o + n) xs
  drop-drop zero n xs = ap (λ k. drop k xs) (zero_add n)
    where
      zero_add : (n : ℕ) → n ≡ 0 + n
      zero_add n = omega arith
  drop-drop (suc o) n [] = drop-nil n ∙ sym (drop-nil (suc o + n))
  drop-drop (suc o) n (x ∷ xs) = drop-drop o n xs ∙ ap (λ k. drop k (x ∷ xs)) (suc_add o n)
    where
      suc_add : (o n : ℕ) → suc (o + n) ≡ suc o + n
      suc_add o n = omega arith

module _ (query : ℕ → Text → ℕ → Answer) (pub_key : Text) (all : List GqChannel)
    (honest : (request offset : ℕ)
      → query request pub_key offset ≡ page (take 50 (drop offset all))) where
  fetch_loop-all :
      (fuel request offset : ℕ) (channels : List GqChannel)
      → length (drop offset all) < 50 * fuel
      → channels ++ drop offset all ≡ all
      → fetch_loop query pub_key fuel request offset channels ≡ some (ok all)
  unfolding fetch_loop on_answer
  fetch_loop-all zero request offset channels left sum = absurd (omega arith)
  fetch_loop-all (suc fuel) request offset channels left sum =
      rw (honest request offset) (elim (Bool-cases (ltb (length (take 50 (drop offset all))) 50)) [
        | inl last ↦ rw last (
            ap (λ cs. some (ok cs))
              (ap (λ cs. channels ++ cs) (take_short 50 (drop offset all) (ground arith)) ∙ sum))
        | inr full ↦ rw full (
            fetch_loop-all fuel (request + 1) (offset + 50) (channels ++ take 50 (drop offset all))
              (subst (λ xs. length xs < 50 * fuel) (drop-drop offset 50 all)
                (omega (arith, length-drop_full 50 (drop offset all) (ground arith))))
              (append_assoc channels (take 50 (drop offset all)) (drop (offset + 50) all)
                ∙ ap (λ xs. channels ++ xs)
                    (ap (λ xs. take 50 (drop offset all) ++ xs) (sym (drop-drop offset 50 all))
                      ∙ take-append-drop 50 (drop offset all))
                ∙ sum))
      ])

  -- From a server that answers each request with the channels of a list at the offset, at most 50 of them, all of
  -- the list is fetched, with fuel for the pages of 50 and one more.
  pub fetch_channels-all :
      (fuel : ℕ) → length all < 50 * fuel → fetch_channels query fuel pub_key ≡ some (ok all)
  unfolding fetch_channels
  fetch_channels-all fuel enough = fetch_loop-all fuel 0 0 [] enough refl
