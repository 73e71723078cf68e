-- ===== src/Storage/DataStore/Overlay.antt =====
-- Bytes laid over a view, and the places of a flat sequence in files of one size: the arithmetic of
-- `src/storage/default_data_store.cpp`.
use native.Mathlib.Nat.{
  mod-lt, mod-eq_of_lt, mul-add-mod_self_right, mul-add-div_right, div-eq_of_lt, div-add-mod',
}
use uh_core.Base.{
  ℕ, zero, suc, ◌+◌, ◌-◌, ◌*◌, ◌/◌, ◌%◌, ◌≤◌, ◌<◌, ◌≡◌, refl, ap, sym, ◌∙◌, inl, inr, List, [], ◌∷◌,
  ◌++◌, arith, ltb, Bool-cases, length, length-append,
}
use uh_core.Storage.DataStore.{nth, overlay}

nth-append_left : (xs ys : List ℕ) (i : ℕ) → i < length xs → nth (xs ++ ys) i ≡ nth xs i
nth-append_left [] ys i h = absurd (omega arith)
nth-append_left (x ∷ xs) ys zero h = refl
nth-append_left (x ∷ xs) ys (suc i) h = nth-append_left xs ys i (omega arith)

nth-append_right : (xs ys : List ℕ) (i : ℕ) → nth (xs ++ ys) (length xs + i) ≡ nth ys i
nth-append_right [] ys i = ap (nth ys) (omega arith)
nth-append_right (x ∷ xs) ys i =
    let sum : suc (length xs) + i ≡ suc (length xs + i) = omega arith in
    rw sum (nth-append_right xs ys i)

-- Inside and outside of what is laid over.
pub overlay_inside :
    (view : ℕ → ℕ) (p : ℕ) (bytes : List ℕ) (j : ℕ)
    → p ≤ j
    → j < p + length bytes
    → overlay view p bytes j ≡ nth bytes (j - p)
overlay_inside view p bytes j h k = ground arith

pub overlay_before :
    (view : ℕ → ℕ) (p : ℕ) (bytes : List ℕ) (j : ℕ) → j < p → overlay view p bytes j ≡ view j
overlay_before view p bytes j h = ground arith

pub overlay_behind :
    (view : ℕ → ℕ) (p : ℕ) (bytes : List ℕ) (j : ℕ)
    → p + length bytes ≤ j
    → overlay view p bytes j ≡ view j
overlay_behind view p bytes j h = ground arith

-- Two parts laid over one after the other.
pub overlay-append :
    (view view' : ℕ → ℕ) (p : ℕ) (xs ys : List ℕ) (j : ℕ)
    → ((i : ℕ) → view' i ≡ overlay view p xs i)
    → overlay view' (p + length xs) ys j ≡ overlay view p (xs ++ ys) j
overlay-append view view' p xs ys j first =
    let len = length-append xs ys in
    elim (Bool-cases (ltb j (p + length xs))) [
      | inl front ↦
          overlay_before view' (p + length xs) ys j (ground arith)
          ∙ first j
          ∙ (elim (Bool-cases (ltb j p)) [
            | inl before ↦
                overlay_before view p xs j (ground arith)
                ∙ sym (overlay_before view p (xs ++ ys) j (ground arith))
            | inr inside ↦
                overlay_inside view p xs j (ground arith) (ground arith)
                ∙ sym (nth-append_left xs ys (j - p) (ground arith))
                ∙ sym (overlay_inside view p (xs ++ ys) j (ground arith) (ground arith))
          ])
      | inr back ↦ elim (Bool-cases (ltb j (p + length xs + length ys))) [
        | inl inside ↦
            let place : j - p ≡ length xs + (j - (p + length xs)) = ground arith in
            overlay_inside view' (p + length xs) ys j (ground arith) (ground arith)
            ∙ sym (nth-append_right xs ys (j - (p + length xs)))
            ∙ ap (nth (xs ++ ys)) (sym place)
            ∙ sym (overlay_inside view p (xs ++ ys) j (ground arith) (ground arith))
        | inr behind ↦
            overlay_behind view' (p + length xs) ys j (ground arith)
            ∙ first j
            ∙ overlay_behind view p xs j (ground arith)
            ∙ sym (overlay_behind view p (xs ++ ys) j (ground arith))
      ]
    ]

-- Files of `n` bytes.
module _ (n : ℕ) (some_bytes : 0 < n) where
  -- The places behind `p` that lie in the same file.
  pub same_file :
      (p j : ℕ) → p ≤ j → j < p + (n - p % n) → (j / n ≡ p / n) × (j % n ≡ p % n + (j - p))
  same_file p j h k =
      let whole = div-add-mod' p n in
      let less = mod-lt p some_bytes in
      let r = p % n + (j - p) in
      let small : r < n = omega arith in
      let sum : j ≡ p / n * n + r = omega arith in
      (
        ap (λ (t : ℕ). t / n) sum
            ∙ mul-add-div_right some_bytes (p / n) r
            ∙ omega (arith, div-eq_of_lt small),
        ap (λ (t : ℕ). t % n) sum ∙ mul-add-mod_self_right (p / n) n r ∙ mod-eq_of_lt small,
      )

  -- A place of the same file is found by its offset.
  pub file_place : (p j : ℕ) → j / n ≡ p / n → j + p % n ≡ p + j % n
  file_place p j same =
      let whole = div-add-mod' p n in
      let whole' = div-add-mod' j n in let scaled = ap (λ (t : ℕ). t * n) same in omega arith
