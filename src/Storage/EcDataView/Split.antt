-- ===== src/Storage/EcDataView/Split.antt =====
-- `get_aligned_address` of `src/storage/group/ec_data_view.cpp`: the pieces stand for the same bytes,
-- and none goes on into a second chunk.
use uh_core.Base.{
  ℕ, ◌+◌, ◌-◌, ◌≤◌, ◌<◌, ◌≡◌, refl, ap, sym, ◌∙◌, some, List, [], ◌∷◌, ◌++◌, arith, word,
  append_assoc, append-nil,
}
use uh_core.Types.Fragment.{Fragment, frag_bytes, span}
use uh_core.Types.Address.{Address, append, empty_address}
use uh_core.Types.Address.Bytes.{bytes, list_bytes, bytes-append}
use uh_core.Storage.EcDataView.Pieces.{
  AllInside, AllRoom, AllUpTo, AllFilled, split_fragment-IsSplit,
}
use uh_core.Storage.EcDataView.{split_fragment, aligned_from, get_aligned_address}

-- No fragment is empty, and every fragment ends a stripe below 2^64.
abbrev pub AllSmall : ℕ → List Fragment → Type 0
AllSmall stripe [] = Unit {0}
AllSmall stripe (f ∷ fs) = (0 < f.size) × (f.pointer + f.size + stripe ≤ word) × AllSmall stripe fs

AllSmall-append :
    (stripe : ℕ) (xs ys : List Fragment)
    → AllSmall stripe xs
    → AllSmall stripe ys
    → AllSmall stripe (xs ++ ys)
AllSmall-append stripe [] ys h k = k
AllSmall-append stripe (x ∷ xs) ys (h, i, hs) k = (h, i, AllSmall-append stripe xs ys hs k)

module _ (chunk : ℕ) (some_chunk : 0 < chunk) where
  AllInside-append :
      (xs ys : List Fragment) → AllInside chunk xs → AllInside chunk ys → AllInside chunk (xs ++ ys)
  AllInside-append [] ys h k = k
  AllInside-append (x ∷ xs) ys (h, hs) k = (h, AllInside-append xs ys hs k)

  filled-AllSmall :
      (stripe end : ℕ) (fs : List Fragment)
      → AllUpTo chunk end fs
      → AllFilled chunk fs
      → end + stripe ≤ word
      → AllSmall stripe fs
  filled-AllSmall stripe end [] up filled h = tt
  filled-AllSmall stripe end (f ∷ fs) (u, up) (nonempty, filled) h =
      (nonempty, omega arith, filled-AllSmall stripe end fs up filled h)

  aligned_from-round :
      (aligned : Address) (f : Fragment) (fs as' : List Fragment)
      → split_fragment chunk f.pointer f.size ≡ some as'
      → aligned_from chunk aligned (f ∷ fs)
        ≡ aligned_from chunk (append aligned (record { fragments = as' })) fs
  unfolding aligned_from
  aligned_from-round aligned f fs as' e = rw (e, aligned_from) refl

  aligned_from-bytes :
      (aligned : Address) (fs : List Fragment)
      → AllInside chunk aligned.fragments
      → AllRoom chunk fs
      → chunk < word
      → (a : Address) × (aligned_from chunk aligned fs ≡ some a)
        × (bytes a ≡ bytes aligned ++ list_bytes fs)
        × AllInside chunk a.fragments
        × ((stripe : ℕ)
            → AllSmall stripe aligned.fragments
            → AllSmall stripe fs
            → AllSmall stripe a.fragments)
  aligned_from-bytes aligned [] inside room small = (
    aligned,
    unfold aligned_from in refl,
    sym (append-nil (bytes aligned)),
    inside,
    λ stripe h k. h,
  )
  aligned_from-bytes aligned (f ∷ fs) inside (room, rooms) small =
      let (as', e, (covers, pieces, up), filled) =
        split_fragment-IsSplit chunk some_chunk f.pointer f.size room small in
      let whole : f.pointer + f.size - f.pointer ≡ f.size = omega arith in
      let next : Address = append aligned (record { fragments = as' }) in
      let (a, done, all, within, below) =
        aligned_from-bytes next fs
          (unfold append in AllInside-append aligned.fragments as' inside pieces) rooms small in
      (
        a,
        aligned_from-round aligned f fs as' e ∙ done,
        all
            ∙ ap (λ t. t ++ list_bytes fs)
                ((bytes-append aligned (record { fragments = as' })).0
                  ∙ ap (◌++◌ (bytes aligned)) (covers ∙ ap (span f.pointer) whole))
            ∙ append_assoc (bytes aligned) (frag_bytes f) (list_bytes fs),
        within,
        λ stripe h (nonempty, high, later).
            below stripe
              (unfold append in
                AllSmall-append stripe aligned.fragments as' h
                  (filled-AllSmall stripe (f.pointer + f.size) as' up (filled nonempty) high))
              later,
      )

  pub get_aligned_address-AllSmall :
      (addr : Address)
      → AllRoom chunk addr.fragments
      → chunk < word
      → (a : Address) × (get_aligned_address chunk addr ≡ some a)
        × (bytes a ≡ bytes addr)
        × AllInside chunk a.fragments
        × ((stripe : ℕ) → AllSmall stripe addr.fragments → AllSmall stripe a.fragments)
  unfolding get_aligned_address
  get_aligned_address-AllSmall addr room small =
      let (a, done, same, inside, below) =
        aligned_from-bytes empty_address addr.fragments tt room small in
      (a, done, same, inside, λ stripe h. below stripe tt h)

  -- `get_aligned_address` ends, and its address stands for the same bytes as the given one, in
  -- fragments that each lie inside one chunk: for chunks below 2^64 bytes and fragments that end at
  -- least a chunk below the top of the pointer space.
  pub get_aligned_address-bytes :
      (addr : Address)
      → AllRoom chunk addr.fragments
      → chunk < word
      → (a : Address) × (get_aligned_address chunk addr ≡ some a)
        × (bytes a ≡ bytes addr)
        × AllInside chunk a.fragments
  get_aligned_address-bytes addr room small =
      let (a, done, same, inside, below) = get_aligned_address-AllSmall addr room small in
      (a, done, same, inside)
