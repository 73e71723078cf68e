-- ===== src/Storage/EcDataView/Stripes.antt =====
-- The loop of `write` of `src/storage/group/ec_data_view.cpp`: what each storage of the group is
-- given. `encode` stands for `reedsolomon_c::encode`: the parity chunks of the data chunks of a stripe.
use uh_core.Base.{
  ℕ, zero, suc, ◌+◌, ◌-◌, ◌/◌, ◌%◌, Option, none, some, List, [], ◌∷◌, ◌++◌, ◌==◌, if◌then◌else◌,
  length, take, drop, get_elem?,
}

-- `div_ceil` of `src/common/utils/integral.h`.
unfoldable pub div_ceil : ℕ → ℕ → ℕ
div_ceil x y = x / y + (if x % y == 0 then 0 else 1)

abbrev pub zeros : ℕ → List ℕ
zeros zero = []
zeros (suc n) = 0 ∷ zeros n

-- The last stripe is filled up with zeros.
abbrev pub padded : ℕ → List ℕ → List ℕ
padded stripe_size xs = xs ++ zeros (stripe_size - length xs)

-- The stripes of the data, `n` in number.
unfoldable pub stripes : ℕ → ℕ → List ℕ → List (List ℕ)
stripes stripe_size zero bytes = []
stripes stripe_size (suc n) bytes =
    padded stripe_size (take stripe_size bytes) ∷ stripes stripe_size n (drop stripe_size bytes)

-- `split_buffer`: the first `n` chunks of a stripe.
unfoldable pub split_buffer : ℕ → ℕ → List ℕ → List (List ℕ)
split_buffer chunk zero stripe = []
split_buffer chunk (suc n) stripe = take chunk stripe ∷ split_buffer chunk n (drop chunk stripe)

abbrev pub or_empty : Option (List ℕ) → List ℕ
or_empty none = []
or_empty (some view) = view

abbrev pub nth : List (List ℕ) → ℕ → List ℕ
nth views j = or_empty (get_elem? views j)

-- What is pushed for storage `j`, stripe by stripe; `views` gives the chunks of a stripe.
unfoldable pub storage_buffer : (List ℕ → List (List ℕ)) → ℕ → List (List ℕ) → List ℕ
storage_buffer views j [] = []
storage_buffer views j (s ∷ ss) = nth (views s) j ++ storage_buffer views j ss

abbrev pub buffers_from : (List ℕ → List (List ℕ)) → ℕ → ℕ → List (List ℕ) → List (List ℕ)
buffers_from views j zero ss = []
buffers_from views j (suc n) ss = storage_buffer views j ss ∷ buffers_from views (suc j) n ss

-- `storage_buffers_view`: first the data shards, then the parity shards.
unfoldable pub storage_buffers :
    (List (List ℕ) → List (List ℕ))
    → (data_shards parity_shards chunk stripe_size : ℕ) → List ℕ
    → List (List ℕ)
unfolding stripes split_buffer storage_buffer div_ceil
storage_buffers encode data_shards parity_shards chunk stripe_size bytes =
    let ss = stripes stripe_size (div_ceil (length bytes) stripe_size) bytes in
    buffers_from (split_buffer chunk data_shards) 0 data_shards ss
    ++ buffers_from (λ s. encode (split_buffer chunk data_shards s)) 0 parity_shards ss
