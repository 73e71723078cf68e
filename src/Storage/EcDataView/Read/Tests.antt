-- ===== src/Storage/EcDataView/Read/Tests.antt =====
-- `read_address` of `src/storage/group/ec_data_view.cpp` on a group of one data shard and one parity
-- shard, with chunks of two bytes, whose data storage does not answer.
use uh_core.Base.{
  ℕ, ◌^◌, ◌<◌, ◌≤◌, ◌==◌, ◌≡◌, refl, Bool, true, false, if◌then◌else◌, some, List, [], ◌∷◌, map,
  arith, length,
}
use uh_core.Base.Result.{Result, ok, throws, runtime_error}
use uh_core.Types.Address.{Address, data_size}
use uh_core.Types.Address.Bytes.{bytes}
use uh_core.Storage.EcDataView.Write.{group}
use uh_core.Storage.EcDataView.Read.{Piece, Buffer, count_true, read_address, get_stripe_ids}
use uh_core.Storage.EcDataView.Read.Stripe.{slices, byte_of, byte_at}
use uh_core.Storage.EcDataView.Read.Recover.{codes, Agrees}
use uh_core.Storage.EcDataView.Read.Total.{read_address_recovers}

positive_two : 0 < 2
positive_two = omega arith

positive_one : 0 < 1
positive_one = omega arith

-- Both storages hold the number of a stripe twice.
abbrev twice : ℕ → ℕ → List ℕ
twice stripe i = stripe ∷ stripe ∷ []

abbrev is_second : ℕ → Bool
is_second i = i == 1

abbrev second_only : ℕ → List Piece → Result (List (List ℕ))
second_only id ps =
    if is_second id
    then ok (map (slices 2 1 positive_two positive_one twice id) ps)
    else throws runtime_error

abbrev mend : List (List ℕ) → List Bool → Result (List (List ℕ))
mend (v ∷ w ∷ []) (true ∷ bs) = ok (v ∷ v ∷ [])
mend (v ∷ w ∷ []) (false ∷ true ∷ []) = ok (w ∷ w ∷ [])
mend (v ∷ w ∷ []) (false ∷ false ∷ bs) = throws runtime_error
mend (v ∷ w ∷ []) (false ∷ true ∷ b ∷ bs) = throws runtime_error
mend (v ∷ w ∷ []) (false ∷ []) = throws runtime_error
mend (v ∷ w ∷ []) [] = throws runtime_error
mend (v ∷ w ∷ x ∷ vs) bs = throws runtime_error
mend (v ∷ []) bs = throws runtime_error
mend [] bs = throws runtime_error

mend-codes :
    (stripe : ℕ) (views : List (List ℕ)) (valid : List Bool)
    → length views ≡ 2
    → Agrees (twice stripe) 0 views valid
    → 1 ≤ count_true valid
    → mend views valid ≡ ok (codes (twice stripe) 0 2)
mend-codes stripe (v ∷ w ∷ []) (true ∷ bs) n (first, rest) one = let e = first refl in rw e refl
mend-codes stripe (v ∷ w ∷ []) (false ∷ true ∷ []) n (first, (second, rest)) one =
    let e = second refl in rw e refl
mend-codes stripe (v ∷ w ∷ []) (false ∷ false ∷ []) n agrees one = absurd (ground arith)
mend-codes stripe (v ∷ w ∷ []) (false ∷ false ∷ b ∷ bs) n (first, (second, none_here)) one =
    elim none_here [ ]
mend-codes stripe (v ∷ w ∷ []) (false ∷ true ∷ b ∷ bs) n (first, (second, none_here)) one =
    elim none_here [ ]
mend-codes stripe (v ∷ w ∷ []) (false ∷ []) n (first, none_here) one = elim none_here [ ]
mend-codes stripe (v ∷ w ∷ []) [] n agrees one = elim agrees [ ]
mend-codes stripe (v ∷ w ∷ x ∷ vs) valid n agrees one = absurd (omega arith)
mend-codes stripe (v ∷ []) valid n agrees one = absurd (omega arith)
mend-codes stripe [] valid n agrees one = absurd (omega arith)

-- The last byte of one stripe and the first of the next.
abbrev two_stripes : Address
two_stripes = record { fragments = record { pointer = 1; size = 2 } ∷ [] }

abbrev empty_buffer : Buffer
empty_buffer n = 7

read_address_recovers_example :
    (b : Buffer) × (read_address
        (group 2 1 1 2)
        (λ i. true)
        second_only
        mend
        0
        two_stripes
        empty_buffer
      ≡ some (ok (data_size two_stripes, b)))
    × ((n : ℕ)
        → n < length (bytes two_stripes)
        → b n ≡ byte_at 2 1 positive_two positive_one twice (byte_of (bytes two_stripes) n))
read_address_recovers_example =
    read_address_recovers 2 1 1 2 positive_two positive_one (omega arith) twice (λ s i. refl)
      (λ i. true) is_second second_only mend runtime_error (λ id ps inside. refl) mend-codes
      two_stripes empty_buffer (omega arith) (omega arith, tt) (omega arith, omega arith, tt)
      (omega arith) (omega arith)

-- In the group 1, with stripes of six bytes, the first byte is looked for in another stripe than
-- the first: the id of the group is divided along.
stripe_of_group_1 :
    get_stripe_ids
      (group 2 3 1 4)
      1
      ((0, record { pointer = 0; size = 1; offset = 0 } ∷ []) ∷ [])
      []
    ≡ (12297829382473034410, record { pointer = 2 ^ 96; size = 1; offset = 0 } ∷ []) ∷ []
unfolding get_stripe_ids
stripe_of_group_1 = refl
