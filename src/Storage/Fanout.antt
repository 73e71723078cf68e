-- ===== src/Storage/Fanout.antt =====
-- `run_for_all` of `src/common/coroutines/coro_util.h`: a call for each of several inputs, with its
-- place in their order. The calls run together and are awaited in order, so that the first that
-- failed decides.
use uh_core.Base.{ℕ, suc, List, [], ◌∷◌, add64}
use uh_core.Base.Result.{Result, ok, ◌>>=◌}

module _ {ℓ κ} {A : Type ℓ} {B : Type κ} (func : ℕ → A → Result B) where
  unfoldable pub run_for_all : ℕ → List A → Result (List B)
  run_for_all i [] = ok []
  run_for_all i (input ∷ inputs) =
      let rest = run_for_all (suc i) inputs in func i input >>= λ b. rest >>= λ bs. ok (b ∷ bs)

-- `std::accumulate` from 0 on, in `std::size_t`.
unfoldable pub accumulate : ℕ → List ℕ → ℕ
accumulate acc [] = acc
accumulate acc (n ∷ ns) = accumulate (add64 acc n) ns
