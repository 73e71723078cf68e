-- ===== src/Storage/EcDataView/Service.antt =====
-- The requests of `src/storage/group/ec_data_view.cpp`. A storage is asked through parameters, by
-- its place in the group; `none` stands for a call through a null pointer.
use uh_core.Base.{
  ℕ, ◌*◌, ◌%◌, ◌==◌, leb, Bool, true, false, ◌&&◌, if◌then◌else◌, Option, none, some, List, [], ◌∷◌,
  get_elem?, length, take, add64, word,
}
use uh_core.Base.Result.{Result, ok, throws, runtime_error, out_of_range, ◌>>=◌}
use uh_core.Types.Address.{Address}
use uh_core.Storage.RefCounter.{Refcount}
use uh_core.Storage.Placing.{fragments_from}
use uh_core.Storage.Fanout.{run_for_all, accumulate}
use uh_core.Storage.EcDataView.Stripes.{div_ceil, nth, storage_buffers}
use uh_core.Storage.EcDataView.Counts.{ec_extract_refcounts, ec_compute_rejected_address}

-- `m_config`, `m_chunk_size` and `m_stripe_size`.
pub record EcGroup : Type 0 where
  pub data_shards : ℕ
  pub parity_shards : ℕ
  pub storages : ℕ
  pub chunk_size : ℕ
  pub stripe_size : ℕ

-- `storages`: whether there is a client for each storage of the group.
abbrev pub all_there : List Bool → Bool
all_there [] = true
all_there (s ∷ ss) = s && all_there ss

unfoldable pub ec_compute_address : EcGroup → List ℕ → ℕ → ℕ → Address
unfolding fragments_from
ec_compute_address g offsets size allocation_offset =
    let base = allocation_offset * g.data_shards % word in
    record { fragments = fragments_from (λ o. add64 base o) size offsets }

abbrev pub is_true : Option Bool → Result Bool
is_true none = throws out_of_range
is_true (some false) = throws runtime_error
is_true (some true) = ok true

-- The checks of `leader`; `none` is a negative id.
abbrev pub check_leader : EcGroup → List Bool → Option ℕ → Result ℕ
check_leader g storages none = throws runtime_error
check_leader g storages (some leader) =
    if leb g.storages leader
    then throws runtime_error
    else is_true (get_elem? storages leader) >>= λ there. ok leader

-- What the storages were given, and the answer to the client.
pub record Write : Type 0 where
  pub offset : ℕ
  pub buffers : List (List ℕ)
  pub refcounts : List Refcount
  pub addr : Address

module _ (encode : List (List ℕ) → List (List ℕ)) (allocate : ℕ → ℕ → ℕ → Result ℕ)
    (store : ℕ → ℕ → List ℕ → List Refcount → Result (Unit {0})) (g : EcGroup) where
  -- What is written, behind the allocation at `offset`.
  abbrev pub written : List ℕ → List ℕ → ℕ → Write
  written bytes offsets offset =
      let addr = ec_compute_address g offsets (length bytes) offset in
      record {
        offset = offset;
        buffers =
            storage_buffers encode g.data_shards g.parity_shards g.chunk_size g.stripe_size bytes;
        refcounts = ec_extract_refcounts g.stripe_size addr;
        addr = addr;
      }

  -- `run_for_all` of the storages' `write`.
  abbrev pub store_all : List Bool → Write → Result Address
  store_all storages w =
      run_for_all (λ i there. store i w.offset (nth w.buffers i) w.refcounts) 0 storages >>= λ done.
      ok w.addr

  abbrev pub allocated : List ℕ → ℕ → Result ℕ
  allocated bytes leader =
      allocate leader (div_ceil (length bytes) g.stripe_size * g.chunk_size % word) g.chunk_size
      >>= λ offset. if offset % g.chunk_size == 0 then ok offset else throws runtime_error

  abbrev pub offset_of : Bool → Option ℕ → List Bool → List ℕ → Result ℕ
  offset_of healthy leader storages bytes =
      if healthy
      then (check_leader g storages leader >>= λ l. allocated bytes l)
      else throws runtime_error

  abbrev pub write_at : List Bool → List ℕ → List ℕ → Result ℕ → Option (Result Address)
  write_at storages bytes offsets (throws e) = some (throws e)
  write_at storages bytes offsets (ok offset) =
      if all_there storages then some (store_all storages (written bytes offsets offset)) else none

  unfoldable pub ec_write : Bool → Option ℕ → List Bool → List ℕ → List ℕ → Option (Result Address)
  unfolding run_for_all ec_compute_address storage_buffers ec_extract_refcounts div_ceil
  ec_write healthy leader storages bytes offsets =
      write_at storages bytes offsets (offset_of healthy leader storages bytes)

module _ (g : EcGroup) (storages : List Bool) where
  -- Every storage adds the references, or rejects some.
  unfoldable pub ec_link :
      (ℕ → List Refcount → Result (List Refcount)) → Address → Option (Result Address)
  unfolding run_for_all ec_extract_refcounts ec_compute_rejected_address
  ec_link link addr =
      let refcounts = ec_extract_refcounts g.stripe_size addr in
      let answer = run_for_all (λ i there. link i refcounts) 0 storages >>= λ rejected.
      ok (ec_compute_rejected_address g.stripe_size rejected addr) in
      if all_there storages then some answer else none

  -- The bytes that the data shards freed.
  unfoldable pub ec_unlink : (ℕ → List Refcount → Result ℕ) → Address → Option (Result ℕ)
  unfolding run_for_all accumulate ec_extract_refcounts
  ec_unlink unlink addr =
      let refcounts = ec_extract_refcounts g.stripe_size addr in
      let answer =
        run_for_all
          (λ i there. unlink i refcounts >>= λ freed. ok (if leb g.data_shards i then 0 else freed))
          0 storages
        >>= λ freed. ok (accumulate 0 freed) in
      if all_there storages then some answer else none

  -- The bytes that the data shards use; the parity shards are not asked.
  unfoldable pub ec_get_used_space : (ℕ → Result ℕ) → Option (Result ℕ)
  unfolding run_for_all accumulate
  ec_get_used_space get_used_space =
      let answer =
        run_for_all (λ i there. if leb g.data_shards i then ok 0 else get_used_space i) 0 storages
        >>= λ used. ok (accumulate 0 used) in
      if all_there (take g.data_shards storages) then some answer else none
