-- ===== src/Dedup/Fragmentation.antt =====
-- `src/deduplicator/fragmentation.h` and `fragmentation.cpp`: the list of fragments of one upload.
-- A `string_view` is its list of bytes.
use uh_core.Base.{
  ℕ, Bool, true, false, Option, none, List, [], ◌∷◌, ◌++◌, if◌then◌else◌, length, add64,
}
use uh_core.Types.Fragment.{Fragment}
use uh_core.Types.Address.{Address, empty_address}

pub data FragmentType : Type 0 where
  stored unstored : FragmentType

abbrev pub is_stored : FragmentType → Bool
is_stored stored = true
is_stored unstored = false

pub record DdFragment (H : Type 0) : Type 0 where
  pub type : FragmentType
  pub payload : List ℕ
  pub header : Bool
  pub stored_pointer : ℕ
  pub stored_size : ℕ
  pub hint : Option H
  pub addr : Address

pub record Fragmentation (H : Type 0) : Type 0 where
  pub frags : List (DdFragment H)
  pub offsets : List ℕ
  pub effective_size : ℕ
  pub unstored_size : ℕ
  pub buffer_address : Address

module _ {H : Type 0} where
  abbrev pub new_fragmentation : Fragmentation H
  new_fragmentation = record {
    frags = [];
    offsets = [];
    effective_size = 0;
    unstored_size = 0;
    buffer_address = empty_address;
  }

  unfoldable pub push_stored : Fragmentation H → ℕ → ℕ → List ℕ → Bool → Fragmentation H
  push_stored fr pointer size [] header = fr
  push_stored fr pointer size (b ∷ bs) header = record fr {
    frags =
        fr.frags
        ++ (record {
          type = stored;
          payload = b ∷ bs;
          header = header;
          stored_pointer = pointer;
          stored_size = size;
          hint = none;
          addr = empty_address;
        })
          ∷ [];
  }

  unfoldable pub push_unstored : Fragmentation H → List ℕ → Bool → Option H → Fragmentation H
  push_unstored fr bytes header hint = record fr {
    frags =
        fr.frags
        ++ (record {
          type = unstored;
          payload = bytes;
          header = header;
          stored_pointer = 0;
          stored_size = length bytes;
          hint = hint;
          addr = empty_address;
        })
          ∷ [];
    effective_size = add64 fr.effective_size (length bytes);
    unstored_size = add64 fr.unstored_size (length bytes);
  }

  -- The address that a fragment contributes.
  unfoldable pub fragment_address : FragmentType → DdFragment H → List Fragment
  fragment_address unstored f = f.addr.fragments
  fragment_address stored f = record { pointer = f.stored_pointer; size = f.stored_size } ∷ []

  unfoldable pub make_address_from : List (DdFragment H) → List Fragment
  unfolding fragment_address
  make_address_from [] = []
  make_address_from (f ∷ fs) = fragment_address f.type f ++ make_address_from fs

  unfoldable pub make_address : Fragmentation H → Address
  unfolding make_address_from
  make_address fr = record { fragments = make_address_from fr.frags }

  unfoldable pub stored_from : List (DdFragment H) → List Fragment
  stored_from [] = []
  stored_from (f ∷ fs) =
      if is_stored f.type
      then record { pointer = f.stored_pointer; size = f.stored_size } ∷ stored_from fs
      else stored_from fs

  unfoldable pub get_stored_fragments : Fragmentation H → Address
  unfolding stored_from
  get_stored_fragments fr = record { fragments = stored_from fr.frags }
