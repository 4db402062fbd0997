-- ===== src/Blob/Listed.antt =====
-- libraries/dbal/production/src/blob/memory/operations/query/memory_list.hpp: what a list shows.
use dbal.Prelude.{
  ℕ, zero, suc, ◌+◌, ◌≡◌, refl, ap, ◌∙◌, String, Bool, true, false, Option, none, some, List, [],
  ◌∷◌, map, arith, ltb, leb, length, take, drop, value_or, Bool-cases, inl, inr,
}
use dbal.Listing.{filter_list}
use dbal.Blob.{
  BlobData, BlobMetadata, BlobListOptions, BlobListResult, BlobStore, make_blob_metadata,
  has_prefix, list_from, memory_list, one_more,
}

abbrev pub is_hit : String → String × BlobData → Bool
is_hit prefix (key, blob) = has_prefix prefix key

abbrev pub shown : String × BlobData → BlobMetadata
shown (key, blob) = make_blob_metadata key blob

abbrev pub first_key : List (String × BlobData) → Option String
first_key [] = none
first_key ((key, blob) ∷ hits) = some key

-- The result of a list that has room for `room` of the hits.
abbrev pub result_of : ℕ → List (String × BlobData) → BlobListResult
result_of room hits = record {
  items = map shown (take room hits);
  next_token = first_key (drop room hits);
  is_truncated = ltb room (length hits);
}

result_of-nil :
    (room : ℕ) → record { items = []; next_token = none; is_truncated = false } ≡ result_of room []
result_of-nil zero = refl
result_of-nil (suc room) = ground arith

list_from-result_of :
    (prefix : String) (max_keys room count : ℕ) (store : BlobStore)
    → max_keys ≡ count + room
    → list_from prefix max_keys count store ≡ result_of room (filter_list (is_hit prefix) store)
unfolding list_from filter_list
list_from-result_of prefix max_keys room count [] e = result_of-nil room
list_from-result_of prefix max_keys zero count ((key, blob) ∷ store) e =
    elim (Bool-cases (has_prefix prefix key)) [
      | inl hit ↦
          let full : leb max_keys count ≡ true = ground arith in rw hit (rw full (ground arith))
      | inr miss ↦ rw miss (list_from-result_of prefix max_keys zero count store e)
    ]
list_from-result_of prefix max_keys (suc room) count ((key, blob) ∷ store) e =
    elim (Bool-cases (has_prefix prefix key)) [
      | inl hit ↦
          let fits : leb max_keys count ≡ false = ground arith in
          rw hit (
            rw fits (
              ap (one_more (make_blob_metadata key blob))
                (list_from-result_of prefix max_keys room (suc count) store (omega arith))
              ∙ ground arith))
      | inr miss ↦ rw miss (list_from-result_of prefix max_keys (suc room) count store e)
    ]

-- A list shows the first `max_keys` of the blobs whose keys have the prefix, in the order of their
-- keys; it says whether there are more, and the token is the key of the next one. The token that
-- the options continue from changes nothing.
pub memory_list-result_of :
    (options : BlobListOptions) (store : BlobStore)
    → memory_list options store
      ≡ result_of options.max_keys (filter_list (is_hit (value_or options.prefix "")) store)
unfolding memory_list
memory_list-result_of options store =
    list_from-result_of (value_or options.prefix "") options.max_keys options.max_keys 0 store
      (omega arith)
