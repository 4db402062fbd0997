-- ===== src/Tests/Blobs.antt =====
-- libraries/dbal/production/src/blob/memory: the theorems on a small store.
use dbal.Prelude.{
  ℕ, ◌≡◌, refl, String, false, none, some, List, [], ◌∷◌, ◌++◌, arith, length, value_or,
}
use dbal.Result.{ok}
use dbal.Map.{insert, contains, lookup}
use dbal.Listing.{filter_list}
use dbal.Blob.{
  BlobData, BlobStore, UploadOptions, BlobListOptions, new_blob, make_blob_metadata, memory_upload,
  memory_download, memory_list,
}
use dbal.Blob.Listed.{result_of, is_hit, memory_list-result_of}
use dbal.Blob.Ranges.{from_start, from_offset, whole, memory_download-upload}

abbrev options : UploadOptions
options = record { content_type = none; metadata = []; overwrite = false }

abbrev etag : List ℕ → String
etag bytes = "tag"

abbrev blob : BlobData
blob = new_blob etag (1 ∷ 2 ∷ 3 ∷ []) options 5

abbrev store : BlobStore
store = ("a/x", blob) ∷ []

stored :
    memory_upload etag "a/x" (1 ∷ 2 ∷ 3 ∷ []) options 5 []
    ≡ (ok (make_blob_metadata "a/x" blob), store)
unfolding memory_upload contains insert lookup
stored = refl

memory_download-upload_example :
    (memory_download "a/x" whole store ≡ ok (1 ∷ 2 ∷ 3 ∷ []))
    × (front : List ℕ) × (back : List ℕ) × (memory_download "a/x" (from_start 2) store ≡ ok front)
    × (memory_download "a/x" (from_offset 2) store ≡ ok back)
    × (length front ≡ 2)
    × (front ++ back ≡ 1 ∷ 2 ∷ 3 ∷ [])
memory_download-upload_example =
    memory_download-upload etag "a/x" (1 ∷ 2 ∷ 3 ∷ []) options 5 []
      {m = make_blob_metadata "a/x" blob} {s' = store} 2 stored (omega arith) (omega arith)

abbrev three : BlobStore
three = ("a/x", blob) ∷ ("a/y", blob) ∷ ("b", blob) ∷ []

abbrev first_one : BlobListOptions
first_one = record { prefix = some "a/"; continuation_token = none; max_keys = 1 }

memory_list-result_of_example :
    memory_list first_one three
    ≡ result_of first_one.max_keys (filter_list (is_hit (value_or first_one.prefix "")) three)
memory_list-result_of_example = memory_list-result_of first_one three
