-- ===== src/Blob.antt =====
-- libraries/dbal/production/src/blob/memory_storage.hpp and src/blob/memory: blobs in memory. The
-- mutex puts the calls in an order.
pub mod Listed
pub mod Ranges
use dbal.Prelude.{
  ℕ, suc, ◌+◌, ◌-◌, ◌%◌, ◌^◌, min, String, ◌<>◌, Bool, true, false, not, ◌&&◌, ◌||◌, Option, none,
  some, List, [], ◌∷◌, leb, is_empty, has_value, value_or, codes, length, take, drop, if◌then◌else◌,
}
use dbal.Result.{Result, ok, err, conflict, not_found, validation_error, reject_if, find_or}
use dbal.Map.{Map, contains, erase, insert, lookup}
use dbal.Listing.{starts_with}

pub record BlobData : Type 0 where
  pub content : List ℕ
  pub content_type : String
  pub etag : String
  pub last_modified : ℕ
  pub metadata : Map String

pub record BlobMetadata : Type 0 where
  pub key : String
  pub size : ℕ
  pub content_type : String
  pub etag : String
  pub last_modified : ℕ
  pub custom_metadata : Map String

pub record BlobListResult : Type 0 where
  pub items : List BlobMetadata
  pub next_token : Option String
  pub is_truncated : Bool

pub record UploadOptions : Type 0 where
  pub content_type : Option String
  pub metadata : Map String
  pub overwrite : Bool

pub record DownloadOptions : Type 0 where
  pub offset : Option ℕ
  pub length : Option ℕ

pub record BlobListOptions : Type 0 where
  pub prefix : Option String
  pub continuation_token : Option String
  pub max_keys : ℕ

abbrev pub BlobStore : Type 0
BlobStore = Map BlobData

abbrev pub make_blob_metadata : String → BlobData → BlobMetadata
make_blob_metadata key blob = record {
  key = key;
  size = length blob.content;
  content_type = blob.content_type;
  etag = blob.etag;
  last_modified = blob.last_modified;
  custom_metadata = blob.metadata;
}

-- `generate_etag` hashes the data with `std::hash`, and is an argument.
abbrev pub new_blob : (List ℕ → String) → List ℕ → UploadOptions → ℕ → BlobData
new_blob generate_etag content options now = record {
  content = content;
  content_type = value_or options.content_type "application/octet-stream";
  etag = generate_etag content;
  last_modified = now;
  metadata = options.metadata;
}

unfoldable pub memory_upload :
    (List ℕ → String)
    → String
    → List ℕ
    → UploadOptions
    → ℕ
    → BlobStore
    → Result BlobMetadata × BlobStore
unfolding reject_if
memory_upload generate_etag key content options now store =
    let blob = new_blob generate_etag content options now in
    reject_if (not options.overwrite && contains key store)
      (conflict ("Blob already exists: " <> key)) store
      (ok (make_blob_metadata key blob), insert key blob store)

-- `uploadStream` reserves the size and does not call `read_callback`.
unfoldable pub upload_stream :
    (List ℕ → String) → String → ℕ → UploadOptions → ℕ → BlobStore → Result BlobMetadata × BlobStore
unfolding memory_upload
upload_stream generate_etag key size options now store =
    memory_upload generate_etag key [] options now store

-- `size - offset` on `size_t`.
abbrev pub sub_size : ℕ → ℕ → ℕ
sub_size size offset = (size + 2 ^ 64 - offset) % 2 ^ 64

unfoldable pub download_range : List ℕ → DownloadOptions → Result (List ℕ)
download_range content options =
    if has_value options.offset || has_value options.length
    then (let offset = value_or options.offset 0 in
        let wanted = value_or options.length (sub_size (length content) offset) in
        if leb (length content) offset
        then err (validation_error "Offset exceeds blob size")
        else ok (take (min wanted (length content - offset)) (drop offset content)))
    else ok content

unfoldable pub memory_download : String → DownloadOptions → BlobStore → Result (List ℕ)
unfolding download_range
memory_download key options store = elim (lookup key store) [
  | none ↦ err (not_found ("Blob not found: " <> key))
  | some blob ↦ download_range blob.content options
]

unfoldable pub memory_delete : String → BlobStore → Result Bool × BlobStore
unfolding find_or
memory_delete key store =
    find_or (lookup key store) (not_found ("Blob not found: " <> key)) store
      λ blob. (ok true, erase key store)

unfoldable pub memory_exists : String → BlobStore → Bool
memory_exists key store = contains key store

unfoldable pub memory_get_metadata : String → BlobStore → Result BlobMetadata
memory_get_metadata key store = elim (lookup key store) [
  | none ↦ err (not_found ("Blob not found: " <> key))
  | some blob ↦ ok (make_blob_metadata key blob)
]

unfoldable pub memory_copy : String → String → ℕ → BlobStore → Result BlobMetadata × BlobStore
unfolding find_or
memory_copy source dest now store =
    find_or (lookup source store) (not_found ("Source blob not found: " <> source)) store λ blob.
      let copy = record blob { last_modified = now } in
      (ok (make_blob_metadata dest copy), insert dest copy store)

-- `prefix.empty() || key.find(prefix) == 0`.
abbrev pub has_prefix : String → String → Bool
has_prefix prefix key = is_empty prefix || starts_with (codes key) (codes prefix)

abbrev pub one_more : BlobMetadata → BlobListResult → BlobListResult
one_more item r = record r { items = item ∷ r.items }

-- The loop with `count` items so far; it breaks at the first key that does not fit.
unfoldable pub list_from : String → ℕ → ℕ → BlobStore → BlobListResult
list_from prefix max_keys count [] = record { items = []; next_token = none; is_truncated = false }
list_from prefix max_keys count ((key, blob) ∷ store) =
    let shown = list_from prefix max_keys (suc count) store in
    let passed = list_from prefix max_keys count store in
    if has_prefix prefix key
    then if leb max_keys count
      then record { items = []; next_token = some key; is_truncated = true }
      else one_more (make_blob_metadata key blob) shown
    else passed

unfoldable pub memory_list : BlobListOptions → BlobStore → BlobListResult
unfolding list_from
memory_list options store = list_from (value_or options.prefix "") options.max_keys 0 store

unfoldable pub memory_total_size : BlobStore → ℕ
memory_total_size [] = 0
memory_total_size ((key, blob) ∷ store) = length blob.content + memory_total_size store

unfoldable pub memory_object_count : BlobStore → ℕ
memory_object_count store = length store
