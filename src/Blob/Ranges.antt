-- ===== src/Blob/Ranges.antt =====
-- libraries/dbal/production/src/blob/memory/operations/transfer: downloads after an upload.
use dbal.Prelude.{
  ℕ, zero, suc, ◌+◌, ◌-◌, ◌<◌, ◌≡◌, refl, ap, ◌∙◌, min, String, false, none, some, List, [], ◌∷◌,
  ◌^◌, ◌%◌, ◌++◌, arith, leb, length, take, drop, length-take, length-drop, subst,
}
use dbal.Result.{Result, ok, reject_if-ok}
use dbal.Map.{insert, lookup, lookup-insert_self}
use dbal.Listing.Pages.{take_all}
use dbal.Blob.{
  BlobMetadata, UploadOptions, DownloadOptions, BlobStore, new_blob, memory_upload, memory_download,
  download_range, make_blob_metadata,
}

lookup-upload :
    (etag : List ℕ → String) (key : String) (content : List ℕ) (options : UploadOptions) (now : ℕ)
    (s : BlobStore) {m : BlobMetadata} {s' : BlobStore}
    → memory_upload etag key content options now s ≡ (ok m, s')
    → lookup key s' ≡ some (new_blob etag content options now)
unfolding memory_upload
lookup-upload etag key content options now s {m} {s'} h =
    let blob = new_blob etag content options now in
    let (allowed, stored) =
      reject_if-ok _ _ s (ok (make_blob_metadata key blob), insert key blob s) h in
    subst (λ (k : BlobStore). lookup key k ≡ some blob)
      (ap (λ (o : Result BlobMetadata × BlobStore). o.1) stored) (lookup-insert_self key blob s)

abbrev pub from_start : ℕ → DownloadOptions
from_start n = record { offset = none; length = some n }

abbrev pub from_offset : ℕ → DownloadOptions
from_offset n = record { offset = some n; length = none }

abbrev pub whole : DownloadOptions
whole = record { offset = none; length = none }

take-drop {ℓ} : {A : Type ℓ} (n : ℕ) (xs : List A) → take n xs ++ drop n xs ≡ xs
take-drop zero xs = refl
take-drop (suc n) [] = refl
take-drop (suc n) (x ∷ xs) = ap (◌∷◌ x) (take-drop n xs)

range_from_start :
    (content : List ℕ) (n : ℕ)
    → n < length content
    → download_range content (from_start n) ≡ ok (take n content)
unfolding download_range
range_from_start content n inside =
    let fits : leb (length content) 0 ≡ false = ground arith in
    let size : min n (length content - 0) ≡ n = omega arith in rw fits (rw size refl)

range_from_offset :
    (content : List ℕ) (n : ℕ)
    → n < length content
    → length content < 2 ^ 64
    → download_range content (from_offset n) ≡ ok (drop n content)
unfolding download_range
range_from_offset content n inside small =
    let fits : leb (length content) n ≡ false = ground arith in
    let size : min ((length content + 2 ^ 64 - n) % 2 ^ 64) (length content - n)
        ≡ length content - n =
      omega arith in
    rw fits (
      rw size (
        ap (λ (xs : List ℕ). ok xs)
          (take_all (length content - n) (drop n content) (omega (arith, length-drop n content)))))

-- After an upload that succeeds, a download of the whole gives the data, and for a point inside of the
-- data the downloads up to it and from it on succeed and are its two parts; its size is a size_t.
pub memory_download-upload :
    (etag : List ℕ → String) (key : String) (content : List ℕ) (options : UploadOptions) (now : ℕ)
    (s : BlobStore) {m : BlobMetadata} {s' : BlobStore} (n : ℕ)
    → memory_upload etag key content options now s ≡ (ok m, s')
    → n < length content
    → length content < 2 ^ 64
    → (memory_download key whole s' ≡ ok content)
      × (front : List ℕ) × (back : List ℕ) × (memory_download key (from_start n) s' ≡ ok front)
      × (memory_download key (from_offset n) s' ≡ ok back)
      × (length front ≡ n)
      × (front ++ back ≡ content)
unfolding memory_download
memory_download-upload etag key content options now s {m} {s'} n h inside small =
    let there = lookup-upload etag key content options now s h in
    (
      rw (there, memory_download) refl,
      take n content,
      drop n content,
      rw (there, memory_download) (range_from_start content n inside),
      rw (there, memory_download) (range_from_offset content n inside small),
      length-take n content ∙ omega arith,
      take-drop n content,
    )
