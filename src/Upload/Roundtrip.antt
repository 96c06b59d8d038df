-- ===== src/Upload/Roundtrip.antt =====
-- What upload/s3.service.ts stores under a key is found and deleted by the URL that it returned.
use Prim.Native.Char.{code}
use Prim.Native.String.append
use Prim.Native.String.{◌++◌}
use aideep_backend.Common.{
  ℕ, String, ◌≡◌, refl, ap, ◌∙◌, true, none, some, [], ◌∷◌, eqb, chars, text_of-chars, arith,
}
use aideep_backend.Infra.Action.{returned}
use aideep_backend.Common.Assoc.{lookup, put, lookup-put_same, lookup-remove_same}
use aideep_backend.Upload.{
  File, Bucket, strip, bucket_url, get_public_url, extract_key_from_url, key_of, upload_file,
  delete_file,
}

eqb_refl : (n : ℕ) → eqb n n ≡ true
eqb_refl n = ground arith

-- a prefix is stripped from a text that begins with it
strip-append :
    (prefix key : String) → strip (chars prefix) (chars (prefix ++ key)) ≡ some (chars key)
strip-append Prim.Native.String.[] key = ap (λ t. some (chars t)) (append.nil key)
strip-append (Prim.Native.String.◌∷◌ c prefix) key =
    ap (λ t. strip (c ∷ chars prefix) (chars t)) (append.cons c prefix key)
    ∙ rw (eqb_refl (code c)) (strip-append prefix key)

module _ (bucket region : String) (extname : String → String) where
  extract_key_from_url-get_public_url :
      (key : String)
      → extract_key_from_url bucket region extname (get_public_url bucket region extname key)
        ≡ some key
  unfolding extract_key_from_url get_public_url
  extract_key_from_url-get_public_url key =
      rw (strip-append (bucket_url bucket region extname) key) (ap some (text_of-chars key))

  -- While S3 answers, an uploaded file is stored under a key that its returned URL gives back, and deleting that key removes it.
  pub upload_file-roundtrip :
      (file : File) (folder : String) (b : Bucket)
      → b.outages ≡ []
      → let key = key_of bucket region extname folder file b in
        let r = upload_file bucket region extname file folder b in
        (extract_key_from_url bucket region extname (get_public_url bucket region extname key)
          ≡ some key)
        × (r.0
            ≡ returned (record {
              key = key;
              url = get_public_url bucket region extname key;
              original_name = file.original_name;
              mime_type = file.mime_type;
              size = file.size;
            }))
        × (lookup key r.1.objects ≡ some file.buffer)
        × ((delete_file bucket region extname key r.1).0 ≡ returned tt)
        × (lookup key (delete_file bucket region extname key r.1).1.objects ≡ none)
  unfolding upload_file delete_file
  upload_file-roundtrip file folder b answers = rw answers (
    extract_key_from_url-get_public_url _,
    refl,
    lookup-put_same _ file.buffer b.objects,
    refl,
    lookup-remove_same _ (put _ file.buffer b.objects),
  )
