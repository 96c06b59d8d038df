-- ===== src/Upload.antt =====
-- upload/s3.service.ts: files in an S3 bucket.
pub mod Roundtrip
pub mod Controller
use Prim.Native.Char.{Char, code}
use Prim.Native.String.{◌++◌}
use aideep_backend.Common.{
  ℕ, String, Bool, true, false, Option, none, some, List, [], ◌∷◌, eqb, chars, text_of, strip,
  if◌then◌else◌,
}
use aideep_backend.Infra.Action.{Outcome, returned, thrown, Action}
use aideep_backend.Infra.Exception.{Exception, http}
use aideep_backend.Common.Assoc.{put, remove}

-- `Express.Multer.File`
pub record File : Type 0 where
  pub original_name : String
  pub mime_type : String
  pub size : ℕ
  pub buffer : String

pub record UploadedFile : Type 0 where
  pub key : String
  pub url : String
  pub original_name : String
  pub mime_type : String
  pub size : ℕ

-- the bucket, the values that `uuidv4()` gives next, and whether each of the next calls is rejected;
-- behind the list's end all are answered
pub record Bucket : Type 0 where
  pub objects : List (String × String)
  pub uuids : List String
  pub outages : List Bool

abbrev as_text : Option (List Char) → Option String
as_text none = none
as_text (some l) = some (text_of l)

abbrev next_uuid : List String → String
next_uuid [] = "00000000-0000-4000-8000-000000000000"
next_uuid (u ∷ _) = u

abbrev later {ℓ} : {A : Type ℓ} → List A → List A
later [] = []
later (_ ∷ rest) = rest

abbrev is_down : List Bool → Bool
is_down [] = false
is_down (down ∷ _) = down

-- the region and the name of the bucket, and `path.extname` of Node
module _ (bucket region : String) (extname : String → String) where
  abbrev pub bucket_url : String
  bucket_url = "https://" ++ (bucket ++ (".s3." ++ (region ++ ".amazonaws.com/")))

  unfoldable pub get_public_url : String → String
  get_public_url key = bucket_url ++ key

  -- `none` is the `Error` that is thrown for any other URL
  unfoldable pub extract_key_from_url : String → Option String
  extract_key_from_url url = as_text (strip (chars bucket_url) (chars url))

  abbrev pub key_of : String → File → Bucket → String
  key_of folder file b = folder ++ ("/" ++ (next_uuid b.uuids ++ extname file.original_name))

  -- one call of the client, which `catch` turns into a 500 where it is rejected
  abbrev sent : {A : Type 0} → Bool → String → A → Bucket → Bucket → Outcome A × Bucket
  sent true message a before after = (thrown (http 500 message), before)
  sent false message a before after = (returned a, after)

  abbrev called : Bucket → Bucket
  called b = record b { uuids = later b.uuids; outages = later b.outages }

  unfoldable pub upload_file : File → String → Action Bucket UploadedFile
  upload_file file folder b =
      let key = key_of folder file b in
      sent (is_down b.outages) "파일 업로드에 실패했습니다."
        (record {
          key = key;
          url = get_public_url key;
          original_name = file.original_name;
          mime_type = file.mime_type;
          size = file.size;
        })
        (called b) (record (called b) { objects = put key file.buffer b.objects })

  unfoldable pub delete_file : String → Action Bucket (Unit {0})
  delete_file key b =
      let after = record b { outages = later b.outages } in
      sent (is_down b.outages) "파일 삭제에 실패했습니다." tt after
        (record after { objects = remove key b.objects })

  -- `Promise.all`: the first rejection, or all results
  abbrev pub all_of :
      Outcome UploadedFile → Outcome (List UploadedFile) → Outcome (List UploadedFile)
  all_of (thrown e) rest = thrown e
  all_of (returned file) (thrown e) = thrown e
  all_of (returned file) (returned files) = returned (file ∷ files)

  -- every upload is begun, whatever comes of the others
  unfoldable pub upload_files : List File → String → Action Bucket (List UploadedFile)
  upload_files [] folder b = (returned [], b)
  upload_files (file ∷ files) folder b =
      let r = upload_file file folder b in
      let rest = upload_files files folder r.1 in (all_of r.0 rest.0, rest.1)
