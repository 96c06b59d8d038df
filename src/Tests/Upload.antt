-- ===== src/Tests/Upload.antt =====
-- upload/s3.service.ts on one file.
use aideep_backend.Common.{String, ◌≡◌, refl, [], ◌∷◌, some, none}
use aideep_backend.Infra.Action.{returned}
use aideep_backend.Upload.{
  File, Bucket, get_public_url, extract_key_from_url, key_of, upload_file, delete_file,
}
use aideep_backend.Upload.Roundtrip.{upload_file-roundtrip}
use aideep_backend.Common.Assoc.{lookup}

abbrev photo : File
photo = record { original_name = "a.png"; mime_type = "image/png"; size = 3; buffer = "abc" }

abbrev empty_bucket : Bucket
empty_bucket = record { objects = []; uuids = "u1" ∷ []; outages = [] }

abbrev png : String → String
png name = ".png"

upload_file-roundtrip_example :
    let key = key_of "aideep" "eu" png "uploads" photo empty_bucket in
    let r = upload_file "aideep" "eu" png photo "uploads" empty_bucket in
    (extract_key_from_url "aideep" "eu" png (get_public_url "aideep" "eu" png key) ≡ some key)
    × (r.0
        ≡ returned (record {
          key = key;
          url = get_public_url "aideep" "eu" png key;
          original_name = "a.png";
          mime_type = "image/png";
          size = 3;
        }))
    × (lookup key r.1.objects ≡ some "abc")
    × ((delete_file "aideep" "eu" png key r.1).0 ≡ returned tt)
    × (lookup key (delete_file "aideep" "eu" png key r.1).1.objects ≡ none)
upload_file-roundtrip_example =
    upload_file-roundtrip "aideep" "eu" png photo "uploads" empty_bucket refl
