-- ===== src/Upload/Controller.antt =====
-- upload/upload.controller.ts, behind the interceptors that read the files.
use aideep_backend.Common.{String, List}
use aideep_backend.Infra.Action.{Action}
use aideep_backend.Upload as Service
use aideep_backend.Upload.{File, Bucket, UploadedFile}

module _ (bucket region : String) (extname : String → String) where
  unfoldable pub upload_single : File → Action Bucket UploadedFile
  upload_single file = Service.upload_file bucket region extname file "uploads"

  unfoldable pub upload_files : List File → Action Bucket (List UploadedFile)
  upload_files files = Service.upload_files bucket region extname files "uploads"
