-- ===== src/Services/Dataset/Tests.antt =====
-- dataset_service_impl.go: the theorems on names at concrete versions and files.
use dataset_service.Base.{◌≡◌, refl, [], arith}
use dataset_service.Text.{Text, codes}
use dataset_service.Entities.{DatasetVersion}
use dataset_service.Services.Dataset.Naming.{next_version_number}
use dataset_service.Services.Dataset.Naming.Versions.{
  version_name, uploads, next_version_number-uploads,
}

abbrev version_of : Text → DatasetVersion
version_of number = record {
  id = 1;
  number = number;
  upload_date = 0;
  filepath = codes "f";
  dataset_id = 1;
  change_log = [];
}

next_version_number-uploads_example :
    next_version_number (uploads 2 [] version_of) ≡ version_name 0 3
next_version_number-uploads_example =
    next_version_number-uploads 2 version_of (λ number. refl) (omega arith)
