-- ===== src/Http/Sample.antt =====
-- Sample data for the theorems on internal/delivery/http/v2: repositories that hold one private
-- dataset, and its owner.
use dataset_service.Base.{none, some, [], ◌∷◌, false}
use dataset_service.Text.{codes}
use dataset_service.Errors.{driver}
use dataset_service.Exec.{Exec, ok, raise}
use dataset_service.Entities.{Dataset, User, role_user}
use dataset_service.Repositories.{ReviewRepository}
use dataset_service.Services.Dataset.{Parts}

-- The state is not looked at.
abbrev pub unused : {A : Type 0} → Exec Unit A
unused = raise (driver 1)

abbrev pub rain : Dataset
rain = record {
  id = 5;
  name = codes "rain";
  description = [];
  owner_id = 2;
  created_at = 0;
  category_id = 1;
  is_public = false;
}

abbrev pub parts : Parts Unit
parts = record {
  datasets = record {
    create = λ ds. unused;
    delete = λ id. unused;
    update = λ ds. unused;
    find_by_id = λ id s. ok (some rain);
    find_by_user_id = λ id s. ok (rain ∷ []);
    find_all = λ s. ok (rain ∷ []);
    find_public = λ s. ok [];
    find_by_category_id = λ id s. ok [];
  };
  versions = record {
    create = λ ver. unused;
    delete = λ id. unused;
    update = λ ver. unused;
    find_by_id = λ id s. ok none;
    find_by_dataset_id = λ id s. ok [];
  };
  metadata = record {
    create = λ md. unused;
    update = λ md. unused;
    delete = λ id. unused;
    find_by_id = λ id s. ok none;
    find_by_dataset_id = λ id s. ok [];
  };
  storage = record {
    upload = λ key size. unused;
    delete = λ key. unused;
    get_url = λ key s. ok key;
  };
}

abbrev pub reviews : ReviewRepository Unit
reviews = record {
  create = λ rev. unused;
  update = λ rev. unused;
  delete = λ id. unused;
  find_by_id = λ id s. ok none;
  find_by_dataset_id = λ id s. ok [];
  find_by_user_id = λ id s. ok [];
}

abbrev pub bob : User
bob = record {
  id = 2;
  username = codes "bob";
  email = codes "b@x";
  password = codes "hash";
  registration_date = 0;
  country = [];
  is_blocked = false;
  role = role_user;
}
