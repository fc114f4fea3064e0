-- ===== src/Api/Secret.antt =====
-- The part of `corev1.Secret` that the code reads or writes. `string_data` replaces the data that the
-- server has.
use container_object_storage.Prelude.{String, Dict}
use container_object_storage.Api.Meta.{ObjectMeta}

pub record Secret : Type 0 where
  pub metadata : ObjectMeta
  pub secret_type : String
  pub string_data : Dict String
