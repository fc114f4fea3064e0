-- ===== src/Sample.antt =====
-- A concrete controller-runtime, API server and driver, on which the theorems are tried out.
use container_object_storage.Prelude.{
  ◌≡◌, refl, String, Bool, true, false, ◌&&◌, ◌||◌, none, some, List, [], ◌∷◌, ◌++◌, ◌==◌, arith,
  eq_refl, contains, if◌then◌else◌,
}
use container_object_storage.Errors.{foreign, ok, err}
use container_object_storage.Api.Meta.{ObjectMeta}
use container_object_storage.Api.Bucket.{Bucket, BucketClaim, BucketClass, BucketStatus, retain}
use container_object_storage.Api.Access.{BucketAccess, BucketAccessSpec, BucketAccessClass}
use container_object_storage.Rpc.{BucketResponse, DriverGrantBucketAccessResponse}
use container_object_storage.Runtime.{
  create, update, delete, generic, Funcs, Runtime, IsLawful, admits, event_object,
}
use container_object_storage.Driver.{unavailable}
use container_object_storage.World.{Env}

append_finalizer : List String → String → List String × Bool
append_finalizer fs f = if contains fs f then (fs, false) else (fs ++ f ∷ [], true)

without : List String → String → List String
without [] f = []
without (x ∷ xs) f = let rest = without xs f in if x == f then rest else x ∷ rest

either : Funcs → Funcs → Funcs
either f g = record {
  create_func = λ o. f.create_func o || g.create_func o;
  update_func = λ old new. f.update_func old new || g.update_func old new;
  delete_func = λ o. f.delete_func o || g.delete_func o;
  generic_func = λ o. f.generic_func o || g.generic_func o;
}

any_of : List Funcs → Funcs
any_of [] = record {
  create_func = λ o. false;
  update_func = λ old new. false;
  delete_func = λ o. false;
  generic_func = λ o. false;
}
any_of (f ∷ fs) = either f (any_of fs)

is_controlled_by : List (String × Bool) → String → Bool
is_controlled_by [] uid = false
is_controlled_by ((owner, is_controller) ∷ owners) uid =
    is_controller && owner == uid || is_controlled_by owners uid

unfoldable pub sample_runtime : Runtime
unfolding is_controlled_by append_finalizer without any_of either
sample_runtime = record {
  contains_finalizer = contains;
  add_finalizer = append_finalizer;
  remove_finalizer = without;
  new_predicate_funcs = λ p. record {
    create_func = p;
    update_func = λ old new. p new;
    delete_func = p;
    generic_func = p;
  };
  both = λ f g. record {
    create_func = λ o. f.create_func o && g.create_func o;
    update_func = λ old new. f.update_func old new && g.update_func old new;
    delete_func = λ o. f.delete_func o && g.delete_func o;
    generic_func = λ o. f.generic_func o && g.generic_func o;
  };
  any_of = any_of;
  is_controlled_by = is_controlled_by;
  set_controller_reference = λ m owners. ok ((m.uid, true) ∷ owners);
  generation_changed = λ old new. true;
}

contains-append : (fs : List String) (f : String) → contains (fs ++ f ∷ []) f ≡ true
unfolding contains
contains-append [] f = simp eq_refl
contains-append (x ∷ xs) f = rw (contains-append xs f) (ground arith)

contains-append_finalizer :
    (fs : List String) (f : String) → contains (append_finalizer fs f).0 f ≡ true
unfolding append_finalizer
contains-append_finalizer fs f = ground (arith, contains-append fs f)

contains-without : (fs : List String) (f : String) → contains (without fs f) f ≡ false
unfolding contains without
contains-without [] f = refl
contains-without (x ∷ xs) f = ground (arith, contains-without xs f)

pub sample_runtime-IsLawful : IsLawful sample_runtime
unfolding sample_runtime admits event_object
sample_runtime-IsLawful = record {
  contains-add_finalizer = contains-append_finalizer;
  add_finalizer_unchanged = λ fs f. ground arith;
  add_finalizer_keeps = λ fs f h. ground arith;
  contains-remove_finalizer = contains-without;
  is_controlled_by-set_controller_reference =
      λ m owners owners' e. let p : (m.uid, true) ∷ owners ≡ owners' = cc in rw (← p) (rw eq_refl);
  new_predicate_funcs_lem =
      λ p. elim [ create o ↦ refl | update a b ↦ refl | delete o ↦ refl | generic o ↦ refl ];
  both_lem =
      λ f g. elim [ create o ↦ refl | update a b ↦ refl | delete o ↦ refl | generic o ↦ refl ];
  any_of_nil = elim [ create o ↦ refl | update a b ↦ refl | delete o ↦ refl | generic o ↦ refl ];
  any_of_cons =
      λ f fs. elim [ create o ↦ refl | update a b ↦ refl | delete o ↦ refl | generic o ↦ refl ];
}

abbrev pub sample_meta : ObjectMeta
sample_meta = record {
  name = "photos";
  namespace = "apps";
  uid = "42";
  finalizers = [];
  annotations = [];
  deletion_timestamp = none;
  owners = [];
}

abbrev pub empty_bucket_status : BucketStatus
empty_bucket_status = record {
  ready_to_use = none;
  bucket_id = "";
  protocols = [];
  bucket_info = [];
  error = none;
}

-- A Bucket that was made for a claim, before it is provisioned.
abbrev pub sample_bucket : Bucket
sample_bucket = record {
  metadata = record sample_meta { name = "bc-42"; namespace = "" };
  spec = record {
    driver_name = "s3.example.com";
    deletion_policy = retain;
    parameters = [];
    protocols = "S3" ∷ [];
    bucket_claim_ref = record { name = "photos"; namespace = "apps"; uid = "42" };
    existing_bucket_id = "";
  };
  status = empty_bucket_status;
}

abbrev pub sample_claim : BucketClaim
sample_claim = record {
  metadata = sample_meta;
  spec = record { bucket_class_name = "gold"; protocols = "S3" ∷ []; existing_bucket_name = "" };
  status = record { bound_bucket_name = ""; ready_to_use = none; protocols = []; error = none };
}

abbrev pub sample_class : BucketClass
sample_class = record {
  metadata = record sample_meta { name = "gold" };
  spec = record { driver_name = "s3.example.com"; deletion_policy = retain; parameters = [] };
}

abbrev pub sample_response : BucketResponse
sample_response = record {
  bucket_id = "backend-7";
  protocols = some (record {
    s3 = some (record {
      bucket_id = "backend-7";
      endpoint = "https://s3.example.com";
      region = "eu-1";
      addressing_style = some 1;
    });
    azure = none;
    gcs = none;
  });
}

abbrev pub sample_access_spec : BucketAccessSpec
sample_access_spec = record {
  bucket_claims =
      record {
        bucket_claim_name = "photos";
        access_mode = "ReadWrite";
        access_secret_name = "photos-key";
      }
      ∷ [];
  bucket_access_class_name = "keys";
  protocol = "S3";
  service_account_name = "";
}

-- A BucketAccess that a user made.
abbrev pub sample_access : BucketAccess
sample_access = record {
  metadata = record sample_meta { name = "photos-access"; uid = "77" };
  spec = sample_access_spec;
  status = record {
    ready_to_use = none;
    account_id = "";
    accessed_buckets = [];
    driver_name = "";
    authentication_type = "";
    parameters = [];
    error = none;
  };
}

abbrev pub sample_access_class : BucketAccessClass
sample_access_class = record {
  metadata = record sample_meta { name = "keys" };
  spec = record {
    driver_name = "s3.example.com";
    authentication_type = "Key";
    parameters = [];
    disallowed_bucket_access_modes = [];
    multi_bucket_access = "SingleBucket";
  };
}

abbrev pub sample_grant : DriverGrantBucketAccessResponse
sample_grant = record {
  account_id = "account-1";
  buckets = record { bucket_id = "backend-7"; bucket_info = sample_response.protocols } ∷ [];
  credentials = some (record {
    s3 = some (record { access_key_id = "id"; access_secret_key = "secret" });
    azure = none;
    gcs = none;
  });
}

-- Every call is granted, and the driver makes the bucket; an error is the not-found error 404.
abbrev pub sample_env : Env
sample_env = record {
  runtime = sample_runtime;
  is_not_found = elim [ foreign n ↦ true | _ ↦ false ];
  status_code = λ e. unavailable;
  error_text = λ e. "error";
  now = λ h. 1;
  on_get_bucket = λ h name. ok sample_bucket;
  on_create_bucket = λ h b. ok b;
  on_update_bucket = λ h b. ok b;
  on_update_bucket_status = λ h b. ok b;
  on_delete_bucket = λ h b. ok tt;
  on_get_bucket_claim = λ h namespace name. ok sample_claim;
  on_update_bucket_claim = λ h c. ok c;
  on_update_bucket_claim_status = λ h c. ok c;
  on_get_bucket_class = λ h name. ok sample_class;
  on_get_bucket_access = λ h namespace name. ok sample_access;
  on_update_bucket_access = λ h a. ok a;
  on_update_bucket_access_status = λ h a. ok a;
  on_list_bucket_accesses = λ h namespace. ok (sample_access ∷ []);
  on_get_bucket_access_class = λ h name. ok sample_access_class;
  on_get_secret = λ h namespace name. err (foreign 404);
  on_create_secret = λ h s. ok s;
  on_update_secret = λ h s. ok s;
  on_delete_secret = λ h s. ok tt;
  on_driver_create_bucket = λ h q. ok sample_response;
  on_driver_get_existing_bucket = λ h q. ok sample_response;
  on_driver_grant_bucket_access = λ h q. ok sample_grant;
  on_driver_revoke_bucket_access = λ h q. ok tt;
}
