-- ===== src/SidecarAccess/Grant/Variables.antt =====
-- sidecar/pkg/reconciler/bucketaccess.go: the variables that reach a Secret.
use container_object_storage.Prelude.{
  ◌≡◌, ◌∙◌, refl, sym, subst, String, some, Option, [], Dict, dict_get, dict_merge,
  dict_get-dict_merge, HasUniqueKeys, inl, inr, Option-cases,
}
use container_object_storage.Rpc.{CredentialInfo, ObjectProtocolAndBucketInfo}
use container_object_storage.Protocol.{RpcApiTranslator}
use container_object_storage.Protocol.S3.{s3_bucket_info_translator, s3_credential_translator}
use container_object_storage.Protocol.Azure.{
  azure_bucket_info_translator, azure_credential_translator,
}
use container_object_storage.Protocol.Gcs.{gcs_bucket_info_translator, gcs_credential_translator}
use container_object_storage.Translator.{ValidationConfig}
use container_object_storage.SidecarAccess.Secrets.{granted_data}
use container_object_storage.SidecarAccess.Grant.{
  AreVariables, AreCredentials, IsInfo, HasVariables,
}

-- No translator sets a variable twice.
abbrev IsUnique : {R : Type 0} → RpcApiTranslator R → Type 0
IsUnique {R} t = (r : R) → HasUniqueKeys (t.rpc_to_api (some r))

s3_bucket_info-IsUnique : IsUnique s3_bucket_info_translator
unfolding s3_bucket_info_translator dict_get
s3_bucket_info-IsUnique r = (refl, (refl, (refl, (refl, tt))))

s3_credential-IsUnique : IsUnique s3_credential_translator
unfolding s3_credential_translator dict_get
s3_credential-IsUnique r = (refl, (refl, tt))

azure_bucket_info-IsUnique : IsUnique azure_bucket_info_translator
unfolding azure_bucket_info_translator dict_get
azure_bucket_info-IsUnique r = (refl, tt)

azure_credential-IsUnique : IsUnique azure_credential_translator
unfolding azure_credential_translator dict_get
azure_credential-IsUnique r = (refl, (refl, tt))

gcs_bucket_info-IsUnique : IsUnique gcs_bucket_info_translator
unfolding gcs_bucket_info_translator dict_get
gcs_bucket_info-IsUnique r = (refl, (refl, tt))

gcs_credential-IsUnique : IsUnique gcs_credential_translator
unfolding gcs_credential_translator dict_get
gcs_credential-IsUnique r = (refl, (refl, (refl, (refl, tt))))

AreVariables-HasUniqueKeys :
    {R S T : Type 0} (r : RpcApiTranslator R) (s : RpcApiTranslator S) (t : RpcApiTranslator T)
    (v : ValidationConfig) (x : Option R) (y : Option S) (z : Option T) (out : Dict String)
    → IsUnique r
    → IsUnique s
    → IsUnique t
    → AreVariables r s t v x y z out
    → HasUniqueKeys out
AreVariables-HasUniqueKeys r s t v x y z out f g k (inl (_, _, _, (i, _, _, e))) =
    subst HasUniqueKeys (sym e) (f i)
AreVariables-HasUniqueKeys r s t v x y z out f g k (inr (inl (_, _, _, (i, _, _, e)))) =
    subst HasUniqueKeys (sym e) (g i)
AreVariables-HasUniqueKeys r s t v x y z out f g k (inr (inr (_, _, _, (i, _, _, e)))) =
    subst HasUniqueKeys (sym e) (k i)

-- The data of a Secret has what the Bucket has, and what else the credentials have.
pub granted_data-HasVariables :
    (credentials info : Dict String)
    → HasUniqueKeys credentials
    → HasUniqueKeys info
    → HasVariables (granted_data credentials info) credentials info
unfolding dict_get
granted_data-HasVariables credentials info u w k =
    let p = dict_get-dict_merge info (dict_merge credentials []) k w in
    let q = dict_get-dict_merge credentials [] k u in
    let r : dict_get (dict_merge credentials []) k ≡ dict_get credentials k =
      elim (Option-cases (dict_get credentials k)) [
        | inl e ↦ (let q' = rw e at q in q' ∙ sym e)
        | inr (x, e) ↦ (let q' = rw e at q in q' ∙ sym e)
      ] in
    rw r at p

pub AreCredentials-HasUniqueKeys :
    (v : ValidationConfig) (o : Option CredentialInfo) (out : Dict String)
    → AreCredentials v o out
    → HasUniqueKeys out
AreCredentials-HasUniqueKeys v o out (ci, _, h) =
    AreVariables-HasUniqueKeys s3_credential_translator azure_credential_translator
      gcs_credential_translator v ci.s3 ci.azure ci.gcs out s3_credential-IsUnique
      azure_credential-IsUnique gcs_credential-IsUnique h

pub IsInfo-HasUniqueKeys :
    (v : ValidationConfig) (o : Option ObjectProtocolAndBucketInfo) (out : Dict String)
    → IsInfo v o out
    → HasUniqueKeys out
IsInfo-HasUniqueKeys v o out (bi, _, h) =
    AreVariables-HasUniqueKeys s3_bucket_info_translator azure_bucket_info_translator
      gcs_bucket_info_translator v bi.s3 bi.azure bi.gcs out s3_bucket_info-IsUnique
      azure_bucket_info-IsUnique gcs_bucket_info-IsUnique h
