-- ===== src/Lib.antt =====
-- Container Object Storage Interface (COSI): a Kubernetes API for buckets of object storage. The
-- Controller binds BucketClaims to Buckets and prepares BucketAccesses; a Sidecar runs beside each
-- driver, provisions Buckets through it and grants access to them. The two share the management of a
-- BucketAccess by fields and annotations of the object, with no direct calls.
--
-- Where the code is modelled:
--   Prelude                 names of the library, Booleans, lists, Go maps as association lists
--   Errors                  internal/errors/errors.go: errors as trees of what they wrap
--   Api                     client/apis/objectstorage/v1alpha2: the objects as records
--   Ownership               internal/bucketaccess/bucketaccess.go: who manages a BucketAccess
--   Runtime                 what the code uses of the Kubernetes libraries, as parameters with laws
--   Predicate               internal/predicate/predicate.go and the event filters of the reconcilers
--   Rpc                     proto/cosi.pb.go: the messages of the driver
--   Driver                  sidecar/pkg/reconciler/driver.go
--   Connection              sidecar/cmd/rpc.go: the connection to the driver when the Sidecar starts
--   Protocol                internal/protocol: S3, Azure and GCS info as variables and back
--   Translator              sidecar/internal/translator/translator.go
--   World                   the API server, the driver and the clock, as an environment
--   World.Report            the frame of every `Reconcile`: reading, recording errors, outcomes
--   World.Accesses          what both reconcilers of BucketAccesses do: updates, finalizer, errors
--   World.Ensures           the rules for postconditions of actions; World.Recorded, calls in a history
--   SidecarBucket           sidecar/pkg/reconciler/bucket.go: the reconciler of Buckets
--   ClaimController         controller/pkg/reconciler/bucketclaim.go: the reconciler of BucketClaims
--   AccessController        controller/pkg/reconciler/bucketaccess.go: the reconciler of
--                           BucketAccesses in the Controller, with the validations (Validation), the
--                           claims and their marks (Marks), who references a claim (References),
--                           their Buckets (Lookup)
--   SidecarAccess           sidecar/pkg/reconciler/bucketaccess.go: the reconciler of BucketAccesses in
--                           the Sidecar, with the configurations (Config), the driver's answer
--                           (Granted), the Buckets (Buckets) and the Secrets (Secrets); Grant says what
--                           a granted access is
--   Lifecycle               both reconcilers of BucketAccesses and the users, as steps of one relation
--   Sample, Tests           data to run the code on, and the theorems applied to it
--
-- A reconciler is an `Action`: it reads and changes the object that it reconciles and makes calls,
-- which are recorded with their answers in a history, the latest call first. The answers are those
-- of `World.Env`, a parameter: functions of the whole history, so that other writers, conflicts and
-- failures at any call are covered. What was done before an error stays done.
--
-- The only unbounded loop is the wait of sidecar/cmd/rpc.go for the connection. It runs on fuel, one round
-- for each unit; more rounds than the context allows are enough. All other loops walk a list. Integers occur
-- as enum values and lengths only, so no arithmetic can overflow. Go strings are strings of bytes.
-- A nil pointer is `none`, a nil map is the empty one, a zero time is `none`. Texts of errors are kept
-- as formats with arguments, and are not printed.
--
-- A loop over a Go map visits the entries in the order of the list that stands for the map, which is
-- arbitrary. Where Go changes an object through a pointer in a map, the entry of the map is set. Of a
-- Secret the metadata, the type and `stringData` are kept.
--
-- What the code relies on and does not hold is a hypothesis: `Runtime.IsLawful`, the finalizer and owner
-- helpers; `ClaimController.Bound.KeepsClaims`, `World.Accesses.Protection.KeepsAccesses` and
-- `SidecarAccess.Evidence.KeepsSecrets`, what the API server keeps of an object that it stores;
-- `Connection.Waiting.HasDeadline`, that the context of the connection ends. The steps of `Lifecycle` are
-- whole runs of a reconciler, since the server refuses an update of an object that was changed after it was
-- read.
--
-- Not modelled: logging, the registration with the manager, generated code and its generators, the
-- options of the gRPC connection, and the two commands that start the processes, but for the endpoint
-- that the Sidecar's takes: they read flags and call libraries. The reconciler of Buckets in controller/pkg/reconciler/bucket.go
-- does nothing.
mod Prelude
pub mod Errors
pub mod Api
pub mod Ownership
pub mod Runtime
pub mod Rpc
pub mod Driver
pub mod Connection
pub mod Predicate
pub mod Protocol
pub mod Translator
pub mod World
pub mod SidecarBucket
pub mod SidecarAccess
pub mod ClaimController
pub mod AccessController
pub mod Lifecycle
mod Sample
mod Tests
