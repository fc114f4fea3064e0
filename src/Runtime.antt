-- ===== src/Runtime.antt =====
-- What the code takes of controller-runtime (a library): the finalizer helpers of `controllerutil`
-- and the event filters of `predicate`; and `metav1.IsControlledBy` of apimachinery. They are
-- parameters, with their documented behaviour as laws.
use container_object_storage.Prelude.{
  ◌≡◌, String, Bool, true, false, ◌&&◌, ◌||◌, List, [], ◌∷◌, if◌then◌else◌,
}
use container_object_storage.Errors.{Result, ok}
use container_object_storage.Api.Meta.{ObjectMeta}
use container_object_storage.Api.Bucket.{Bucket, BucketClaim}
use container_object_storage.Api.Access.{BucketAccess}

-- client.Object: the kinds that the code tells apart by a type switch, and all others.
pub data Object : Type 0 where
  bucket : Bucket → Object
  bucket_claim : BucketClaim → Object
  bucket_access : BucketAccess → Object
  other : ObjectMeta → Object

unfoldable pub object_meta : Object → ObjectMeta
object_meta (bucket b) = b.metadata
object_meta (bucket_claim c) = c.metadata
object_meta (bucket_access a) = a.metadata
object_meta (other m) = m

pub data Event : Type 0 where
  create : Object → Event
  update : Object → Object → Event
  delete : Object → Event
  generic : Object → Event

-- predicate.Funcs
pub record Funcs : Type 0 where
  pub create_func : Object → Bool
  pub update_func : Object → Object → Bool
  pub delete_func : Object → Bool
  pub generic_func : Object → Bool

-- The call of a filter on an event.
unfoldable pub admits : Funcs → Event → Bool
admits f (create o) = f.create_func o
admits f (update old new) = f.update_func old new
admits f (delete o) = f.delete_func o
admits f (generic o) = f.generic_func o

-- The object that an event is about.
unfoldable pub event_object : Event → Object
event_object (create o) = o
event_object (update old new) = new
event_object (delete o) = o
event_object (generic o) = o

pub record Runtime : Type 0 where
  pub contains_finalizer : List String → String → Bool
  -- The new list, and whether it was changed.
  pub add_finalizer : List String → String → List String × Bool
  pub remove_finalizer : List String → String → List String
  pub new_predicate_funcs : (Object → Bool) → Funcs
  pub both : Funcs → Funcs → Funcs
  pub any_of : List Funcs → Funcs
  -- metav1.IsControlledBy: the owner references of the object, and the UID of the owner.
  pub is_controlled_by : List (String × Bool) → String → Bool
  -- controllerutil.SetControllerReference: the owner, and the owner references of the object.
  pub set_controller_reference : ObjectMeta → List (String × Bool) → Result (List (String × Bool))
  -- GenerationChangedPredicate{}.Update
  pub generation_changed : Object → Object → Bool

pub record IsLawful (r : Runtime) : Type 0 where
  pub contains-add_finalizer :
      (fs : List String) (f : String) → r.contains_finalizer (r.add_finalizer fs f).0 f ≡ true
  -- `AddFinalizer` reports no change exactly where the finalizer was there already.
  pub add_finalizer_unchanged :
      (fs : List String) (f : String)
      → (r.add_finalizer fs f).1 ≡ (if r.contains_finalizer fs f then false else true)
  pub add_finalizer_keeps :
      (fs : List String) (f : String)
      → r.contains_finalizer fs f ≡ true
      → (r.add_finalizer fs f).0 ≡ fs
  pub contains-remove_finalizer :
      (fs : List String) (f : String) → r.contains_finalizer (r.remove_finalizer fs f) f ≡ false
  pub is_controlled_by-set_controller_reference :
      (m : ObjectMeta) (owners owners' : List (String × Bool))
      → r.set_controller_reference m owners ≡ ok owners'
      → r.is_controlled_by owners' m.uid ≡ true
  pub new_predicate_funcs_lem :
      (p : Object → Bool) (e : Event) → admits (r.new_predicate_funcs p) e ≡ p (event_object e)
  pub both_lem : (f g : Funcs) (e : Event) → admits (r.both f g) e ≡ (admits f e && admits g e)
  pub any_of_nil : (e : Event) → admits (r.any_of []) e ≡ false
  pub any_of_cons :
      (f : Funcs) (fs : List Funcs) (e : Event)
      → admits (r.any_of (f ∷ fs)) e ≡ (admits f e || admits (r.any_of fs) e)
