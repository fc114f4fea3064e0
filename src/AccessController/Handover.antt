-- ===== src/AccessController/Handover.antt =====
-- bucketaccess.go of the Controller: what is handed over to the Sidecar.
use container_object_storage.Prelude.{
  All, deref, ◌≡◌, inl, inr, refl, sym, ap, subst, ◌∙◌, false, Option, none, some, List, [], ◌∷◌,
  dict_get-All, HasUniqueKeys,
}
use container_object_storage.Errors.{Error, Arg, ok}
use container_object_storage.Api.Bucket.{BucketClaim}
use container_object_storage.Api.Access.{
  BucketAccess, BucketAccessClass, BucketClaimAccess, AccessedBucket,
}
use container_object_storage.World.{
  Env, History, get_bucket_access_class, update_bucket_access_status,
}
use container_object_storage.World.Recorded.{Recorded}
use container_object_storage.AccessController.Validation.{validate_access_against_class}
use container_object_storage.World.Action.{State}
use container_object_storage.World.Accesses.{update_access_status}
use container_object_storage.World.Ensures.Steps.{Ensures-lifted, Ensures-checked}
use container_object_storage.World.Ensures.{
  Ensures, Ensures-bind, Ensures-call, Ensures-object, Ensures-set_object, Ensures-modify,
  Ensures-given,
}
use container_object_storage.AccessController.Marks.{Claims}
use container_object_storage.AccessController.Lookup.{
  Buckets, cannot_access_bucket_claims, waiting_on_bucket_claims, compile_accessed_buckets,
}
use container_object_storage.AccessController.Evidence.{
  IsAccessible, AreAccessible, IsInitializedFrom, IsHandedOver, IsTidy,
}
use container_object_storage.AccessController.Gather.{Base, Tidy, later}
use container_object_storage.AccessController.Marking.{AreClaimed, AreClaimed-later}
use container_object_storage.AccessController.Finding.{AreBuckets, get_buckets-finds}
use container_object_storage.AccessController.Ready.{
  IsUsable, IsReady, IsEntryOf, AreEntriesOf, cannot_access-IsUsable, waiting_on-IsReady,
  compile_accessed_buckets-AreEntriesOf,
}
use container_object_storage.AccessController.{
  invalid_for_class, blocked, waiting, initialized_with, hand_over,
}

module _ (a : BucketAccess) where
  entry-IsAccessible :
      (claims : Claims) (m : Buckets) (h : History) (ref : BucketClaimAccess) (x : AccessedBucket)
      → AreClaimed a a.spec.bucket_claims claims h
      → AreBuckets claims m h
      → All (λ e. (c : BucketClaim) → e.1 ≡ some c → IsUsable a.spec c) claims
      → All (λ e. IsReady e.1) claims
      → IsEntryOf m ref x
      → IsAccessible a h ref x
  entry-IsAccessible claims m h ref x (known, marks, z) found usable ready (b, p, q, r) =
      let n = ref.bucket_claim_name in
      let (c, e, t) = found n b p in
      let (living, supports) = dict_get-All _ claims n (some c) usable e c refl in
      let (d, i, j) = dict_get-All _ claims n (some c) ready e in
      let i' : d ≡ c = cc in
      record {
        claim = c;
        is_claim = known n c e;
        has_mark = marks n c e;
        is_living = living;
        is_ready = ap (λ k. deref k.status.ready_to_use false) (sym i') ∙ j;
        supports = supports;
        bucket = b;
        is_bucket = t;
        has_id = q;
        same_entry = r;
      }

  entries-AreAccessible :
      (m : Buckets) (h : History) (refs : List BucketClaimAccess) (xs : List AccessedBucket)
      → ((ref : BucketClaimAccess) (x : AccessedBucket)
          → IsEntryOf m ref x
          → IsAccessible a h ref x)
      → AreEntriesOf m refs xs
      → AreAccessible a h refs xs
  entries-AreAccessible m h [] [] k e = tt
  entries-AreAccessible m h [] (x ∷ xs) k e = e
  entries-AreAccessible m h (r ∷ rs) [] k e = e
  entries-AreAccessible m h (r ∷ rs) (x ∷ xs) k e =
      (k r x e.0, entries-AreAccessible m h rs xs k e.1)

  error_of_blocked : (ms : List Arg) → blocked ms ≡ none → ms ≡ []
  unfolding blocked
  error_of_blocked [] h = refl
  error_of_blocked (m ∷ ms) h = cc

  error_of_waiting : (ms : List Arg) → waiting ms ≡ none → ms ≡ []
  unfolding waiting
  error_of_waiting [] h = refl
  error_of_waiting (m ∷ ms) h = cc

  error_of_class : (e : Option Error) → invalid_for_class e ≡ none → e ≡ none
  unfolding invalid_for_class
  error_of_class none h = refl
  error_of_class (some e) h = cc

module _ (env : Env) (a : BucketAccess) where
  abbrev pub claims_of : List BucketClaimAccess
  claims_of = a.spec.bucket_claims

  -- The BucketAccess in memory is the one that was read, with the class that was read for it.
  abbrev Classed : BucketAccess → BucketAccessClass → State BucketAccess → Type 0
  Classed b k s =
      (b ≡ s.object)
      × Recorded (get_bucket_access_class b.spec.bucket_access_class_name (ok k)) s.history

  -- The status in memory is complete.
  abbrev Complete : State BucketAccess → Type 0
  Complete s = IsInitializedFrom a s.history s.object × IsTidy a env s.history

  abbrev pub HandedOver : State BucketAccess → Type 0
  HandedOver s = IsHandedOver a s.history × IsTidy a env s.history

  complete :
      (b : BucketAccess) (k : BucketAccessClass) (claims : Claims) (m : Buckets)
      (xs : List AccessedBucket)
      → validate_access_against_class k.spec b.spec ≡ none
      → cannot_access_bucket_claims claims b.spec ≡ []
      → waiting_on_bucket_claims claims m ≡ []
      → compile_accessed_buckets b.spec.bucket_claims m ≡ ok xs
      → (s : State BucketAccess)
      → Classed b k s
        × Base env a s
        × AreClaimed a claims_of claims s.history
        × AreBuckets claims m s.history
      → Complete (record s { object = initialized_with xs k s.object })
  complete b k claims m xs v u w e s ((q, r), ((t, st), _, tidy), c, g) =
      let p : b.spec ≡ a.spec = ap (λ i. i.spec) q ∙ sym t.same_spec in
      let usable = cannot_access-IsUsable claims a.spec (rw p at u) in
      let entries = compile_accessed_buckets-AreEntriesOf claims_of m xs (rw p at e) in
      (
        record {
          same_access = record {
            same_namespace = t.same_namespace;
            same_name = t.same_name;
            same_uid = t.same_uid;
            same_spec = t.same_spec;
          };
          accessible =
              entries-AreAccessible a m s.history claims_of xs
                (λ ref x.
                  entry-IsAccessible a claims m s.history ref x c g usable
                    (waiting_on-IsReady claims m w))
                entries;
          class = k;
          is_class =
              subst
                (λ i.
                  Recorded (get_bucket_access_class i.bucket_access_class_name (ok k)) s.history)
                p r;
          is_valid = rw p at v;
          same_driver = refl;
          same_authentication = refl;
          same_parameters = refl;
          no_error = refl;
        },
        tidy,
      )

  stores_status : Ensures Complete (update_access_status env) (λ _. HandedOver) (λ _. Tidy env a)
  unfolding update_access_status
  stores_status = Ensures-bind _ Ensures-object λ b.
      Ensures-bind (λ _. HandedOver)
        (Ensures-call (update_bucket_access_status b) _ (λ c s ((i, t), q) e. (rw q i, t))
          (λ x s ((i, t), q) e. t))
        λ c. Ensures-set_object c (λ s h. h)

  pub hand_over-HandedOver :
      (claims : Claims)
      → Ensures
          (λ s. HasUniqueKeys claims × (Base env a s × AreClaimed a claims_of claims s.history))
          (hand_over env claims)
          (λ _. HandedOver)
          (λ _. Tidy env a)
  unfolding hand_over
  hand_over-HandedOver claims = Ensures-given λ u. Ensures-bind _ Ensures-object λ b.
      Ensures-bind (λ k s. Classed b k s × Base env a s × AreClaimed a claims_of claims s.history)
        (Ensures-call _ _
          (λ k s ((c, g), q) e. (
            (q, inl refl),
            later env a _ s c c.2,
            AreClaimed-later a _ claims_of claims s.history g,
          ))
          (λ x s h e. h.0.0.2))
        λ k.
          Ensures-checked _ (λ s h. h.1.2)
            λ valid.
              Ensures-bind _
                (get_buckets-finds env a claims_of claims (Classed b k) (λ x s h. (h.0, inr h.1)) u)
                λ m.
                  Ensures-checked _ (λ s h. h.1.2)
                    λ allowed.
                      Ensures-checked _ (λ s h. h.1.2)
                        λ ready.
                          Ensures-lifted _ _ (λ s h. h.1.2)
                            λ xs compiled.
                              Ensures-bind (λ _. Complete)
                                (Ensures-modify _ (
                                  complete b k claims m xs (error_of_class a _ valid)
                                    (error_of_blocked a _ allowed) (error_of_waiting a _ ready)
                                    compiled))
                                λ _. stores_status
