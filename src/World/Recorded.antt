-- ===== src/World/Recorded.antt =====
-- Calls that stand anywhere in a history.
use container_object_storage.Prelude.{◌≡◌, ◌⊎◌, [], ◌∷◌}
use container_object_storage.World.{Call, History}

abbrev pub Recorded : Call → History → Type 0
Recorded x [] = ⊥
Recorded x (y ∷ h) = (x ≡ y) ⊎ Recorded x h
