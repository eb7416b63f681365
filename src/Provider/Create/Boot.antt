-- ===== src/Provider/Create/Boot.antt =====
-- `CreatePod` never boots past a hibernate snapshot (create.go).
use vk_cocoon.Base.{◌≡◌, true}
use vk_cocoon.Kube.{Pod, Meta}
use vk_cocoon.Provider.World.{World}

-- The mark of a restore is read back.
abbrev pub MarksRestore : Meta → Type 0
MarksRestore m = (p : Pod) → m.read_restore_from_hibernate (m.mark_restore_from_hibernate p) ≡ true
