-- ===== src/Provider/Delete/Claim.antt =====
-- The claim that a delete holds (provider/cocoon/provider.go, delete.go).
use vk_cocoon.Base.{◌≡◌, arith, false, none, some, String, eq_refl, if◌then◌else◌}
use vk_cocoon.Base.Table.{contains-delete}
use vk_cocoon.Kube.{Pod, Meta}
use vk_cocoon.Provider.State.{Tables, Settings, key_of}
use vk_cocoon.Provider.Track.{is_deleting, is_superseded, claim_deleting, finish_deleting}
use vk_cocoon.Provider.World.{Env, World}
use vk_cocoon.Provider.Delete.{DeleteError, delete_pod, delete_claimed}

finish_deleting-is_deleting :
    (key : String) (t : Tables) → is_deleting key (finish_deleting key t) ≡ false
unfolding finish_deleting is_deleting
finish_deleting-is_deleting key t = ground (arith, contains-delete key key t.deleting, eq_refl key)

-- What a delete leaves behind, whatever the calls answer and whatever other goroutines do: of a pod
-- that a newer incarnation replaced, and of one that another delete has claimed, it changes nothing
-- and makes no call, with success for the first and an error for the second; a delete that got the
-- claim has let go of it when it returns, on every path.
pub delete_pod-claim :
    (m : Meta) (settings : Settings) (env : Env) (pod : Pod) (w : World)
    → let key = key_of m pod in
      let r = delete_pod m settings env pod w in
      if is_superseded key pod.uid w.tables
      then r ≡ (none, w)
      else if is_deleting key w.tables
      then r ≡ (some DeleteError.in_flight, w)
      else is_deleting key r.1.tables ≡ false
unfolding delete_pod claim_deleting
delete_pod-claim m settings env pod w = ground (
  arith,
  finish_deleting-is_deleting (key_of m pod)
      (delete_claimed m settings env pod
        (record w { tables = (claim_deleting (key_of m pod) pod.uid w.tables).0 })).1.tables,
)
