-- ===== src/Tests/Health.antt =====
-- The health checks and the methods that report them, on concrete inputs.
use csi.Prelude.{◌≡◌, ◌↔◌, refl, false, some, List, [], ◌∷◌, String-discrete, map, take, drop}
use csi.Prelude.Int.{pos}
use csi.Prelude.Parse.{parse_int32}
use csi.Prelude.Sort.{sort}
use csi.Exec.{ok, panicked}
use csi.State.Table.{find}
use csi.State.Store.{volume_key, get_volumes}
use csi.HostPath.Health.{do_health_check_in_controller_side}
use csi.HostPath.Health.Sound.{Healthy, IsSound, health_check_iff}
use csi.HostPath.Volumes.{
  VolumeEntry, ListVolumesRequest, starting_index, list_volumes, controller_get_volume,
}
use csi.HostPath.Volumes.Page.{shown, listed, list_volumes-page, list_volumes-panicked}
use csi.HostPath.Volumes.Condition.{Answer, controller_get_volume-Answer}
use csi.Tests.{a_volume, env, one_volume}

health_check_iff_example :
    Healthy env (do_health_check_in_controller_side env "v1" one_volume).0
    ↔ IsSound env "v1" one_volume
health_check_iff_example = health_check_iff env "v1" one_volume

abbrev from_start : ListVolumesRequest
from_start = record { starting_token = ""; max_entries = pos 5 }

abbrev from_zero : ListVolumesRequest
from_zero = record { starting_token = "0"; max_entries = pos 5 }

started : starting_index "" ≡ some (pos 1)
unfolding starting_index parse_int32 String-discrete
started = refl

zero_token : starting_index "0" ≡ some (pos 0)
unfolding starting_index parse_int32 String-discrete
zero_token = refl

list_volumes-page_example :
    (entries : List VolumeEntry) × ((list_volumes env from_start one_volume).0 ≡ ok entries)
    × (map shown entries ≡ map listed (drop 0 (take 5 (sort volume_key (get_volumes one_volume)))))
    × ((list_volumes env from_start one_volume).1.resources ≡ one_volume.resources)
list_volumes-page_example = list_volumes-page env from_start one_volume 0 started

list_volumes-panicked_example : (list_volumes env from_zero one_volume).0 ≡ panicked
list_volumes-panicked_example =
    list_volumes-panicked env from_zero one_volume (pos 0) zero_token refl

controller_get_volume-Answer_example :
    (e : VolumeEntry) × ((controller_get_volume env "v1" one_volume).0 ≡ ok e)
    × ((controller_get_volume env "v1" one_volume).1.resources ≡ one_volume.resources)
    × Answer env "v1" one_volume (find volume_key "v1" (a_volume ∷ [])) e
    × ((e.condition.abnormal ≡ false) ↔ IsSound env "v1" one_volume)
controller_get_volume-Answer_example = controller_get_volume-Answer env "v1" one_volume
