-- ===== src/HostPath/Lifecycle/Rules.antt =====
-- Actions in sequence: the steps of the one, then the steps of the other.
use csi.Prelude.{Bool, List}
use csi.Exec.{Exec, ◌>>=◌}
use csi.State.Types.{Volume}
use csi.State.Store.{Store}
use csi.HostPath.Env.{Config}
use csi.HostPath.Leads.{Leads, Leads-bind}
use csi.HostPath.Lifecycle.{Reach, Reach-trans}

module _ {W A B : Type 0} {cfg : Config} {ephemeral : Bool} {vs : List Volume} where
  pub Reach-bind :
      (m : Exec (Store W) A) (f : A → Exec (Store W) B)
      → Leads vs (Reach cfg ephemeral vs) m
      → ((a : A) (us : List Volume) → Leads us (Reach cfg ephemeral us) (f a))
      → Leads vs (Reach cfg ephemeral vs) (m >>= f)
  Reach-bind m f h k =
      Leads-bind (Reach cfg ephemeral vs) _ m f h (λ us r. r)
        λ a us r. record { at = λ s e. Reach-trans r ((k a us).at s e) }
