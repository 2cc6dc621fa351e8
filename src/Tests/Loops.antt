-- ===== src/Tests/Loops.antt =====
-- The cleaner's loop on a short run: an event, the token, and the scan.
use px_smt_multirealm_shim.Common.{◌≡◌, ◌⊎◌, refl, subst, true, false, [], arith}
use px_smt_multirealm_shim.Bytes.{codes}
use px_smt_multirealm_shim.Cleaner.{Node, Config}
use px_smt_multirealm_shim.Cleaner.Scan.{volumeattachment_delete}
use px_smt_multirealm_shim.Cleaner.Scan.Safety.{destructive}
use px_smt_multirealm_shim.Cleaner.Loop.{
  WatchEvent, State, initial, notify, scan, event, take_token, wake, Reach, here, next,
}
use px_smt_multirealm_shim.Cleaner.Loop.Safety.{
  IsBelow, Reach-IsBelow, Reach-dry, is_owed, Step-owed,
}

abbrev quiet_node : Node
quiet_node before c = ([], true)

abbrev cfg : Config
cfg = record { grace_polls = 2; vendor = codes "PURE"; dry_run = true }

abbrev detached : WatchEvent
detached = record { event_type = codes "DELETED"; node_name = codes "w1" }

abbrev notified : State
notified = record initial { pending = true }

abbrev taken : State
taken = record initial { pausing = true }

is_notified : notify (codes "w1") detached initial ≡ notified
unfolding notify
is_notified = refl

one_event : Reach quiet_node cfg (codes "w1") initial notified
one_event =
    subst (λ s. Reach quiet_node cfg (codes "w1") initial s) is_notified
      (next here (event detached))

run :
    Reach quiet_node cfg (codes "w1") initial (scan quiet_node cfg volumeattachment_delete initial)
run = next (next one_event (take_token {st = notified} refl refl)) (wake {st = taken} refl)

Reach-IsBelow_example :
    IsBelow cfg (scan quiet_node cfg volumeattachment_delete initial).orphan_streak
Reach-IsBelow_example = Reach-IsBelow quiet_node cfg (codes "w1") (omega arith) run

Reach-dry_example :
    destructive (scan quiet_node cfg volumeattachment_delete initial).log ≡ destructive initial.log
Reach-dry_example = Reach-dry quiet_node cfg (codes "w1") refl run

Step-owed_example :
    (is_owed taken ≡ true)
    ⊎ (taken ≡ scan quiet_node cfg volumeattachment_delete (record notified { pausing = false }))
Step-owed_example =
    Step-owed quiet_node cfg (codes "w1") refl (take_token {st = notified} refl refl)
