-- ===== src/Tests/LockRuns.antt =====
-- Several threads of kernelmod/vfs_kprobe.c at concrete states.
use everyfile.Prelude.{◌<◌, ◌↔◌, refl, false, true, [], ◌∷◌, arith}
use everyfile.Kernel.MsgLock.{State, Steps}
use everyfile.Kernel.MsgLock.Exclusion.{IsShared, start, both_inside_iff}
use everyfile.Kernel.LockOrder.{resting, in_file, out, overflown}
use everyfile.Kernel.LockOrder.Crossed.{IsCrossed}
use everyfile.Kernel.LockOrder.Crowd.{Crowd, view, CrowdStep, CrowdSteps, first, behind, IsOrderly}
use everyfile.Kernel.LockOrder.Together.{crowd_stuck_iff, crowd_crosses}

abbrev full : Crowd
full = record {
  sender = resting;
  adders = out ∷ out ∷ [];
  sl_file = false;
  sl_buf = false;
  msg_buf_size = 128;
  file_on = 0;
}

abbrev full-IsOrderly : IsOrderly full
full-IsOrderly = record {
  inside = out;
  alone = first (refl, tt);
  sound = record { file_flag = refl; buf_flag = refl; file_one = refl; buf_one = refl };
}

crowd_crosses_example :
    (t : Crowd) × CrowdSteps full t
    × (o : IsOrderly t) × IsCrossed (view o.inside t)
    × ((u : Crowd) → ¬ (CrowdStep t u))
crowd_crosses_example = crowd_crosses full full-IsOrderly refl refl refl (omega arith)

-- The sending thread and the second of the others have one lock each.
abbrev one_each : Crowd
one_each = record {
  sender = in_file;
  adders = out ∷ overflown ∷ [];
  sl_file = true;
  sl_buf = true;
  msg_buf_size = 128;
  file_on = 0;
}

abbrev one_each-IsOrderly : IsOrderly one_each
one_each-IsOrderly = record {
  inside = overflown;
  alone = behind refl (first tt);
  sound = record { file_flag = refl; buf_flag = refl; file_one = refl; buf_one = refl };
}

crowd_stuck_iff_example :
    ((t : Crowd) → ¬ (CrowdStep one_each t)) ↔ IsCrossed (view overflown one_each)
crowd_stuck_iff_example = crowd_stuck_iff one_each one_each-IsOrderly

both_inside_iff_example : ((t : State) × Steps start 2 t × IsShared t) ↔ (0 < 2)
both_inside_iff_example = both_inside_iff 2
