-- ===== src/Tests/ModuleRuns.antt =====
-- Loading and unloading kernelmod/vfs_kprobe.c at concrete answers of the kernel.
use everyfile.Prelude.{
  ℕ, ◌+◌, ◌≡◌, refl, true, false, some, none, [], ◌∷◌, ◌++◌, arith, codes, length,
}
use everyfile.Kernel.State.{Msg, Kernel}
use everyfile.Kernel.Buffer.{Writer}
use everyfile.Kernel.Buffer.Sound.{IsSound}
use everyfile.Kernel.MountInfo.{parsed}
use everyfile.Kernel.Sender
use everyfile.Kernel.Module.{
  Module, asleep, krp_entrys_kp, Code, loaded, Answers, kprobe_init, unload,
}
use everyfile.Kernel.Module.Loading.{unloaded, Leaves, kprobe_init_lem}
use everyfile.Kernel.Module.Unloading.{unload_outcome, unload_lem}

abbrev appender : Writer
appender file text pos = (file ++ text, pos + length text)

abbrev msg_of : ℕ → Msg
msg_of n = record { flags = n; len = 2; path = codes "/a" }

abbrev two : Kernel
two = record {
  partitions = [];
  sl_parts = false;
  sl_buf = false;
  sl_file = false;
  sl_msg = false;
  msg_buf = msg_of 1 ∷ msg_of 2 ∷ [];
  msg_buf_size = 2;
  file_on = 0;
  msg_ready = 0;
  log_file = [];
  pos = 0;
  outbox = [];
  running = false;
}

two-IsSound : IsSound two
two-IsSound = record {
  unlocked = record { parts_free = refl; buf_free = refl; file_free = refl; msg_free = refl };
  counted = refl;
  bounded = omega arith;
}

-- There is no socket.
abbrev no_socket : Answers
no_socket = record { opened = true; created = false; threaded = true; registered = none }

kprobe_init_lem_example :
    (r : Code) × (m : Module) × (kprobe_init (parsed []) no_socket (unloaded two) ≡ loaded r m)
    × Leaves [] no_socket r m
kprobe_init_lem_example = kprobe_init_lem [] two no_socket

abbrev running_module : Module
running_module = record {
  kernel = two;
  log_open = true;
  socket = true;
  thread = asleep;
  probes = krp_entrys_kp;
}

-- The socket takes the message that the thread sends when it is woken.
abbrev taken : Sender.Answers
taken = record { skb = true; header = true; flag = true; accepted = true; ret = 0 }

unload_lem_example :
    unload appender taken (λ _. true) 3 running_module
    ≡ some (unload_outcome appender taken running_module)
unload_lem_example = unload_lem appender taken 3 running_module two-IsSound refl (omega arith)
