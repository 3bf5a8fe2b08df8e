-- ===== src/Kernel/Module/Loading.antt =====
-- What `kprobe_init` holds when it returns, on each of its branches.
use everyfile.Prelude.{
  ℕ, ◌≡◌, ◌↔◌, refl, Bool, true, false, ◌&&◌, Option, none, some, List, [], Bytes, if◌then◌else◌,
}
use everyfile.Kernel.State.{Partition, Kernel}
use everyfile.Kernel.MountInfo.{parsed}
use everyfile.Kernel.Module.{
  Module, absent, created, thread_of, krp_entrys_kp, Code, success, error, loaded, Answers,
  kprobe_init,
}

-- The module before it is loaded.
abbrev pub unloaded : Kernel → Module
unloaded k = record { kernel = k; log_open = false; socket = false; thread = absent; probes = [] }

abbrev pub is_none : Option ℕ → Bool
is_none none = true
is_none (some n) = false

-- The static variables as they are declared, over what the log file holds.
abbrev pub fresh : Bytes → Kernel
fresh log = record {
  partitions = [];
  sl_parts = false;
  sl_buf = false;
  sl_file = false;
  sl_msg = false;
  msg_buf = [];
  msg_buf_size = 0;
  file_on = 0;
  msg_ready = 0;
  log_file = log;
  pos = 0;
  outbox = [];
  running = false;
}

-- All calls succeed.
abbrev pub granted : Answers
granted = record { opened = true; created = true; threaded = true; registered = none }

-- The module that `kprobe_init` then makes.
abbrev pub planted : List Partition → Bytes → Module
planted parts log = record {
  kernel = record (fresh log) { partitions = parts };
  log_open = true;
  socket = true;
  thread = created;
  probes = krp_entrys_kp;
}

pub kprobe_init-granted :
    (parts : List Partition) (log : Bytes)
    → kprobe_init (parsed parts) granted (unloaded (fresh log)) ≡ loaded success (planted parts log)
unfolding kprobe_init
kprobe_init-granted parts log = refl

-- All calls succeed whose result is looked at.
abbrev pub all_succeed : Answers → Bool
all_succeed a = a.opened && (a.created && is_none a.registered)

-- What a call that returns `r` has left.
pub record Leaves (parts : List Partition) (a : Answers) (r : Code) (m : Module) : Type 0 where
  pub code : (r ≡ success) ↔ (all_succeed a ≡ true)
  pub parts_read : m.kernel.partitions ≡ parts
  pub log_open : m.log_open ≡ a.opened
  pub thread : m.thread ≡ (if a.opened then thread_of a.threaded else absent)
  pub socket : m.socket ≡ (a.opened && a.created)
  pub probes : m.probes ≡ (if all_succeed a then krp_entrys_kp else [])

error_iff : (n : ℕ) → (error n ≡ success) ↔ (false ≡ true)
error_iff n = (λ h. cc, λ h. cc)

success_iff : (success ≡ success) ↔ (true ≡ true)
success_iff = (λ h. refl, λ h. refl)

abbrev Init : List Partition → Kernel → Answers → Type 0
Init parts k a =
    (r : Code) × (m : Module) × (kprobe_init (parsed parts) a (unloaded k) ≡ loaded r m)
    × Leaves parts a r m

Init-cases :
    (parts : List Partition) (k : Kernel) (opened created threaded : Bool) (registered : Option ℕ)
    → Init parts k (record {
      opened = opened;
      created = created;
      threaded = threaded;
      registered = registered;
    })
unfolding kprobe_init
Init-cases parts k false made threaded registered = (
  _,
  _,
  refl,
  record {
    code = error_iff 1;
    parts_read = refl;
    log_open = refl;
    thread = refl;
    socket = refl;
    probes = refl;
  },
)
Init-cases parts k true false threaded registered = (
  _,
  _,
  refl,
  record {
    code = error_iff 1;
    parts_read = refl;
    log_open = refl;
    thread = refl;
    socket = refl;
    probes = refl;
  },
)
Init-cases parts k true true threaded none = (
  _,
  _,
  refl,
  record {
    code = success_iff;
    parts_read = refl;
    log_open = refl;
    thread = refl;
    socket = refl;
    probes = refl;
  },
)
Init-cases parts k true true threaded (some n) = (
  _,
  _,
  refl,
  record {
    code = error_iff n;
    parts_read = refl;
    log_open = refl;
    thread = refl;
    socket = refl;
    probes = refl;
  },
)

-- When the mount table has been read, kprobe_init returns 0 exactly if filp_open,
-- netlink_kernel_create and register_kprobes succeed, whatever kthread_create gives, and the
-- probes are registered exactly then; on every path, send_kthread is what kthread_create gave, its
-- error too, if the log file was opened, and what was acquired before a failing call stays: the
-- log file, the thread, and the socket if it was created.
pub kprobe_init_lem :
    (parts : List Partition) (k : Kernel) (a : Answers)
    → (r : Code) × (m : Module) × (kprobe_init (parsed parts) a (unloaded k) ≡ loaded r m)
      × Leaves parts a r m
kprobe_init_lem parts k a = Init-cases parts k a.opened a.created a.threaded a.registered
