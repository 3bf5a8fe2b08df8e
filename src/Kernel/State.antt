-- ===== src/Kernel/State.antt =====
-- The static variables of kernelmod/vfs_kprobe.c, its messages and partitions, and the commands
-- that read and write them. A command may run into behaviour that C or the kernel's interface
-- leaves undefined (a read through NULL), and may wait
-- for ever on a spin lock that is held.
use everyfile.Prelude.{ℕ, ◌+◌, ◌-◌, ◌%◌, ◌^◌, ◌≡◌, Bool, true, false, List, Bytes, if◌then◌else◌}

-- `nl_msg`: `path` is the room behind the header, of which `len` bytes are in use.
pub record Msg : Type 0 where
  pub flags : ℕ
  pub len : ℕ
  pub path : Bytes

-- `krp_partition`: device numbers kept in a byte each, and the mount point.
pub record Partition : Type 0 where
  pub major : ℕ
  pub minor : ℕ
  pub root : Bytes

-- `log_file` is what stands in the file `fp`; `outbox` is what `netlink_unicast` has accepted, in
-- order; `running` is the state of `send_kthread`, which sleeps when it calls the scheduler while
-- this is false.
pub record Kernel : Type 0 where
  pub partitions : List Partition
  pub sl_parts : Bool
  pub sl_buf : Bool
  pub sl_file : Bool
  pub sl_msg : Bool
  pub msg_buf : List Msg
  pub msg_buf_size : ℕ
  pub file_on : ℕ
  pub msg_ready : ℕ
  pub log_file : Bytes
  pub pos : ℕ
  pub outbox : List Bytes
  pub running : Bool

pub data Run {ℓ} (A : Type ℓ) : Type ℓ where
  ok : A → Kernel → Run A
  undefined : Run A
  deadlock : Run A

abbrev pub M : Type 0 → Type 0
M A = Kernel → Run A

abbrev pub pure : {A : Type 0} → A → M A
pure = ok

abbrev pub fail : {A : Type 0} → M A
fail k = undefined

module _ {A B : Type 0} where
  abbrev pub and_then : Run A → (A → M B) → Run B
  and_then (ok a k) f = f a k
  and_then undefined f = undefined
  and_then deadlock f = deadlock

  infixl 5 ◌>>=◌ ◌>>◌
  abbrev pub ◌>>=◌ : M A → (A → M B) → M B
  m >>= f = λ k. and_then (m k) f

  abbrev pub ◌>>◌ : M A → M B → M B
  m >> n = m >>= λ _. n

pub data Lock : Type 0 where
  parts buf file msg : Lock

abbrev pub is_held : Lock → Kernel → Bool
is_held parts k = k.sl_parts
is_held buf k = k.sl_buf
is_held file k = k.sl_file
is_held msg k = k.sl_msg

abbrev pub set_held : Lock → Bool → Kernel → Kernel
set_held parts b k = record k { sl_parts = b }
set_held buf b k = record k { sl_buf = b }
set_held file b k = record k { sl_file = b }
set_held msg b k = record k { sl_msg = b }

-- A spin lock is not recursive; the release of a lock that is free leaves it free, as the spin locks of
-- x86 do.
abbrev pub spin_lock : Lock → M (Unit {0})
spin_lock l k = if is_held l k then deadlock else ok tt (set_held l true k)

abbrev pub spin_unlock : Lock → M (Unit {0})
spin_unlock l k = ok tt (set_held l false k)

-- `x++` and `x--` of an `unsigned int`.
abbrev pub inc32 : ℕ → ℕ
inc32 n = (n + 1) % 2 ^ 32

abbrev pub dec32 : ℕ → ℕ
dec32 n = (n + 2 ^ 32 - 1) % 2 ^ 32

-- No lock is held: so it is between the calls of the module's entry points.
pub record Unlocked (k : Kernel) : Type 0 where
  pub parts_free : k.sl_parts ≡ false
  pub buf_free : k.sl_buf ≡ false
  pub file_free : k.sl_file ≡ false
  pub msg_free : k.sl_msg ≡ false
