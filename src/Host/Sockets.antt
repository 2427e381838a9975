-- ===== src/Host/Sockets.antt =====
-- execution-engine/src/wasi/common.rs: the calls on sockets and the polling, with `Unpack` of
-- `Subscription` and `Event`.
use veracruz.Base.{
  ◌>>=◌, ◌>>◌, ℕ, zero, suc, ◌+◌, ◌*◌, ◌%◌, ◌^◌, Option, none, some, List, [], ◌∷◌, Result, Exec,
  pure, fail, lift, modify, gets, fail_if, ok_or, leb, not, ◌==◌, length, take, drop,
}
use veracruz.Wasi.{Wasi, ErrNo, inval}
use veracruz.Vfs.Impl.{Bytes}
use veracruz.Vfs.Directory
use veracruz.Host.Memory
use veracruz.Host.Memory.{MemoryExec}
use veracruz.Host.Wrapper.{Host, HostExec, EventType, on_memory, on_filesystem, decode}

pub data SubscriptionUnion : Type 0 where
  clock : ℕ → ℕ → ℕ → ℕ → SubscriptionUnion
  fd_read : ℕ → SubscriptionUnion
  fd_write : ℕ → SubscriptionUnion

pub record Subscription : Type 0 where
  pub userdata : ℕ
  pub u : SubscriptionUnion

pub record EventFdState : Type 0 where
  pub file_size : ℕ
  pub flags : ℕ

pub record Event : Type 0 where
  pub user_data : ℕ
  pub error : ℕ
  pub ty : EventType
  pub fd_state : Option EventFdState

-- `u32::try_from`, `u16::try_from` and `u8::try_from`, and what the bytes left of a `Cursor` are.
abbrev narrow : ℕ → ℕ → Exec ErrNo Bytes Unit
narrow width n = fail_if (leb (2 ^ width) n) inval

module _ ⦃k : Host⦄ where
  -- `read_u64`, `read_u48` and `read_u16`, by the number of bytes.
  unfoldable pub read_le : ℕ → Exec ErrNo Bytes ℕ
  unfolding Memory.le_value
  read_le width = do
    left ← gets (λ bytes. bytes)
    fail_if (not (leb width (length left))) k.end_of_input
    modify (λ bytes. drop width bytes)
    pure (Memory.le_value (take width left))

  unfoldable pub read_clock : Exec ErrNo Bytes SubscriptionUnion
  unfolding read_le
  read_clock = do
    wide_id ← read_le 8
    narrow 32 wide_id
    clock_id ← ok_or inval (k.clock_id wide_id)
    timeout ← read_le 8
    precision ← read_le 8
    flags ← read_le 8
    narrow 16 flags
    pure (SubscriptionUnion.clock clock_id timeout precision flags)

  unfoldable pub read_fd : (ℕ → SubscriptionUnion) → Exec ErrNo Bytes SubscriptionUnion
  unfolding read_le
  read_fd of_fd = do fd ← read_le 8; narrow 32 fd; read_le 8; read_le 8; read_le 8; pure (of_fd fd)

  unfoldable pub read_union : ℕ → Exec ErrNo Bytes SubscriptionUnion
  read_union zero = read_clock
  read_union (suc zero) = read_fd SubscriptionUnion.fd_read
  read_union (suc (suc zero)) = read_fd SubscriptionUnion.fd_write
  read_union _ = fail inval

  unfoldable pub read_subscription : Exec ErrNo Bytes Subscription
  unfolding read_le read_union
  read_subscription = do
    userdata ← read_le 8
    tag ← read_le 8
    u ← read_union tag
    pure (record { userdata = userdata; u = u })

  unfoldable pub read_fd_state : EventType → Exec ErrNo Bytes (Option EventFdState)
  read_fd_state EventType.clock = pure none
  read_fd_state _ = do
    file_size ← read_le 8
    wide_flags ← read_le 8
    narrow 16 wide_flags
    flags ← ok_or inval (k.event_rw_flags wide_flags)
    pure (some (record { file_size = file_size; flags = flags }))

  unfoldable pub read_event : Exec ErrNo Bytes Event
  unfolding read_le read_fd_state
  read_event = do
    user_data ← read_le 8
    code ← read_le 2
    error ← ok_or inval (k.err_no code)
    wide_ty ← read_le 6
    narrow 8 wide_ty
    ty ← ok_or inval (k.event_type wide_ty)
    fd_state ← read_fd_state ty
    pure (record { user_data = user_data; error = error; ty = ty; fd_state = fd_state })

-- `Unpack::unpack` on the bytes of a slice, which have to be as many as the structure has.
unfoldable pub unpack_as : {T : Type 0} → ℕ → Exec ErrNo Bytes T → Bytes → Result ErrNo T
unpack_as size reader bytes = ((do fail_if (not (length bytes == size)) inval; reader) bytes).0

unfoldable pub unpack_array :
    {T : Type 0} → ℕ → Exec ErrNo Bytes T → ℕ → ℕ → ℕ → MemoryExec (List T)
unfolding unpack_as
unpack_array size reader address i zero = pure []
unpack_array size reader address i (suc count) = do
  bytes ← Memory.get_slice ((address + i * size) % 2 ^ 32) size
  element ← lift (unpack_as size reader bytes)
  others ← unpack_array size reader address (i + 1) count
  pure (element ∷ others)

module _ ⦃w : Wasi⦄ ⦃k : Host⦄ where
  unfoldable pub poll_oneoff : ℕ → ℕ → ℕ → ℕ → HostExec Unit
  unfolding unpack_array read_subscription read_event
  poll_oneoff subscriptions events size address = do
    subscribed ← on_memory (unpack_array k.subscription_size read_subscription subscriptions 0 size)
    happened ← on_memory (unpack_array k.event_size read_event events 0 size)
    rst ← on_filesystem (Directory.poll_oneoff {A = ℕ} subscribed happened)
    on_memory (Memory.write_u32 address rst)

  unfoldable pub sock_recv : ℕ → ℕ → ℕ → ℕ → ℕ → ℕ → HostExec Unit
  sock_recv socket ri_address ri_len ri_flag ro_data_len ro_flag = do
    places ← on_memory (Memory.unpack_places ri_address 0 ri_len)
    decoded ← decode (k.ri_flags ri_flag)
    (size_read, ro_flags) ← on_filesystem (Directory.sock_recv {A = ℕ × ℕ} socket)
    on_memory (Memory.write_u32 ro_data_len size_read)
    on_memory (Memory.write_buffer ro_flag (Memory.le_bytes 2 ro_flags))

  unfoldable pub sock_send : ℕ → ℕ → ℕ → ℕ → ℕ → HostExec Unit
  sock_send socket si_address si_len si_flag address = do
    iovecs ← on_memory (Memory.unpack_iovec si_address si_len)
    decoded ← decode (k.si_flags si_flag)
    size_written ← on_filesystem (Directory.sock_send {A = ℕ} socket)
    on_memory (Memory.write_u32 address size_written)
