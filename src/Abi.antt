-- ===== src/Abi.antt =====
-- What msg/mod.rs, msg/builder.rs, msg/parser.rs, msg/buffer.rs and rights.rs take from the mach2
-- crate: the constants of Darwin's message and port headers, and the sizes of its structures.
use mach_ports_rs.Prelude.{ℕ, ◌≡◌, Bool, Profile}

-- The constants (`vm_flags` is VM_PROT_READ | VM_PROT_WRITE | VM_FLAGS_ANYWHERE, `page_size` what
-- `page_size::get_granularity` returns), the profile that the crate is built with, and whether the global allocator serves
-- a request of so many bytes.
pub record Platform : Type 0 where
  pub profile : Profile
  pub msgh_bits_remote_mask : ℕ
  pub msgh_bits_local_mask : ℕ
  pub msgh_bits_voucher_mask : ℕ
  pub msgh_bits_complex : ℕ
  pub msgh_bits_user : ℕ
  pub move_receive : ℕ
  pub move_send : ℕ
  pub move_send_once : ℕ
  pub copy_send : ℕ
  pub make_send : ℕ
  pub make_send_once : ℕ
  pub copy_receive : ℕ
  pub port_descriptor : ℕ
  pub ool_descriptor : ℕ
  pub ool_ports_descriptor : ℕ
  pub ool_volatile_descriptor : ℕ
  pub port_null : ℕ
  pub header_size : ℕ
  pub header_align : ℕ
  pub port_descriptor_size : ℕ
  pub ool_descriptor_size : ℕ
  pub ool_ports_descriptor_size : ℕ
  pub port_descriptor_align : ℕ
  pub virtual_copy : ℕ
  pub physical_copy : ℕ
  pub vm_flags : ℕ
  pub page_size : ℕ
  pub allocates : ℕ → Bool
  pub kern_success : ℕ
  pub kern_invalid_right : ℕ
  pub right_send : ℕ
  pub right_receive : ℕ
  pub right_send_once : ℕ
  pub right_dead_name : ℕ
  pub send_msg : ℕ
  pub rcv_msg : ℕ

-- The values that Darwin documents for them in mach/message.h and mach/port.h.
pub record IsDarwin (p : Platform) : Type 0 where
  pub remote_mask : p.msgh_bits_remote_mask ≡ 0x1f
  pub local_mask : p.msgh_bits_local_mask ≡ 0x1f00
  pub voucher_mask : p.msgh_bits_voucher_mask ≡ 0x1f0000
  pub complex_bit : p.msgh_bits_complex ≡ 0x80000000
  pub user_mask : p.msgh_bits_user ≡ 0x801f1f1f
  pub move_receive : p.move_receive ≡ 16
  pub move_send : p.move_send ≡ 17
  pub move_send_once : p.move_send_once ≡ 18
  pub copy_send : p.copy_send ≡ 19
  pub make_send : p.make_send ≡ 20
  pub make_send_once : p.make_send_once ≡ 21
  pub copy_receive : p.copy_receive ≡ 22
  pub port_descriptor : p.port_descriptor ≡ 0
  pub ool_descriptor : p.ool_descriptor ≡ 1
  pub ool_ports_descriptor : p.ool_ports_descriptor ≡ 2
  pub ool_volatile_descriptor : p.ool_volatile_descriptor ≡ 3
  pub port_null : p.port_null ≡ 0
  pub header_size : p.header_size ≡ 24
  pub header_align : p.header_align ≡ 4
  pub port_descriptor_size : p.port_descriptor_size ≡ 12
  pub ool_descriptor_size : p.ool_descriptor_size ≡ 16
  pub ool_ports_descriptor_size : p.ool_ports_descriptor_size ≡ 16
  pub kern_success : p.kern_success ≡ 0
  pub kern_invalid_right : p.kern_invalid_right ≡ 17
  pub right_send : p.right_send ≡ 0
  pub right_receive : p.right_receive ≡ 1
  pub right_send_once : p.right_send_once ≡ 2
  pub right_dead_name : p.right_dead_name ≡ 4
  pub send_msg : p.send_msg ≡ 1
  pub rcv_msg : p.rcv_msg ≡ 2
  pub port_descriptor_align : p.port_descriptor_align ≡ 4
  pub virtual_copy : p.virtual_copy ≡ 1
  pub physical_copy : p.physical_copy ≡ 0
