-- ===== src/Tests/Errors.antt =====
-- The theorems on errors at concrete values.
use mach_ports_rs.Prelude.{◌≡◌, refl, true, arith}
use mach_ports_rs.Error
use mach_ports_rs.Error.{
  Masks, kind, from_kind, fmt, send_name, recv_name, send_table, recv_table, SendErrorKind,
  RecvErrorKind,
}
use mach_ports_rs.Error.Words.{IsDarwinMasks, vm_kernel, ipc_space, get, set, Flag}
use mach_ports_rs.Error.Display.{fmt-kind}
use mach_ports_rs.Error.Kinds.{send_code, recv_code, kind-from_kind, kind-set}

abbrev masks : Masks
masks = record {
  mask = 0x3e00;
  vm_space = 0x1000;
  vm_kernel = 0x400;
  ipc_space = 0x2000;
  ipc_kernel = 0x800;
}

masks-IsDarwinMasks : IsDarwinMasks masks
masks-IsDarwinMasks = record {
  mask = refl;
  vm_space = refl;
  vm_kernel = refl;
  ipc_space = refl;
  ipc_kernel = refl;
}

kinds_example :
    ((k : SendErrorKind)
      → kind masks (send_table send_code) (from_kind masks (send_table send_code) k) ≡ k)
    × ((k : RecvErrorKind)
        → kind masks (recv_table recv_code) (from_kind masks (recv_table recv_code) k) ≡ k)
kinds_example = kind-from_kind masks-IsDarwinMasks send_code recv_code (λ v. refl) (λ v. refl)

flags_example :
    (get masks vm_kernel (set masks ipc_space 0x10004403 true) ≡ true)
    × (kind masks (recv_table recv_code) (set masks ipc_space 0x10004403 true)
        ≡ kind masks (recv_table recv_code) 0x10004403)
unfolding Error.vm_kernel
flags_example =
    kind-set masks-IsDarwinMasks (recv_table recv_code) ipc_space vm_kernel 0x10004403 true
      (omega arith)

display_example :
    (fmt send_name masks (send_table send_code) 0x10000003
        ≡ fmt send_name masks (send_table send_code) 0x10000203
      → (kind masks (send_table send_code) 0x10000003
          ≡ kind masks (send_table send_code) 0x10000203)
        × ((f : Flag) → get masks f 0x10000003 ≡ get masks f 0x10000203))
    × (fmt recv_name masks (recv_table recv_code) 0x10000003
          ≡ fmt recv_name masks (recv_table recv_code) 0x10000203
        → (kind masks (recv_table recv_code) 0x10000003
            ≡ kind masks (recv_table recv_code) 0x10000203)
          × ((f : Flag) → get masks f 0x10000003 ≡ get masks f 0x10000203))
display_example = fmt-kind masks send_code recv_code 0x10000003 0x10000203
