-- ===== src/Error.antt =====
-- msg/error.rs: the two macros that define the kinds and the errors of a message transfer, and the two
-- enumerations that they are used for.
pub mod Words
pub mod Kinds
pub mod Display
use Prim.Native.String.{String}
use mach_ports_rs.Prelude.{
  ℕ, suc, ◌+◌, ◌^◌, Bool, true, false, List, [], ◌∷◌, map, bit_and, bit_or, ◌==◌, if◌then◌else◌,
}
use mach_ports_rs.Prelude.Bits.{not_word}

-- The masks of mach2 for errors.
pub record Masks : Type 0 where
  pub mask : ℕ
  pub vm_space : ℕ
  pub vm_kernel : ℕ
  pub ipc_space : ℕ
  pub ipc_kernel : ℕ

-- What `def_error_kind!` is given: the variants in their order and the constant of each.
pub record Table (V : Type 0) : Type 0 where
  pub variants : List V
  pub value : V → ℕ

-- The enumeration that it defines.
pub data ErrorKind (V : Type 0) : Type 0 where
  known : V → ErrorKind V
  other : ErrorKind V

module _ {V : Type 0} (t : Table V) where
  -- The arms of the `match`.
  abbrev pub find_code : List V → ℕ → ErrorKind V
  find_code [] code = other
  find_code (v ∷ vs) code =
      let rest = find_code vs code in if code == t.value v then known v else rest

  unfoldable pub from_error_code : ℕ → ErrorKind V
  from_error_code code = find_code t.variants code

-- The discriminant behind the last one of a list.
abbrev pub next_discriminant : List ℕ → ℕ
next_discriminant [] = 0
next_discriminant (x ∷ []) = suc x
next_discriminant (x ∷ y ∷ xs) = next_discriminant (y ∷ xs)

-- `struct SendError(RawErrorBits)`: 32 bits.
abbrev pub MsgError : Type 0
MsgError = ℕ

module _ (m : Masks) where
  module _ {V : Type 0} (t : Table V) where
    -- `$var = $val & !MACH_MSG_MASK`, and `Other` has the next number.
    unfoldable pub discriminant : ErrorKind V → ℕ
    discriminant (known v) = bit_and (t.value v) (not_word m.mask)
    discriminant other =
        next_discriminant (map (λ v. bit_and (t.value v) (not_word m.mask)) t.variants)

    unfoldable pub from_kind : ErrorKind V → MsgError
    from_kind kind = discriminant kind

    unfoldable pub kind : MsgError → ErrorKind V
    kind e = from_error_code t (bit_and e (not_word m.mask))

  abbrev pub from_bits : ℕ → MsgError
  from_bits bits = bits

  abbrev pub bits : MsgError → ℕ
  bits e = e

  unfoldable pub vm_space : MsgError → Bool
  vm_space e = bit_and e m.vm_space == m.vm_space

  unfoldable pub set_vm_space : MsgError → Bool → MsgError
  set_vm_space e value = if value then bit_or e m.vm_space else bit_and e (not_word m.vm_space)

  unfoldable pub vm_kernel : MsgError → Bool
  vm_kernel e = bit_and e m.vm_kernel == m.vm_kernel

  unfoldable pub set_vm_kernel : MsgError → Bool → MsgError
  set_vm_kernel e value = if value then bit_or e m.vm_kernel else bit_and e (not_word m.vm_kernel)

  unfoldable pub ipc_space : MsgError → Bool
  ipc_space e = bit_and e m.ipc_space == m.ipc_space

  unfoldable pub set_ipc_space : MsgError → Bool → MsgError
  set_ipc_space e value = if value then bit_or e m.ipc_space else bit_and e (not_word m.ipc_space)

  unfoldable pub ipc_kernel : MsgError → Bool
  ipc_kernel e = bit_and e m.ipc_kernel == m.ipc_kernel

  unfoldable pub set_ipc_kernel : MsgError → Bool → MsgError
  set_ipc_kernel e value =
      if value then bit_or e m.ipc_kernel else bit_and e (not_word m.ipc_kernel)

-- The variants of `SendErrorKind` and of `RecvErrorKind`, less their `Other`.
pub data SendVariant : Type 0 where
  in_progress invalid_data invalid_dest timed_out invalid_voucher interrupted msg_too_small
        invalid_reply invalid_right invalid_notify invalid_memory no_buffer too_large invalid_type
        invalid_header invalid_trailer invalid_rt_ool_size :
      SendVariant

pub data RecvVariant : Type 0 where
  in_progress_recv invalid_name timed_out_recv too_large_recv interrupted_recv port_changed
        invalid_notify_recv invalid_data_recv port_died in_set header_error body_error
        invalid_type_recv scatter_small invalid_trailer_recv in_progress_timed :
      RecvVariant

abbrev pub SendErrorKind : Type 0
SendErrorKind = ErrorKind SendVariant

abbrev pub RecvErrorKind : Type 0
RecvErrorKind = ErrorKind RecvVariant

abbrev pub send_table : (SendVariant → ℕ) → Table SendVariant
send_table value = record {
  variants =
      in_progress ∷ invalid_data ∷ invalid_dest ∷ timed_out ∷ invalid_voucher ∷ interrupted
      ∷ msg_too_small ∷ invalid_reply ∷ invalid_right ∷ invalid_notify ∷ invalid_memory ∷ no_buffer
      ∷ too_large ∷ invalid_type ∷ invalid_header ∷ invalid_trailer ∷ invalid_rt_ool_size ∷ [];
  value = value;
}

abbrev pub recv_table : (RecvVariant → ℕ) → Table RecvVariant
recv_table value = record {
  variants =
      in_progress_recv ∷ invalid_name ∷ timed_out_recv ∷ too_large_recv ∷ interrupted_recv
      ∷ port_changed ∷ invalid_notify_recv ∷ invalid_data_recv ∷ port_died ∷ in_set ∷ header_error
      ∷ body_error ∷ invalid_type_recv ∷ scatter_small ∷ invalid_trailer_recv ∷ in_progress_timed
      ∷ [];
  value = value;
}

-- `stringify!($val)`
abbrev pub send_name : SendVariant → String
send_name in_progress = "MACH_SEND_IN_PROGRESS"
send_name invalid_data = "MACH_SEND_INVALID_DATA"
send_name invalid_dest = "MACH_SEND_INVALID_DEST"
send_name timed_out = "MACH_SEND_TIMED_OUT"
send_name invalid_voucher = "MACH_SEND_INVALID_VOUCHER"
send_name interrupted = "MACH_SEND_INTERRUPTED"
send_name msg_too_small = "MACH_SEND_MSG_TOO_SMALL"
send_name invalid_reply = "MACH_SEND_INVALID_REPLY"
send_name invalid_right = "MACH_SEND_INVALID_RIGHT"
send_name invalid_notify = "MACH_SEND_INVALID_NOTIFY"
send_name invalid_memory = "MACH_SEND_INVALID_MEMORY"
send_name no_buffer = "MACH_SEND_NO_BUFFER"
send_name too_large = "MACH_SEND_TOO_LARGE"
send_name invalid_type = "MACH_SEND_INVALID_TYPE"
send_name invalid_header = "MACH_SEND_INVALID_HEADER"
send_name invalid_trailer = "MACH_SEND_INVALID_TRAILER"
send_name invalid_rt_ool_size = "MACH_SEND_INVALID_RT_OOL_SIZE"

abbrev pub recv_name : RecvVariant → String
recv_name in_progress_recv = "MACH_RCV_IN_PROGRESS"
recv_name invalid_name = "MACH_RCV_INVALID_NAME"
recv_name timed_out_recv = "MACH_RCV_TIMED_OUT"
recv_name too_large_recv = "MACH_RCV_TOO_LARGE"
recv_name interrupted_recv = "MACH_RCV_INTERRUPTED"
recv_name port_changed = "MACH_RCV_PORT_CHANGED"
recv_name invalid_notify_recv = "MACH_RCV_INVALID_NOTIFY"
recv_name invalid_data_recv = "MACH_RCV_INVALID_DATA"
recv_name port_died = "MACH_RCV_PORT_DIED"
recv_name in_set = "MACH_RCV_IN_SET"
recv_name header_error = "MACH_RCV_HEADER_ERROR"
recv_name body_error = "MACH_RCV_BODY_ERROR"
recv_name invalid_type_recv = "MACH_RCV_INVALID_TYPE"
recv_name scatter_small = "MACH_RCV_SCATTER_SMALL"
recv_name invalid_trailer_recv = "MACH_RCV_INVALID_TRAILER"
recv_name in_progress_timed = "MACH_RCV_IN_PROGRESS_TIMED"

-- A text that is written if a flag is set, and those written after it.
abbrev pub write_flag : Bool → String → List String → List String
write_flag flag text others = if flag then text ∷ others else others

module _ {V : Type 0} (name : V → String) where
  -- `Display` of a kind: the text that it writes.
  unfoldable pub fmt_kind : ErrorKind V → String
  fmt_kind (known v) = name v
  fmt_kind other = "OTHER"

  -- `Display` of an error: the texts that it writes, in their order.
  unfoldable pub fmt : Masks → Table V → MsgError → List String
  fmt m t e =
      fmt_kind (kind m t e)
      ∷ write_flag (vm_space m e) "|MACH_MSG_VM_SPACE" (
          write_flag (vm_kernel m e) "|MACH_MSG_VM_KERNEL" (
            write_flag (ipc_space m e) "|MACH_MSG_IPC_SPACE"
              (write_flag (ipc_kernel m e) "|MACH_MSG_IPC_KERNEL" [])))
