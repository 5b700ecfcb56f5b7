-- ===== src/Error/Display.antt =====
-- What the `Display` of msg/error.rs tells of an error.
use Prim.Native.String.{String}
use text.Mathlib.Text
use mach_ports_rs.Prelude.{
  ℕ, ◌≡◌, refl, sym, ap, ◌∙◌, Bool, false, ◌||◌, List, [], ◌∷◌, if◌then◌else◌, arith,
}
use mach_ports_rs.Error.{
  Masks, Table, ErrorKind, known, other, SendVariant, RecvVariant, SendErrorKind, RecvErrorKind,
  send_table, recv_table, kind, MsgError, fmt_kind, fmt, write_flag, send_name, recv_name,
  in_progress, invalid_data, invalid_dest, timed_out, invalid_voucher, interrupted, msg_too_small,
  invalid_reply, invalid_right, invalid_notify, invalid_memory, no_buffer, too_large, invalid_type,
  invalid_header, invalid_trailer, invalid_rt_ool_size, in_progress_recv, invalid_name,
  timed_out_recv, too_large_recv, interrupted_recv, port_changed, invalid_notify_recv,
  invalid_data_recv, port_died, in_set, header_error, body_error, invalid_type_recv, scatter_small,
  invalid_trailer_recv, in_progress_timed,
}
use mach_ports_rs.Error
use mach_ports_rs.Error.Words.{Flag, vm_space, vm_kernel, ipc_space, ipc_kernel, get}

-- The kind that a text names.
abbrev named : {V : Type 0} → (V → String) → List V → String → ErrorKind V
named name [] text = other
named name (v ∷ vs) text =
    let rest = named name vs text in if Text.◌==◌ text (name v) then known v else rest

abbrev written : String → List String → Bool
written text [] = false
written text (s ∷ ss) = Text.◌==◌ s text || written text ss

abbrev flag_text : Flag → String
flag_text vm_space = "|MACH_MSG_VM_SPACE"
flag_text vm_kernel = "|MACH_MSG_VM_KERNEL"
flag_text ipc_space = "|MACH_MSG_IPC_SPACE"
flag_text ipc_kernel = "|MACH_MSG_IPC_KERNEL"

abbrev flags_written : (a b c d : Bool) → List String
flags_written a b c d = write_flag a (flag_text vm_space) (
    write_flag b (flag_text vm_kernel)
      (write_flag c (flag_text ipc_space) (write_flag d (flag_text ipc_kernel) [])))

abbrev of_four : (a b c d : Bool) → Flag → Bool
of_four a b c d vm_space = a
of_four a b c d vm_kernel = b
of_four a b c d ipc_space = c
of_four a b c d ipc_kernel = d

-- The texts that are written say which flags are set.
flag_written :
    (a b c d : Bool) (f : Flag) → written (flag_text f) (flags_written a b c d) ≡ of_four a b c d f
flag_written a b c d vm_space = ground arith
flag_written a b c d vm_kernel = ground arith
flag_written a b c d ipc_space = ground arith
flag_written a b c d ipc_kernel = ground arith

send_named :
    (k : SendErrorKind) → named send_name (send_table (λ v. 0)).variants (fmt_kind send_name k) ≡ k
unfolding fmt_kind
send_named other = refl
send_named (known in_progress) = refl
send_named (known invalid_data) = refl
send_named (known invalid_dest) = refl
send_named (known timed_out) = refl
send_named (known invalid_voucher) = refl
send_named (known interrupted) = refl
send_named (known msg_too_small) = refl
send_named (known invalid_reply) = refl
send_named (known invalid_right) = refl
send_named (known invalid_notify) = refl
send_named (known invalid_memory) = refl
send_named (known no_buffer) = refl
send_named (known too_large) = refl
send_named (known invalid_type) = refl
send_named (known invalid_header) = refl
send_named (known invalid_trailer) = refl
send_named (known invalid_rt_ool_size) = refl

recv_named :
    (k : RecvErrorKind) → named recv_name (recv_table (λ v. 0)).variants (fmt_kind recv_name k) ≡ k
unfolding fmt_kind
recv_named other = refl
recv_named (known in_progress_recv) = refl
recv_named (known invalid_name) = refl
recv_named (known timed_out_recv) = refl
recv_named (known too_large_recv) = refl
recv_named (known interrupted_recv) = refl
recv_named (known port_changed) = refl
recv_named (known invalid_notify_recv) = refl
recv_named (known invalid_data_recv) = refl
recv_named (known port_died) = refl
recv_named (known in_set) = refl
recv_named (known header_error) = refl
recv_named (known body_error) = refl
recv_named (known invalid_type_recv) = refl
recv_named (known scatter_small) = refl
recv_named (known invalid_trailer_recv) = refl
recv_named (known in_progress_timed) = refl

abbrev first : List String → String
first [] = ""
first (s ∷ ss) = s

abbrev others : List String → List String
others [] = []
others (s ∷ ss) = ss

module _ {V : Type 0} (name : V → String) (m : Masks) (t : Table V) where
  flag_told :
      (f : Flag) (e : MsgError) → written (flag_text f) (others (fmt name m t e)) ≡ get m f e
  unfolding fmt
  flag_told vm_space e =
      flag_written (Error.vm_space m e) (Error.vm_kernel m e) (Error.ipc_space m e)
        (Error.ipc_kernel m e) vm_space
  flag_told vm_kernel e =
      flag_written (Error.vm_space m e) (Error.vm_kernel m e) (Error.ipc_space m e)
        (Error.ipc_kernel m e) vm_kernel
  flag_told ipc_space e =
      flag_written (Error.vm_space m e) (Error.vm_kernel m e) (Error.ipc_space m e)
        (Error.ipc_kernel m e) ipc_space
  flag_told ipc_kernel e =
      flag_written (Error.vm_space m e) (Error.vm_kernel m e) (Error.ipc_space m e)
        (Error.ipc_kernel m e) ipc_kernel

  -- The kind and the flags can be told from the texts, if the kinds can be told from their names.
  told :
      (kinds : List V)
      → ((k : ErrorKind V) → named name kinds (fmt_kind name k) ≡ k)
      → (e e' : MsgError) → fmt name m t e ≡ fmt name m t e'
      → (kind m t e ≡ kind m t e') × ((f : Flag) → get m f e ≡ get m f e')
  unfolding fmt
  told kinds back e e' same = (
    sym (back (kind m t e))
        ∙ ap (λ texts. named name kinds (first texts)) same
        ∙ back (kind m t e'),
    λ f.
        sym (flag_told f e)
        ∙ ap (λ texts. written (flag_text f) (others texts)) same
        ∙ flag_told f e',
  )

-- Two errors of sending, or two of receiving, for which Display writes the same texts have the same
-- kind and the same four flags, whatever the codes and the masks are.
pub fmt-kind :
    (m : Masks) (send_value : SendVariant → ℕ) (recv_value : RecvVariant → ℕ) (e e' : MsgError)
    → (fmt send_name m (send_table send_value) e ≡ fmt send_name m (send_table send_value) e'
        → (kind m (send_table send_value) e ≡ kind m (send_table send_value) e')
          × ((f : Flag) → get m f e ≡ get m f e'))
      × (fmt recv_name m (recv_table recv_value) e ≡ fmt recv_name m (recv_table recv_value) e'
          → (kind m (recv_table recv_value) e ≡ kind m (recv_table recv_value) e')
            × ((f : Flag) → get m f e ≡ get m f e'))
fmt-kind m send_value recv_value e e' = (
  told send_name m (send_table send_value) (send_table send_value).variants send_named e e',
  told recv_name m (recv_table recv_value) (recv_table recv_value).variants recv_named e e',
)
