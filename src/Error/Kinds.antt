-- ===== src/Error/Kinds.antt =====
-- The kinds of errors and their codes: what `kind` makes of an error that `from_kind` made, flags or not.
use mathlib.Core.Path.{fun_ext, subst}
use mach_ports_rs.Prelude.{ℕ, ◌^◌, ◌<◌, ◌≡◌, sym, ap, Bool, if◌then◌else◌}
use mach_ports_rs.Error.{
  Masks, Table, known, other, SendVariant, RecvVariant, SendErrorKind, RecvErrorKind, send_table,
  recv_table, from_error_code, discriminant, from_kind, kind, in_progress, invalid_data,
  invalid_dest, timed_out, invalid_voucher, interrupted, msg_too_small, invalid_reply,
  invalid_right, invalid_notify, invalid_memory, no_buffer, too_large, invalid_type, invalid_header,
  invalid_trailer, invalid_rt_ool_size, in_progress_recv, invalid_name, timed_out_recv,
  too_large_recv, interrupted_recv, port_changed, invalid_notify_recv, invalid_data_recv, port_died,
  in_set, header_error, body_error, invalid_type_recv, scatter_small, invalid_trailer_recv,
  in_progress_timed,
}
use mach_ports_rs.Error.Words.{IsDarwinMasks, Flag, set, get, same, get-set, code_kept}

-- The values that mach/message.h documents.
abbrev pub send_code : SendVariant → ℕ
send_code in_progress = 0x10000001
send_code invalid_data = 0x10000002
send_code invalid_dest = 0x10000003
send_code timed_out = 0x10000004
send_code invalid_voucher = 0x10000005
send_code interrupted = 0x10000007
send_code msg_too_small = 0x10000008
send_code invalid_reply = 0x10000009
send_code invalid_right = 0x1000000a
send_code invalid_notify = 0x1000000b
send_code invalid_memory = 0x1000000c
send_code no_buffer = 0x1000000d
send_code too_large = 0x1000000e
send_code invalid_type = 0x1000000f
send_code invalid_header = 0x10000010
send_code invalid_trailer = 0x10000011
send_code invalid_rt_ool_size = 0x10000015

abbrev pub recv_code : RecvVariant → ℕ
recv_code in_progress_recv = 0x10004001
recv_code invalid_name = 0x10004002
recv_code timed_out_recv = 0x10004003
recv_code too_large_recv = 0x10004004
recv_code interrupted_recv = 0x10004005
recv_code port_changed = 0x10004006
recv_code invalid_notify_recv = 0x10004007
recv_code invalid_data_recv = 0x10004008
recv_code port_died = 0x10004009
recv_code in_set = 0x1000400a
recv_code header_error = 0x1000400b
recv_code body_error = 0x1000400c
recv_code invalid_type_recv = 0x1000400d
recv_code scatter_small = 0x1000400e
recv_code invalid_trailer_recv = 0x1000400f
recv_code in_progress_timed = 0x10004011

module _ {m : Masks} (d : IsDarwinMasks m) where
  send_back :
      (k : SendErrorKind) → kind m (send_table send_code) (from_kind m (send_table send_code) k) ≡ k
  unfolding kind from_kind from_error_code discriminant
  send_back other = rw d.mask
  send_back (known in_progress) = rw d.mask
  send_back (known invalid_data) = rw d.mask
  send_back (known invalid_dest) = rw d.mask
  send_back (known timed_out) = rw d.mask
  send_back (known invalid_voucher) = rw d.mask
  send_back (known interrupted) = rw d.mask
  send_back (known msg_too_small) = rw d.mask
  send_back (known invalid_reply) = rw d.mask
  send_back (known invalid_right) = rw d.mask
  send_back (known invalid_notify) = rw d.mask
  send_back (known invalid_memory) = rw d.mask
  send_back (known no_buffer) = rw d.mask
  send_back (known too_large) = rw d.mask
  send_back (known invalid_type) = rw d.mask
  send_back (known invalid_header) = rw d.mask
  send_back (known invalid_trailer) = rw d.mask
  send_back (known invalid_rt_ool_size) = rw d.mask

  recv_back :
      (k : RecvErrorKind) → kind m (recv_table recv_code) (from_kind m (recv_table recv_code) k) ≡ k
  unfolding kind from_kind from_error_code discriminant
  recv_back other = rw d.mask
  recv_back (known in_progress_recv) = rw d.mask
  recv_back (known invalid_name) = rw d.mask
  recv_back (known timed_out_recv) = rw d.mask
  recv_back (known too_large_recv) = rw d.mask
  recv_back (known interrupted_recv) = rw d.mask
  recv_back (known port_changed) = rw d.mask
  recv_back (known invalid_notify_recv) = rw d.mask
  recv_back (known invalid_data_recv) = rw d.mask
  recv_back (known port_died) = rw d.mask
  recv_back (known in_set) = rw d.mask
  recv_back (known header_error) = rw d.mask
  recv_back (known body_error) = rw d.mask
  recv_back (known invalid_type_recv) = rw d.mask
  recv_back (known scatter_small) = rw d.mask
  recv_back (known invalid_trailer_recv) = rw d.mask
  recv_back (known in_progress_timed) = rw d.mask

  -- With the documented masks and codes, kind gives back every kind that from_kind made an error
  -- of, Other included, for errors of sending and of receiving.
  pub kind-from_kind :
      (send_value : SendVariant → ℕ) (recv_value : RecvVariant → ℕ)
      → ((v : SendVariant) → send_value v ≡ send_code v)
      → ((v : RecvVariant) → recv_value v ≡ recv_code v)
      → ((k : SendErrorKind)
          → kind m (send_table send_value) (from_kind m (send_table send_value) k) ≡ k)
        × ((k : RecvErrorKind)
            → kind m (recv_table recv_value) (from_kind m (recv_table recv_value) k) ≡ k)
  kind-from_kind send_value recv_value hs hr = (
    subst
        (λ value.
          (k : SendErrorKind) → kind m (send_table value) (from_kind m (send_table value) k) ≡ k)
        (sym (fun_ext hs)) send_back,
    subst
        (λ value.
          (k : RecvErrorKind) → kind m (recv_table value) (from_kind m (recv_table value) k) ≡ k)
        (sym (fun_ext hr)) recv_back,
  )

  -- With the documented masks, setting or resetting one of the four flags of an error of 32 bits
  -- gives that flag the value, leaves the other three flags as they are, and does not change the
  -- kind.
  pub kind-set :
      {V : Type 0} (t : Table V) (f g : Flag) (e : ℕ) (value : Bool)
      → e < 2 ^ 32
      → (get m g (set m f e value) ≡ (if same f g then value else get m g e))
        × (kind m t (set m f e value) ≡ kind m t e)
  unfolding kind
  kind-set t f g e value h =
      (get-set d f g e value h, ap (λ code. from_error_code t code) (code_kept d f e value h))
