-- ===== src/Builder.antt =====
-- msg/builder.rs: a message built in a buffer, one call at a time.
pub mod Message
pub mod Counting
pub mod Append
pub mod Calls
pub mod Draft
pub mod Session
use mach_ports_rs.Prelude.{
  ℕ, ◌+◌, Bool, true, false, ◌||◌, some, List, map, length, ltb, leb, ◌==◌, not, if◌then◌else◌,
  assert, debug_assert, unwrap, access, add_word, try_into, write_at, Outcome, ok, panic, ◌>>=◌,
  ◌>>◌,
}
use mach_ports_rs.Abi.{Platform}
use mach_ports_rs.MsgBits
use mach_ports_rs.Buffer
use mach_ports_rs.Buffer.{Buffer, Header, to_ne_bytes, from_ne_bytes, slice_to, bytes_of}
use mach_ports_rs.Desc.{Layout}
use mach_ports_rs.Rights.{RightKind, Right, RecvRight, SendRight, send, send_once, recv, msg_type}

pub data CopyKind : Type 0 where
  virtual physical : CopyKind

-- The memory of a slice or of an `OolBuf`.
pub record Region : Type 0 where
  pub address : ℕ
  pub size : ℕ

pub record Builder : Type 0 where
  pub buffer : Buffer
  pub inline_data_off : ℕ

-- Writes to the header in place.
abbrev pub with_header : Builder → Header → Builder
with_header b h = record b { buffer = record (b.buffer) { header = h } }

abbrev pub with_buffer : Builder → Buffer → Builder
with_buffer b buffer = record b { buffer = buffer }

abbrev pub new : Buffer → Builder
new buffer = record { buffer = buffer; inline_data_off = 0 }

abbrev pub set_id : Builder → ℕ → Builder
set_id b id = with_header b (record (b.buffer.header) { msgh_id = id })

-- `*bytes = count.to_ne_bytes()` at the start of the body.
unfoldable pub write_count : Buffer → ℕ → Outcome Buffer
write_count b count = do
  mem ← access (write_at b.mem 0 (map some (to_ne_bytes count)))
  ok (record b { mem = mem })

module _ (p : Platform) where
  abbrev pub made : Bool → ℕ
  made once = if once then p.make_send_once else p.make_send

  abbrev pub copy_options : CopyKind → ℕ
  copy_options virtual = p.virtual_copy
  copy_options physical = p.physical_copy

  unfoldable pub inc_desc_count : Builder → ℕ → Outcome Builder
  inc_desc_count b reserve_size = do
    bits ← MsgBits.from_bits p b.buffer.header.msgh_bits
    if MsgBits.complex p bits
        then (do
          cells ← Buffer.body p b.buffer
          size ← slice_to 4 cells
          bytes ← access (bytes_of size)
          count ← add_word p.profile 32 (from_ne_bytes bytes) 1
          counted ← write_count b.buffer count
          additional ← unwrap (try_into 32 reserve_size)
          reserved ← Buffer.reserve p counted additional
          ok (with_buffer b reserved))
        else (do
          let marked =
              with_header b (record (b.buffer.header) { msgh_bits = MsgBits.into_complex p bits })
          additional ← unwrap (try_into 32 (reserve_size + 4))
          reserved ← Buffer.reserve p marked.buffer additional
          counted ← Buffer.insert p reserved 0 (to_ne_bytes 1)
          debug_assert p.profile (b.inline_data_off == 0)
          ok (record { buffer = counted; inline_data_off = 4 }))

  unfoldable pub append_descriptor : Builder → List ℕ → Outcome Builder
  append_descriptor b bytes = do
    debug_assert p.profile (leb p.port_descriptor_size (length bytes))
    counted ← inc_desc_count b (length bytes)
    appended_len ← unwrap (try_into 32 (length bytes))
    inserted ← Buffer.insert p counted.buffer counted.inline_data_off bytes
    off ← add_word p.profile 32 counted.inline_data_off appended_len
    ok (record { buffer = inserted; inline_data_off = off })

  unfoldable pub append_inline_data : Builder → List ℕ → Outcome Builder
  append_inline_data b bytes = do
    appended ← Buffer.append p b.buffer bytes
    ok (with_buffer b appended)

  unfoldable pub insert_inline_data : Builder → ℕ → List ℕ → Outcome Builder
  insert_inline_data b at bytes = do
    at' ← unwrap (try_into 32 at)
    off ← add_word p.profile 32 b.inline_data_off at'
    inserted ← Buffer.insert p b.buffer off bytes
    ok (with_buffer b inserted)

  unfoldable pub set_raw_remote_port : Builder → (name bits : ℕ) → Outcome Builder
  set_raw_remote_port b name bits = do
    old ← MsgBits.from_bits p b.buffer.header.msgh_bits
    new_bits ← MsgBits.set_remote p old bits
    ok (with_header b (record (b.buffer.header) { msgh_remote_port = name; msgh_bits = new_bits }))

module _ (p : Platform) (l : Layout) where
  unfoldable pub append_port_descriptor : Builder → (name disposition : ℕ) → Outcome Builder
  append_port_descriptor b name disposition =
      append_descriptor p b (l.port_bytes (l.port_new name disposition))

  unfoldable pub append_made_send_right : Builder → RecvRight → Bool → Outcome Builder
  append_made_send_right b right once = append_port_descriptor b right.name (made p once)

  unfoldable pub append_copied_send_right : Builder → SendRight → Outcome Builder
  append_copied_send_right b right = append_port_descriptor b right.name p.copy_send

  unfoldable pub append_moved_right : {kind : RightKind} → Builder → Right kind → Outcome Builder
  append_moved_right {kind} b right = append_port_descriptor b right.name (msg_type p kind)

  unfoldable pub append_ool_descriptor : Builder → Region → Bool → CopyKind → Outcome Builder
  append_ool_descriptor b r deallocate kind = do
    size ← unwrap (try_into 32 r.size)
    append_descriptor p b (l.ool_bytes (l.ool_new r.address deallocate (copy_options p kind) size))

  unfoldable pub append_ool_data : Builder → Region → CopyKind → Outcome Builder
  append_ool_data b r kind = append_ool_descriptor b r false kind

  unfoldable pub append_consumed_ool_data : Builder → Region → CopyKind → Outcome Builder
  append_consumed_ool_data b r kind = append_ool_descriptor b r true kind

-- `Builder::as_slice`
abbrev pub as_slice : Platform → Builder → Outcome (Header × List Buffer.Cell)
as_slice p b = Buffer.as_slice p b.buffer
