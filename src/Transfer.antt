-- ===== src/Transfer.antt =====
-- `send_impl`, `send` and `recv` of rights.rs: a built message is handed to the kernel, and a received
-- one is taken from it.
pub mod Sent
pub mod Arrived
pub mod Refused
pub mod Conveyed
pub mod Exchange
use mach_ports_rs.Prelude.{
  ℕ, ◌+◌, ◌%◌, ◌^◌, List, [], map, some, length, write_at, access, Outcome, ok, ◌==◌, if◌then◌else◌,
}
use mach_ports_rs.Abi.{Platform}
use mach_ports_rs.Kernel.{Kernel, M, MsgCall, Received, ◌>>=◌, ◌>>◌, pure, lift, call}
use mach_ports_rs.Rights.{SendRight, SendOnceRight, RecvRight}
use mach_ports_rs.Buffer
use mach_ports_rs.Buffer.{Buffer, Header, Cell, bytes_of}
use mach_ports_rs.Builder.{Builder, set_raw_remote_port}
use mach_ports_rs.Error.{MsgError}
use mach_ports_rs.Parser

-- `Result`
pub data Result (A : Type 0) : Type 0 where
  done : A → Result A
  failed : MsgError → Result A

module _ {S : Type 0} (p : Platform) (k : Kernel S) where
  abbrev pub trap : MsgCall → S → (ℕ × Received) × S
  trap c s = let (result, received, s') = k.mach_msg c s in ((result, received), s')

  -- `mach_msg` on the memory of a buffer: its result, and the buffer as the kernel leaves it. What the
  -- kernel writes lies from the start of the memory on.
  abbrev pub mach_msg : MsgCall → Buffer → M S (ℕ × Buffer)
  mach_msg c b = do
    (result, received) ← call (trap c)
    mem ← lift (access (write_at b.mem 0 (map some received.bytes)))
    pure (result, record b { header = received.header; mem = mem })

  -- The builder is not dropped, so its buffer is what `mach_msg` leaves.
  unfoldable pub send_impl : (name : ℕ) → Builder → (bits : ℕ) → M S (Result (Unit {0}) × Buffer)
  send_impl name msg bits = do
    addressed ← lift (set_raw_remote_port p msg name bits)
    (header, cells) ← lift (Buffer.as_slice p addressed.buffer)
    bytes ← lift (access (bytes_of cells))
    (result, buffer) ←
        mach_msg
          (record {
            header = header;
            bytes = bytes;
            option = p.send_msg;
            send_size = (length cells + p.header_size) % 2 ^ 32;
            rcv_size = 0;
            rcv_name = p.port_null;
          })
          addressed.buffer
    pure ((if result == p.kern_success then done tt else failed result), buffer)

  unfoldable pub send : SendRight → Builder → M S (Result (Unit {0}) × Buffer)
  send right msg = send_impl right.name msg p.copy_send

  unfoldable pub send_once : SendOnceRight → Builder → M S (Result (Unit {0}) × Buffer)
  send_once right msg = send_impl right.name msg p.move_send_once

  -- The parser is the buffer.
  unfoldable pub recv : RecvRight → Buffer → M S (Result Buffer)
  recv right b = do
    (header, cells) ← lift (Buffer.as_slice p b)
    (result, buffer) ←
        mach_msg
          (record {
            header = header;
            bytes = [];
            option = p.rcv_msg;
            send_size = 0;
            rcv_size = 4096;
            rcv_name = right.name;
          })
          b
    (if result == p.kern_success
        then (do parser ← lift (Parser.new p buffer); pure (done parser))
        else pure (failed result))
