-- ===== src/Transfer/Refused.antt =====
-- What `recv` does with a message that it gives no parser for.
use mach_ports_rs.Prelude.{
  ℕ, ◌<◌, ◌≤◌, ◌≡◌, ◌≢◌, refl, some, List, ◌++◌, map, length, length-map, drop, write_at, arith,
  false, ok, panic, leb, ◌==◌, ==_iff,
}
use mach_ports_rs.Abi.{Platform, IsDarwin}
use mach_ports_rs.Kernel.{Kernel, Received}
use mach_ports_rs.Rights.{RecvRight}
use mach_ports_rs.Buffer
use mach_ports_rs.Buffer.{Buffer, Cell}
use mach_ports_rs.Buffer.Holds.{Holds, layout_bounds}
use mach_ports_rs.Parser
use mach_ports_rs.Transfer
use mach_ports_rs.Transfer.{failed}
use mach_ports_rs.Transfer.Arrived.{recv_call, recv_run, write_over}

module _ {p : Platform} (d : IsDarwin p) {S : Type 0} (k : Kernel S) {b : Buffer} {bs : List ℕ}
    (h : Holds p b bs) (right : RecvRight) (s : S) where
  -- When mach_msg writes bytes that fit the capacity of a buffer of the invariant, recv returns the
  -- code of any result but KERN_SUCCESS as its error, and panics on success if msgh_size, which
  -- counts the header, exceeds the capacity, though the message fits.
  pub recv_refuses :
      {r : Received} {s' : S} {result : ℕ}
      → k.mach_msg (recv_call p b.header right.name) s ≡ (result, r, s')
      → length r.bytes ≤ b.capacity
      → (result ≢ p.kern_success → Transfer.recv p k right b s ≡ ok (failed result, s'))
        × (result ≡ p.kern_success
            → b.capacity < r.header.msgh_size
            → Transfer.recv p k right b s ≡ panic)
  unfolding Parser.new Buffer.set_len
  recv_refuses {r} {s'} {result} e fits = (
    (λ ne. rw (recv_run d k h right s, e, over, unequal ne)),
    λ success large. rw (
      recv_run d k h right s,
      e,
      over,
      success,
      (==_iff p.kern_success p.kern_success).1 refl,
      too_large large,
    ),
  )
    where
      over :
          write_at b.mem 0 (map some r.bytes)
          ≡ some (map some r.bytes ++ drop (length (map {A = ℕ} {B = Cell} some r.bytes)) b.mem)
      over = write_over b.mem (map some r.bytes) (
          omega (
            arith,
            length-map {0, 0} {A = ℕ} {B = Cell} some r.bytes,
            fits,
            h.alloc_eq,
            layout_bounds d b.capacity,
          ))

      unequal : result ≢ p.kern_success → (result == p.kern_success) ≡ false
      unequal ne = ground arith

      too_large : b.capacity < r.header.msgh_size → leb r.header.msgh_size b.capacity ≡ false
      too_large lt = ground arith
