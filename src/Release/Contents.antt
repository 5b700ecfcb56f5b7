-- ===== src/Release/Contents.antt =====
-- What the descriptors of a built message stand for, and how each is given back.
use mach_ports_rs.Prelude.{
  ℕ, ◌^◌, ◌<◌, ◌≡◌, ◌≢◌, refl, Bool, true, false, List, [], ◌∷◌, arith, ◌==◌, if◌then◌else◌,
}
use mach_ports_rs.Abi.{Platform, IsDarwin}
use mach_ports_rs.Kernel.{Kernel, M, ◌>>◌, pure}
use mach_ports_rs.Rights
use mach_ports_rs.Rights.{RightKind, send, send_once, recv, from_raw_name, msg_type}
use mach_ports_rs.Vm
use mach_ports_rs.Desc.Read.{Item, ItemFits, transmuted}
use mach_ports_rs.Builder.{Region, CopyKind, virtual, physical}
use mach_ports_rs.Builder.Calls.{port_desc, ool_desc}
use mach_ports_rs.Release
use mach_ports_rs.Release.{drop_desc}

-- One for each way of adding a descriptor.
pub data Content : Type 0 where
  moved : RightKind → ℕ → Content
  copied : ℕ → Content
  made : Bool → ℕ → Content
  lent : Region → CopyKind → Content
  consumed : Region → CopyKind → Content

abbrev made_type : Platform → Bool → ℕ
made_type p once = if once then p.make_send_once else p.make_send

abbrev pub item_of : Platform → Content → Item
item_of p (moved kind name) = port_desc p name (msg_type p kind)
item_of p (copied name) = port_desc p name p.copy_send
item_of p (made once name) = port_desc p name (made_type p once)
item_of p (lent r kind) = ool_desc p r false kind
item_of p (consumed r kind) = ool_desc p r true kind

-- Names and sizes are words of 32 bits, addresses of 64; consumed memory has an address.
abbrev pub RegionFits : Region → Type 0
RegionFits r = (r.address < 2 ^ 64) × (r.size < 2 ^ 32)

abbrev pub ContentFits : Content → Type 0
ContentFits (moved kind name) = name < 2 ^ 32
ContentFits (copied name) = name < 2 ^ 32
ContentFits (made once name) = name < 2 ^ 32
ContentFits (lent r kind) = RegionFits r
ContentFits (consumed r kind) = RegionFits r × (r.address ≢ 0)

abbrev pub AllFit : List Content → Type 0
AllFit [] = Unit
AllFit (c ∷ cs) = ContentFits c × AllFit cs

module _ {S : Type 0} (p : Platform) (k : Kernel S) where
  -- A moved right gives back its reference and consumed memory its pages; the others own nothing.
  abbrev pub give_back : Content → M S (Unit {0})
  give_back (moved kind name) = Rights.drop p k {kind = kind} (from_raw_name name)
  give_back (copied name) = pure tt
  give_back (made once name) = pure tt
  give_back (lent r kind) = pure tt
  give_back (consumed r kind) = Vm.drop p k (Vm.from_raw_parts r.address r.size)

  abbrev pub give_all_back : List Content → M S (Unit {0})
  give_all_back [] = pure tt
  give_all_back (c ∷ cs) = give_back c >> give_all_back cs

module _ {p : Platform} (d : IsDarwin p) where
  disposition_fits : (kind : RightKind) → msg_type p kind < 256
  disposition_fits send = omega (arith, d.move_send)
  disposition_fits send_once = omega (arith, d.move_send_once)
  disposition_fits recv = omega (arith, d.move_receive)

  made_fits : (once : Bool) → made_type p once < 256
  made_fits true = omega (arith, d.make_send_once)
  made_fits false = omega (arith, d.make_send)

  port_fits :
      (name disposition : ℕ)
      → name < 2 ^ 32
      → disposition < 256
      → ItemFits p (port_desc p name disposition)
  port_fits name disposition h h' = (omega (arith, d.port_descriptor), refl)

  ool_fits :
      (r : Region) (deallocate : Bool) (kind : CopyKind)
      → RegionFits r
      → ItemFits p (ool_desc p r deallocate kind)
  ool_fits r true virtual h = (omega (arith, d.ool_descriptor, d.virtual_copy), refl)
  ool_fits r true physical h = (omega (arith, d.ool_descriptor, d.physical_copy), refl)
  ool_fits r false virtual h = (omega (arith, d.ool_descriptor, d.virtual_copy), refl)
  ool_fits r false physical h = (omega (arith, d.ool_descriptor, d.physical_copy), refl)

  pub item_of-ItemFits : (c : Content) → ContentFits c → ItemFits p (item_of p c)
  item_of-ItemFits (moved kind name) h = port_fits name (msg_type p kind) h (disposition_fits kind)
  item_of-ItemFits (copied name) h = port_fits name p.copy_send h (omega (arith, d.copy_send))
  item_of-ItemFits (made once name) h = port_fits name (made_type p once) h (made_fits once)
  item_of-ItemFits (lent r kind) h = ool_fits r false kind h
  item_of-ItemFits (consumed r kind) h = ool_fits r true kind h.0

  -- The descriptor of each content is given back as the content is.
  pub drop_desc-item_of :
      {S : Type 0} (k : Kernel S) (c : Content)
      → ContentFits c
      → drop_desc p k (transmuted (item_of p c)) ≡ give_back p k c
  unfolding drop_desc Release.drop_port Release.drop_ool
  drop_desc-item_of k (moved send name) h = rw (d.move_send)
  drop_desc-item_of k (moved send_once name) h = rw (d.move_send, d.move_send_once)
  drop_desc-item_of k (moved recv name) h = rw (d.move_send, d.move_send_once, d.move_receive)
  drop_desc-item_of k (copied name) h =
      rw (d.move_send, d.move_send_once, d.move_receive, d.copy_send)
  drop_desc-item_of k (made true name) h = rw (
    d.move_send, d.move_send_once, d.move_receive, d.copy_send, d.copy_receive, d.make_send,
    d.make_send_once,
  )
  drop_desc-item_of k (made false name) h =
      rw (d.move_send, d.move_send_once, d.move_receive, d.copy_send, d.copy_receive, d.make_send)
  drop_desc-item_of k (lent r kind) h = refl
  drop_desc-item_of k (consumed r kind) h = rw nonzero
    where
      nonzero : (r.address == 0) ≡ false
      nonzero = ground (arith, h.1)
