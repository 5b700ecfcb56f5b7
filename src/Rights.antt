-- ===== src/Rights.antt =====
-- rights.rs: the wrappers of Mach port names, less their `send` and `recv` (see `Transfer`).
--
-- `SendRight`, `SendOnceRight` and `RecvRight` are one record indexed by the kind of right; the
-- traits of traits.rs are functions on the kind.
pub mod Counts
pub mod Ports
pub mod Ledger
pub mod Shifts
pub mod Covered
use mach_ports_rs.Prelude.{ℕ, ◌≡◌, Bool, not, ℤ, pos, negsuc, assert, ◌==◌, if◌then◌else◌}
use mach_ports_rs.Abi.{Platform}
use mach_ports_rs.Kernel.{Kernel, M, ◌>>=◌, ◌>>◌, pure, lift, call}

pub data RightKind : Type 0 where
  send send_once recv : RightKind

-- The kinds that implement `BaseSendRight` of traits.rs.
abbrev pub BaseSendRight : RightKind → Type 0
BaseSendRight send = Unit
BaseSendRight send_once = Unit
BaseSendRight recv = ⊥

pub record Right (kind : RightKind) : Type 0 where
  pub name : ℕ

abbrev pub SendRight : Type 0
SendRight = Right send

abbrev pub SendOnceRight : Type 0
SendOnceRight = Right send_once

abbrev pub RecvRight : Type 0
RecvRight = Right recv

pub data AnySendRight : Type 0 where
  any_send : SendRight → AnySendRight
  any_send_once : SendOnceRight → AnySendRight

abbrev pub from_raw_name : {kind : RightKind} → ℕ → Right kind
from_raw_name name = record { name = name }

abbrev pub as_raw_name : {kind : RightKind} → Right kind → ℕ
as_raw_name right = right.name

-- The name leaves its wrapper, which is not dropped.
abbrev pub into_raw_name : {kind : RightKind} → Right kind → ℕ
into_raw_name right = right.name

module _ (p : Platform) where
  -- `BaseRight::MSG_TYPE`
  abbrev pub msg_type : RightKind → ℕ
  msg_type send = p.move_send
  msg_type send_once = p.move_send_once
  msg_type recv = p.move_receive

  -- The right that the `mod_refs` of each wrapper names.
  abbrev pub port_right : RightKind → ℕ
  port_right send = p.right_send
  port_right send_once = p.right_send_once
  port_right recv = p.right_receive

module _ {S : Type 0} (p : Platform) (k : Kernel S) where
  unfoldable pub mod_refs_wrapper : (name right : ℕ) → ℤ → M S ℕ
  mod_refs_wrapper name right delta = do
    result ← call (k.mach_port_mod_refs name right delta)
    if result == p.kern_invalid_right
        then call (k.mach_port_mod_refs name p.right_dead_name delta)
        else pure result

  unfoldable pub mod_refs : {kind : RightKind} → Right kind → ℤ → M S ℕ
  mod_refs {kind} right delta = mod_refs_wrapper right.name (port_right p kind) delta

  -- `Drop` of the three wrappers.
  unfoldable pub drop : {kind : RightKind} → Right kind → M S (Unit {0})
  drop right = do _ ← mod_refs right (negsuc 0); pure tt

  unfoldable pub clone : SendRight → M S SendRight
  clone right = do
    result ← mod_refs right (pos 1)
    lift (assert (result == p.kern_success))
    pure (from_raw_name right.name)

  -- The new value of `self`.
  unfoldable pub clone_from : (self source : SendRight) → M S SendRight
  clone_from self source = do
    result ← mod_refs self (pos 1)
    lift (assert (result == p.kern_success))
    pure (from_raw_name source.name)

  unfoldable pub alloc : M S RecvRight
  alloc = do
    (result, raw_name) ←
        call (λ s. let (r, n, s') = k.mach_port_allocate p.right_receive s in ((r, n), s'))
    lift (assert (result == p.kern_success))
    lift (assert (not (raw_name == p.port_null)))
    pure (from_raw_name raw_name)

  unfoldable pub make_send : RecvRight → M S SendRight
  make_send right = do
    result ← call (k.mach_port_insert_right right.name right.name p.make_send)
    lift (assert (result == p.kern_success))
    pure (from_raw_name right.name)
