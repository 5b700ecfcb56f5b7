-- ===== src/MsgBits/Fields.antt =====
-- The header bits as four fields: what each method of `MachMsgBits` does to them.
use mach_ports_rs.Prelude.{
  ℕ, ◌+◌, ◌*◌, ◌/◌, ◌%◌, ◌^◌, ◌<◌, ◌≡◌, Bool, true, false, ◌&&◌, ok, panic, if◌then◌else◌, ltb,
  ◌==◌, arith,
}
use mach_ports_rs.Abi.{Platform, IsDarwin}
use mach_ports_rs.MsgBits
use mach_ports_rs.MsgBits.{MachMsgBits}
use mach_ports_rs.MsgBits.Words.{
  and_remote, and_local, and_voucher, and_complex, and_not_remote, and_not_local, and_user,
  or_remote, or_local, or_voucher, or_complex, or_complex_again,
}

pub record Fields : Type 0 where
  pub complex : Bool
  pub remote : ℕ
  pub local : ℕ
  pub voucher : ℕ

abbrev pub fields : Bool → ℕ → ℕ → ℕ → Fields
fields c r l v = record { complex = c; remote = r; local = l; voucher = v }

-- Each port type fits five bits.
pub record Fit (f : Fields) : Type 0 where
  pub remote : f.remote < 32
  pub local : f.local < 32
  pub voucher : f.voucher < 32

abbrev pub encode : Fields → MachMsgBits
encode f = f.remote + f.local * 256 + f.voucher * 65536 + (if f.complex then 2 ^ 31 else 0)

abbrev pub fit : ℕ → ℕ → ℕ → Bool
fit r l v = ltb r 32 && (ltb l 32 && ltb v 32)

abbrev pub decode : MachMsgBits → Fields
decode x = fields (x / 2 ^ 31 == 1) (x % 32) (x / 256 % 32) (x / 65536 % 32)

module _ {p : Platform} (d : IsDarwin p) where
  -- On words of 32 bits, MachMsgBits::new accepts exactly the port types of five bits and stores
  -- each in its field, and panics on any other.
  pub new_lem :
      (c : Bool) (r l v : ℕ)
      → r < 2 ^ 32
      → l < 2 ^ 32
      → v < 2 ^ 32
      → MsgBits.new p c r l v ≡ (if fit r l v then ok (encode (fields c r l v)) else panic)
  unfolding MsgBits.new
  new_lem c r l v hr hl hv =
      rw (d.remote_mask, d.complex_bit, and_remote r hr, and_remote l hl, and_remote v hv)
        (ground
          (arith, or_local 0 l r, or_voucher v (l * 256 + r), or_complex (v * 65536 + l * 256 + r)))

  -- On bits that four fitting fields make up, each getter of MachMsgBits reads the field that it is
  -- named for.
  pub getters :
      (f : Fields)
      → Fit f
      → (MsgBits.complex p (encode f) ≡ f.complex)
        × (MsgBits.remote p (encode f) ≡ f.remote)
        × (MsgBits.local p (encode f) ≡ f.local)
        × (MsgBits.voucher p (encode f) ≡ f.voucher)
  unfolding MsgBits.complex MsgBits.remote MsgBits.local MsgBits.voucher
  getters f h =
      rw (d.remote_mask, d.local_mask, d.voucher_mask, d.complex_bit)
        (
          ground (arith, and_complex (encode f)),
          ground (arith, and_remote (encode f)),
          ground (arith, and_local (encode f)),
          ground (arith, and_voucher (encode f)),
        )

  pub set_remote_lem :
      (f : Fields) (r : ℕ)
      → Fit f
      → r < 32
      → MsgBits.set_remote p (encode f) r ≡ ok (encode (record f { remote = r }))
  unfolding MsgBits.set_remote
  set_remote_lem f r h hr =
      rw d.remote_mask
        (ground (arith, and_remote r, and_not_remote (encode f), or_remote (encode f / 32) r))

  pub set_local_lem :
      (f : Fields) (l : ℕ)
      → Fit f
      → l < 32
      → MsgBits.set_local p (encode f) l ≡ ok (encode (record f { local = l }))
  unfolding MsgBits.set_local
  set_local_lem f l h hl =
      rw (d.remote_mask, d.local_mask)
        (ground (
          arith,
          and_remote l,
          and_not_local (encode f),
          or_local (encode f / 8192) l (encode f % 256),
        ))

  pub into_complex_lem :
      (f : Fields)
      → Fit f
      → MsgBits.into_complex p (encode f) ≡ encode (record f { complex = true })
  unfolding MsgBits.into_complex
  into_complex_lem f h = rw d.complex_bit (
      ground (
        arith,
        or_complex (encode (record f { complex = false })),
        or_complex_again (encode (record f { complex = false })),
      ))

  -- On bits that four fitting fields make up, setting the remote or the local port type to a value
  -- below 32, or making the message complex, changes that field only.
  pub setters :
      (f : Fields) (t : ℕ)
      → Fit f
      → t < 32
      → (MsgBits.set_remote p (encode f) t ≡ ok (encode (record f { remote = t })))
        × (MsgBits.set_local p (encode f) t ≡ ok (encode (record f { local = t })))
        × (MsgBits.into_complex p (encode f) ≡ encode (record f { complex = true }))
  setters f t h lt = (set_remote_lem f t h lt, set_local_lem f t h lt, into_complex_lem f h)

  -- From_bits lets through the words of 32 bits that four fields make up, and panics on all others.
  pub from_bits_lem :
      (x : ℕ)
      → x < 2 ^ 32
      → MsgBits.from_bits p x ≡ (if x == encode (decode x) then ok x else panic)
  unfolding MsgBits.from_bits
  from_bits_lem x h = rw d.user_mask (ground (arith, and_user x))

  pub from_bits-encode : (f : Fields) → Fit f → MsgBits.from_bits p (encode f) ≡ ok (encode f)
  unfolding MsgBits.from_bits
  from_bits-encode f h = rw d.user_mask (ground (arith, and_user (encode f)))
