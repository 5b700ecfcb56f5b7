-- ===== src/Release/Effect.antt =====
-- Dropping a builder gives back what its message owns, once for each descriptor and in their order.
use mathlib.Core.Path.{fun_ext, subst}
use mach_ports_rs.Prelude.{
  ℕ, ◌^◌, ◌<◌, ◌≡◌, refl, ap, true, List, [], ◌∷◌, ◌++◌, map, append_assoc, length, length-append,
  length-map, arith, ==_iff, ◌==◌, if◌then◌else◌, ok,
}
use mach_ports_rs.Abi.{Platform, IsDarwin}
use mach_ports_rs.MsgBits
use mach_ports_rs.MsgBits.Fields.{Fields, fields, Fit, encode, getters, new_lem, from_bits-encode}
use mach_ports_rs.Kernel.{Kernel, M, ◌>>◌, pure, after-pure}
use mach_ports_rs.Buffer.{Buffer, Header, to_ne_bytes}
use mach_ports_rs.Buffer.Holds.{with_header-Holds, body-ok}
use mach_ports_rs.Desc.{Layout, IsLayout}
use mach_ports_rs.Desc.Read.{Item}
use mach_ports_rs.Builder.{Builder}
use mach_ports_rs.Builder.Message.{
  items_bytes, desc_area, Builds, Builds-Carries, Carries, length-to_ne_bytes, length-le-desc_area,
}
use mach_ports_rs.Release
use mach_ports_rs.Release.{drop_local, drop_header, drop_loop, drop_desc}
use mach_ports_rs.Release.Contents.{Content, item_of, AllFit, give_all_back}
use mach_ports_rs.Release.Loop.{descriptors_count-Carries, drop_loop-give_all_back}

-- The header of a message that is dropped.
abbrev pub cleared : Platform → Header → Fields → Header
cleared p h f = record h {
  msgh_local_port = p.port_null;
  msgh_voucher_port = p.port_null;
  msgh_bits = encode (fields f.complex 0 0 0);
}

-- The part of `drop_header` that drops the reply port.
abbrev pub give_reply_back : {S : Type 0} → Platform → Kernel S → Header → Fields → M S (Unit {0})
give_reply_back p k h f =
    if h.msgh_local_port == p.port_null then pure tt else drop_local p k f.local h.msgh_local_port

module _ {p : Platform} (d : IsDarwin p) {S : Type 0} (k : Kernel S) where
  drop_header-cleared :
      (h : Header) (f : Fields)
      → h.msgh_bits ≡ encode f
      → Fit f
      → f.remote ≡ 0
      → h.msgh_remote_port ≡ p.port_null
      → h.msgh_voucher_port ≡ p.port_null
      → drop_header p k h ≡ (do give_reply_back p k h f; pure (cleared p h f))
  unfolding drop_header
  drop_header-cleared h f bits fit remote no_remote no_voucher =
      fun_ext λ s. rw (read, reads.0, reads.1, reads.2, no_voucher', no_remote', made)
    where
      read : MsgBits.from_bits p h.msgh_bits ≡ ok h.msgh_bits
      read = rw bits (from_bits-encode d f fit)

      reads :
          (MsgBits.complex p h.msgh_bits ≡ f.complex)
          × (MsgBits.remote p h.msgh_bits ≡ 0)
          × (MsgBits.local p h.msgh_bits ≡ f.local)
      reads =
          rw (bits, (getters d f fit).0, (getters d f fit).1, (getters d f fit).2, remote)
            (refl, refl, refl)

      no_voucher' : (h.msgh_voucher_port == p.port_null) ≡ true
      no_voucher' = (==_iff h.msgh_voucher_port p.port_null).1 no_voucher

      no_remote' : (h.msgh_remote_port == p.port_null) ≡ true
      no_remote' = (==_iff h.msgh_remote_port p.port_null).1 no_remote

      made : MsgBits.new p f.complex 0 0 0 ≡ ok (encode (fields f.complex 0 0 0))
      made = new_lem d f.complex 0 0 0 (omega arith) (omega arith) (omega arith)

-- The header of a dropped message has no ports, so its buffer still carries the descriptors.
pub cleared-Carries :
    {p : Platform} {l : Layout} {b : Buffer} {f : Fields} {descs : List Item} {inline : List ℕ}
    → Carries p l b f descs inline
    → Carries p l (record b { header = cleared p b.header f }) (fields f.complex 0 0 0) descs inline
cleared-Carries h = record {
  holds = with_header-Holds _ h.holds;
  bits = refl;
  fit = record { remote = omega arith; local = omega arith; voucher = omega arith };
  complex = h.complex;
}

module _ {p : Platform} (d : IsDarwin p) {l : Layout} (lay : IsLayout p l) {S : Type 0}
    (k : Kernel S) where
  drop_loop-Carries :
      {b : Buffer} {f : Fields} (cs : List Content) {inline : List ℕ}
      → Carries p l b f (map (item_of p) cs) inline
      → AllFit cs
      → drop_loop p k l b (length cs) 4 ≡ give_all_back p k cs
  unfolding drop_loop
  drop_loop-Carries [] h fits = refl
  drop_loop-Carries {b} (c ∷ cs) {inline} h fits =
      subst (λ n. drop_loop p k l b (length (c ∷ cs)) n ≡ give_all_back p k (c ∷ cs))
        (length-to_ne_bytes (length (map (item_of p) (c ∷ cs))))
        (drop_loop-give_all_back d lay k b count (c ∷ cs) inline
          (rw (← append_assoc count (items_bytes l (map (item_of p) (c ∷ cs))) inline)
            (body-ok h.holds))
          (rw (← append_assoc count (items_bytes l (map (item_of p) (c ∷ cs))) inline) small)
          (omega (arith, length-to_ne_bytes (length (map (item_of p) (c ∷ cs))))) fits)
    where
      count : List ℕ
      count = to_ne_bytes (length (map (item_of p) (c ∷ cs)))

      small : length (desc_area l (map (item_of p) (c ∷ cs)) ++ inline) < 2 ^ 32
      small = omega (arith, h.holds.len_eq, h.holds.len_le, h.holds.cap_lt)

  -- The same of any builder over a buffer that carries such a message.
  pub drop-Carries :
      (b : Builder) (f : Fields) (cs : List Content) (inline : List ℕ)
      → Carries p l b.buffer f (map (item_of p) cs) inline
      → AllFit cs
      → f.remote ≡ 0
      → b.buffer.header.msgh_remote_port ≡ p.port_null
      → b.buffer.header.msgh_voucher_port ≡ p.port_null
      → Release.drop p k l b ≡ (do
        give_reply_back p k b.buffer.header f
        give_all_back p k cs
        pure (record (b.buffer) { header = cleared p b.buffer.header f }))
  unfolding Release.drop
  drop-Carries b f cs inline h fits remote no_remote no_voucher = fun_ext λ s.
      rw
        (
          drop_header-cleared d k b.buffer.header f h.bits h.fit remote no_remote no_voucher,
          after-pure (give_reply_back p k b.buffer.header f s) (cleared p b.buffer.header f),
          descriptors_count-Carries d (map (item_of p) cs) few (cleared-Carries h),
          length-map {0, 0} {A = Content} {B = Item} (item_of p) cs,
        )
        (ap
          (λ loop.
            (give_reply_back p k b.buffer.header f
                >> (loop >> pure (record (b.buffer) { header = cleared p b.buffer.header f })))
              s)
          (drop_loop-Carries cs (cleared-Carries h) fits))
    where
      few : length (map (item_of p) cs) < 2 ^ 32
      few = omega (
        arith,
        h.holds.len_eq,
        h.holds.len_le,
        h.holds.cap_lt,
        length-append (desc_area l (map (item_of p) cs)) inline,
        length-le-desc_area d lay (map (item_of p) cs),
      )

  -- Dropping a builder whose message has no remote port and no voucher, and whose descriptors were
  -- added by its own calls, is the same as dropping the reply port by its local bits and then
  -- giving back what each of the descriptors owns (a reference of a moved right, the pages of
  -- consumed memory, nothing else), once each and in the order of the message, with no other kernel
  -- call; the buffer keeps its bytes and gets a header without ports.
  pub drop-give_all_back :
      (b : Builder) (f : Fields) (cs : List Content) (inline : List ℕ)
      → Builds p l b f (map (item_of p) cs) inline
      → AllFit cs
      → f.remote ≡ 0
      → b.buffer.header.msgh_remote_port ≡ p.port_null
      → b.buffer.header.msgh_voucher_port ≡ p.port_null
      → Release.drop p k l b ≡ (do
        give_reply_back p k b.buffer.header f
        give_all_back p k cs
        pure (record (b.buffer) { header = cleared p b.buffer.header f }))
  drop-give_all_back b f cs inline h fits remote no_remote no_voucher =
      drop-Carries b f cs inline (Builds-Carries h) fits remote no_remote no_voucher
