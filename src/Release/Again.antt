-- ===== src/Release/Again.antt =====
-- A builder made over the buffer of one that was dropped.
use mach_ports_rs.Prelude.{ℕ, ◌≡◌, refl, ◌∙◌, ap, true, List, map, ◌==◌, ==_iff}
use mach_ports_rs.Abi.{Platform, IsDarwin}
use mach_ports_rs.MsgBits.Fields.{Fields, fields}
use mach_ports_rs.Kernel.{Kernel, ◌>>=◌, ◌>>◌, pure, seq-pure}
use mach_ports_rs.Buffer.{Buffer}
use mach_ports_rs.Desc.{Layout, IsLayout}
use mach_ports_rs.Builder.{Builder}
use mach_ports_rs.Builder
use mach_ports_rs.Builder.Message.{Builds, Builds-Carries}
use mach_ports_rs.Release
use mach_ports_rs.Release.Contents.{Content, item_of, AllFit, give_all_back}
use mach_ports_rs.Release.Effect.{
  cleared, cleared-Carries, give_reply_back, drop-Carries, drop-give_all_back,
}

module _ {p : Platform} (d : IsDarwin p) {l : Layout} (lay : IsLayout p l) {S : Type 0}
    (k : Kernel S) where
  -- A builder that is made by new over the buffer of a builder that was dropped, and dropped too,
  -- gives back everything that the descriptors own a second time: the references of moved rights
  -- and the pages of consumed memory, in the same order, under the conditions of one drop.
  pub drop_twice :
      (b : Builder) (f : Fields) (cs : List Content) (inline : List ℕ)
      → Builds p l b f (map (item_of p) cs) inline
      → AllFit cs
      → f.remote ≡ 0
      → b.buffer.header.msgh_remote_port ≡ p.port_null
      → b.buffer.header.msgh_voucher_port ≡ p.port_null
      → (do buffer ← Release.drop p k l b; Release.drop p k l (Builder.new buffer)) ≡ (do
        give_reply_back p k b.buffer.header f
        give_all_back p k cs
        give_all_back p k cs
        pure (record (b.buffer) { header = cleared p b.buffer.header f }))
  drop_twice b f cs inline h fits remote no_remote no_voucher =
      rw (drop-give_all_back d lay k b f cs inline h fits remote no_remote no_voucher) (
        seq-pure (give_reply_back p k b.buffer.header f) (give_all_back p k cs) left
          (λ buffer. Release.drop p k l (Builder.new buffer))
        ∙ ap (λ m. give_reply_back p k b.buffer.header f >> (give_all_back p k cs >> m)) second)
    where
      left : Buffer
      left = record (b.buffer) { header = cleared p b.buffer.header f }

      null : (p.port_null == p.port_null) ≡ true
      null = (==_iff p.port_null p.port_null).1 refl

      second : Release.drop p k l (Builder.new left) ≡ (do give_all_back p k cs; pure left)
      second =
          drop-Carries d lay k (Builder.new left) (fields f.complex 0 0 0) cs inline
            (cleared-Carries (Builds-Carries h)) fits refl no_remote refl
          ∙ rw null
