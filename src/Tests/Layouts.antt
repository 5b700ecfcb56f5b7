-- ===== src/Tests/Layouts.antt =====
-- Darwin's constants and its little-endian descriptors.
use mach_ports_rs.Prelude.{
  ℕ, ◌+◌, ◌*◌, ◌/◌, ◌%◌, ◌^◌, ◌<◌, ◌≡◌, refl, true, List, [], ◌∷◌, debug, if◌then◌else◌, arith,
}
use mach_ports_rs.Abi.{Platform, IsDarwin}
use mach_ports_rs.Buffer.Growth.{Served}
use mach_ports_rs.Desc.{PortDesc, OolDesc, Layout, IsLayout, OolFits}

abbrev pub darwin : Platform
darwin = record {
  profile = debug;
  msgh_bits_remote_mask = 0x1f;
  msgh_bits_local_mask = 0x1f00;
  msgh_bits_voucher_mask = 0x1f0000;
  msgh_bits_complex = 0x80000000;
  msgh_bits_user = 0x801f1f1f;
  move_receive = 16;
  move_send = 17;
  move_send_once = 18;
  copy_send = 19;
  make_send = 20;
  make_send_once = 21;
  copy_receive = 22;
  port_descriptor = 0;
  ool_descriptor = 1;
  ool_ports_descriptor = 2;
  ool_volatile_descriptor = 3;
  port_null = 0;
  header_size = 24;
  header_align = 4;
  port_descriptor_size = 12;
  ool_descriptor_size = 16;
  ool_ports_descriptor_size = 16;
  port_descriptor_align = 4;
  virtual_copy = 1;
  physical_copy = 0;
  vm_flags = 3;
  page_size = 4096;
  allocates = λ n. true;
  kern_success = 0;
  kern_invalid_right = 17;
  right_send = 0;
  right_receive = 1;
  right_send_once = 2;
  right_dead_name = 4;
  send_msg = 1;
  rcv_msg = 2;
}

pub darwin-IsDarwin : IsDarwin darwin
darwin-IsDarwin = record {
  remote_mask = refl;
  local_mask = refl;
  voucher_mask = refl;
  complex_bit = refl;
  user_mask = refl;
  move_receive = refl;
  move_send = refl;
  move_send_once = refl;
  copy_send = refl;
  make_send = refl;
  make_send_once = refl;
  copy_receive = refl;
  port_descriptor = refl;
  ool_descriptor = refl;
  ool_ports_descriptor = refl;
  ool_volatile_descriptor = refl;
  port_null = refl;
  header_size = refl;
  header_align = refl;
  port_descriptor_size = refl;
  ool_descriptor_size = refl;
  ool_ports_descriptor_size = refl;
  kern_success = refl;
  kern_invalid_right = refl;
  right_send = refl;
  right_receive = refl;
  right_send_once = refl;
  right_dead_name = refl;
  send_msg = refl;
  rcv_msg = refl;
  port_descriptor_align = refl;
  virtual_copy = refl;
  physical_copy = refl;
}

pub darwin-Served : Served darwin
darwin-Served n = refl

-- Four bytes of a word, from the lowest.
abbrev word : (a b c d : ℕ) → ℕ
word a b c d = a + b * 256 + c * 65536 + d * 16777216

abbrev byte : ℕ → ℕ → ℕ
byte n k = n / k % 256

abbrev bytes4 : ℕ → List ℕ → List ℕ
bytes4 n rest = n % 256 ∷ byte n 256 ∷ byte n 65536 ∷ byte n 16777216 ∷ rest

abbrev bytes_port : PortDesc → List ℕ
bytes_port d = bytes4 d.name (0 ∷ 0 ∷ 0 ∷ 0 ∷ 0 ∷ 0 ∷ d.disposition ∷ d.type_ ∷ [])

abbrev bytes_ool : OolDesc → List ℕ
bytes_ool d =
    bytes4 (d.address % 2 ^ 32)
      (bytes4 (d.address / 2 ^ 32) (d.deallocate ∷ d.copy ∷ 0 ∷ d.type_ ∷ bytes4 d.size []))

abbrev no_port : PortDesc
no_port = record { name = 0; disposition = 0; type_ = 0 }

abbrev no_ool : OolDesc
no_ool = record { address = 0; deallocate = 0; copy = 0; type_ = 0; size = 0 }

abbrev port_from : List ℕ → PortDesc
port_from (a ∷ b ∷ c ∷ d ∷ _ ∷ _ ∷ _ ∷ _ ∷ _ ∷ _ ∷ disposition ∷ type_ ∷ _) = record {
  name = word a b c d;
  disposition = disposition;
  type_ = type_;
}
port_from _ = no_port

abbrev ool_from : List ℕ → OolDesc
ool_from (a ∷ b ∷ c ∷ d ∷ a' ∷ b' ∷ c' ∷ d' ∷ deallocate ∷ copy ∷ _ ∷ type_ ∷ w ∷ x ∷ y ∷ z ∷ _) =
    record {
      address = word a b c d + word a' b' c' d' * 2 ^ 32;
      deallocate = deallocate;
      copy = copy;
      type_ = type_;
      size = word w x y z;
    }
ool_from _ = no_ool

abbrev pub packed : Layout
packed = record {
  port_new = λ name disposition. record { name = name; disposition = disposition; type_ = 0 };
  ool_new = λ address deallocate copy size. record {
    address = address;
    deallocate = if deallocate then 1 else 0;
    copy = copy;
    type_ = 1;
    size = size;
  };
  port_bytes = bytes_port;
  port_of = port_from;
  ool_bytes = bytes_ool;
  ool_of = ool_from;
}

word-bytes4 :
    (n : ℕ) → n < 2 ^ 32 → word (n % 256) (byte n 256) (byte n 65536) (byte n 16777216) ≡ n
word-bytes4 n h = omega arith

pub packed-IsLayout : IsLayout darwin packed
packed-IsLayout = record {
  port_size = λ d. refl;
  ool_size = λ d. refl;
  port_of-port_bytes = λ d f. rw (word-bytes4 d.name f.name);
  ool_of-ool_bytes = λ d f. rw (address d f, word-bytes4 d.size f.size);
  type_shared = λ d f. refl;
  port_new_fields = λ name disposition. refl;
  ool_new_fields = λ address deallocate copy size. refl;
}
  where
    address :
        (d : OolDesc)
        → OolFits d
        → word
              (d.address % 2 ^ 32 % 256)
              (byte (d.address % 2 ^ 32) 256)
              (byte (d.address % 2 ^ 32) 65536)
              (byte (d.address % 2 ^ 32) 16777216)
            + word
                (d.address / 2 ^ 32 % 256)
                (byte (d.address / 2 ^ 32) 256)
                (byte (d.address / 2 ^ 32) 65536)
                (byte (d.address / 2 ^ 32) 16777216)
              * 2 ^ 32
          ≡ d.address
    address d f =
        rw
          (
            word-bytes4 (d.address % 2 ^ 32) (omega arith),
            word-bytes4 (d.address / 2 ^ 32) (omega (arith, f.address)),
          )
          (omega arith)
