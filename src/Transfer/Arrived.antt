-- ===== src/Transfer/Arrived.antt =====
-- What `recv` makes of the message that the kernel writes into the buffer.
use mach_ports_rs.Prelude.{
  ℕ, ◌+◌, ◌<◌, ◌≤◌, ◌≡◌, refl, sym, ap, ◌∙◌, Option, some, List, [], ◌++◌, map, map-append,
  append_assoc, length, length-append, length-map, length-take, length-drop, access, take, drop,
  take-append-drop, read_at, read_at-append, write_at, write_at-append, arith, ok, undefined,
  Returns, returns, leb_iff, ◌==◌, ==_iff, if◌then◌else◌,
}
use mach_ports_rs.Abi.{Platform, IsDarwin}
use mach_ports_rs.MsgBits.Fields.{Fields, Fit, encode}
use mach_ports_rs.Kernel.{Kernel, MsgCall, Received, M, ◌>>=◌, pure, lift, after}
use mach_ports_rs.Rights.{RecvRight}
use mach_ports_rs.Buffer
use mach_ports_rs.Buffer.{Buffer, Header, Cell}
use mach_ports_rs.Buffer.Holds.{Holds, layout_bounds, as_slice-ok}
use mach_ports_rs.Buffer.Overflow.{access_outside}
use mach_ports_rs.Desc.{Layout}
use mach_ports_rs.Builder.Message.{some_descs, desc_area}
use mach_ports_rs.Parser
use mach_ports_rs.Parser.Roundtrip.{Delivered, delivered_item, AllDelivered}
use mach_ports_rs.Parser.Incoming.{ReplyIn, ReplyCarried, VoucherCarried, IsReceived}
use mach_ports_rs.Transfer
use mach_ports_rs.Transfer.{Result, done, failed, mach_msg}

-- What the kernel delivers: a header, the message behind it, and perhaps a trailer.
pub record IsDelivery (p : Platform) (l : Layout) (r : Received) (reply : ReplyIn)
    (voucher : Option ℕ) (cs : List Delivered) (inline : List ℕ) : Type 0 where
  pub fields : Fields
  pub trailer : List ℕ
  pub bytes_eq : r.bytes ≡ (desc_area l (map (delivered_item p) cs) ++ inline) ++ trailer
  pub size_eq :
      r.header.msgh_size
      ≡ p.header_size + length (desc_area l (map (delivered_item p) cs) ++ inline)
  pub bits : r.header.msgh_bits ≡ encode fields
  pub fit : Fit fields
  pub complex : fields.complex ≡ some_descs (map (delivered_item p) cs)
  pub reply_in : ReplyCarried p r.header fields reply
  pub voucher_in : VoucherCarried p r.header fields voucher
  pub all : AllDelivered cs

-- The one call that `recv` makes.
abbrev pub recv_call : Platform → Header → (name : ℕ) → MsgCall
recv_call p header name = record {
  header = header;
  bytes = [];
  option = p.rcv_msg;
  send_size = 0;
  rcv_size = 4096;
  rcv_name = name;
}

abbrev pub IsDone : (Buffer → Type 0) → Result Buffer → Type 0
IsDone P (done b) = P b
IsDone P (failed e) = ⊥

-- What `recv` does after the call.
abbrev pub finish : {S : Type 0} → Platform → ℕ × Buffer → M S (Result Buffer)
finish p (result, buffer) =
    if result == p.kern_success
    then (do parser ← lift (Parser.new p buffer); pure (done parser))
    else pure (failed result)

-- Cells written over the first ones of a memory that holds as many.
pub write_over :
    (mem ys : List Cell)
    → length ys ≤ length mem
    → write_at mem 0 ys ≡ some (ys ++ drop (length ys) mem)
write_over mem ys le =
    ap (λ m. write_at m 0 ys) (sym (take-append-drop (length ys) mem))
    ∙ write_at-append [] (take (length ys) mem) ys (drop (length ys) mem) 0 refl
        (omega (arith, length-take (length ys) mem, le))

-- The first cells of a memory, cut into a message and what follows it.
read_split :
    (message tail : List Cell) (n extra : ℕ)
    → n ≡ length message + extra
    → extra ≤ length tail
    → read_at (message ++ tail) 0 n ≡ some (message ++ take extra tail)
read_split message tail n extra e le =
    ap (λ m. read_at m 0 n)
      (ap (λ t. message ++ t) (sym (take-append-drop extra tail))
        ∙ sym (append_assoc message (take extra tail) (drop extra tail)))
    ∙ read_at-append [] (message ++ take extra tail) (drop extra tail) 0 n refl
        (omega (arith, length-append message (take extra tail), length-take extra tail, le))

module _ {p : Platform} (d : IsDarwin p) {S : Type 0} (k : Kernel S) {b : Buffer} {bs : List ℕ}
    (h : Holds p b bs) (right : RecvRight) (s : S) where
  pub recv_run :
      Transfer.recv p k right b s
      ≡ after (mach_msg p k (recv_call p b.header right.name) b s) (finish p)
  unfolding Transfer.recv
  recv_run = rw (as_slice-ok h)

  -- Recv on a buffer of the invariant is undefined, whatever result mach_msg returns, when the
  -- kernel writes a message that exceeds the capacity of the buffer by more than the padding: the
  -- limit that recv passes is 4096 whatever the capacity.
  pub recv_overflows :
      {r : Received} {s' : S} {result : ℕ}
      → k.mach_msg (recv_call p b.header right.name) s ≡ (result, r, s')
      → b.capacity + 3 < length r.bytes
      → Transfer.recv p k right b s ≡ undefined
  recv_overflows {r} e more = rw (
    recv_run,
    e,
    access_outside b.mem 0 r.bytes (omega (arith, h.alloc_eq, layout_bounds d b.capacity))
        (omega arith),
  )

  module _ {l : Layout} {r : Received} {reply : ReplyIn} {voucher : Option ℕ} {cs : List Delivered}
      {inline : List ℕ} (m : IsDelivery p l r reply voucher cs inline)
      (fits : length r.bytes ≤ b.capacity) (room : r.header.msgh_size ≤ b.capacity) where
    message : List ℕ
    message = desc_area l (map (delivered_item p) cs) ++ inline

    abbrev tail : List Cell
    tail = map some m.trailer ++ drop (length (map {A = ℕ} {B = Cell} some r.bytes)) b.mem

    abbrev written : List Cell
    written = map some r.bytes ++ drop (length (map {A = ℕ} {B = Cell} some r.bytes)) b.mem

    mem_size : b.capacity ≤ length b.mem
    mem_size = omega (arith, h.alloc_eq, layout_bounds d b.capacity)

    write_fits : write_at b.mem 0 (map some r.bytes) ≡ some written
    write_fits =
        write_over b.mem (map some r.bytes)
          (omega (arith, length-map {0, 0} {A = ℕ} {B = Cell} some r.bytes, fits, mem_size))

    written_split : written ≡ map some message ++ tail
    unfolding message
    written_split =
        ap (λ z. z ++ left)
          (ap (λ z. map some z) m.bytes_eq ∙ map-append {A = ℕ} {B = Cell} some message m.trailer)
        ∙ append_assoc (map some message) (map some m.trailer) left
      where
        left : List Cell
        left = drop (length (map {A = ℕ} {B = Cell} some r.bytes)) b.mem

    size_message : r.header.msgh_size ≡ length (map {A = ℕ} {B = Cell} some message) + p.header_size
    unfolding message
    size_message = omega (arith, m.size_eq, length-map {0, 0} {A = ℕ} {B = Cell} some message)

    message_split :
        length (map some message ++ tail)
        ≡ length (map {A = ℕ} {B = Cell} some message) + length tail
    message_split = length-append (map {A = ℕ} {B = Cell} some message) tail

    tail_size : p.header_size ≤ length tail
    tail_size = omega (
      arith,
      length-append (map {A = ℕ} {B = Cell} some r.bytes)
          (drop (length (map {A = ℕ} {B = Cell} some r.bytes)) b.mem),
      length-drop (length (map {A = ℕ} {B = Cell} some r.bytes)) b.mem,
      length-map {0, 0} {A = ℕ} {B = Cell} some r.bytes,
      ap length written_split,
      message_split,
      size_message,
      fits,
      room,
      mem_size,
    )

    body_read :
        Buffer.body p (record b { header = r.header; mem = written; len = r.header.msgh_size })
        ≡ ok (
            map some (desc_area l (map (delivered_item p) cs))
            ++ (map some inline ++ take p.header_size tail))
    unfolding Buffer.body message
    body_read =
        ap access (
          ap (λ z. read_at z 0 r.header.msgh_size) written_split
          ∙ read_split (map some message) tail r.header.msgh_size p.header_size size_message
              tail_size)
        ∙ ap ok (
            ap (λ z. z ++ take p.header_size tail)
              (map-append {A = ℕ} {B = Cell} some (desc_area l (map (delivered_item p) cs)) inline)
            ∙ append_assoc (map some (desc_area l (map (delivered_item p) cs))) (map some inline)
                (take p.header_size tail))

    -- When mach_msg succeeds and delivers a header and bytes of a message with perhaps a trailer,
    -- which fit the capacity of a buffer of the invariant as msgh_size does too, recv returns a
    -- parser over a buffer that holds the message as the parsers expect it (see Parser.Incoming),
    -- under the header that was delivered, after the one call of the kernel.
    pub recv-IsReceived :
        {s' : S}
        → k.mach_msg (recv_call p b.header right.name) s ≡ (p.kern_success, r, s')
        → Returns
            (λ q.
              IsDone (λ b'. IsReceived p l b' reply voucher cs inline × (b'.header ≡ r.header)) q.0
              × (q.1 ≡ s'))
            (Transfer.recv p k right b s)
    unfolding Parser.new Buffer.set_len
    recv-IsReceived e =
        rw
          (
            recv_run,
            e,
            write_fits,
            (==_iff p.kern_success p.kern_success).1 refl,
            (leb_iff r.header.msgh_size b.capacity).1 room,
          )
          (returns (
            (
              record {
                fields = m.fields;
                rest = take p.header_size tail;
                body_eq = body_read;
                size_eq = omega (
                  arith,
                  m.size_eq,
                  length-append (desc_area l (map (delivered_item p) cs)) inline,
                );
                small = omega (arith, h.cap_lt, room);
                bits = m.bits;
                fit = m.fit;
                complex = m.complex;
                reply_in = m.reply_in;
                voucher_in = m.voucher_in;
                all = m.all;
              },
              refl,
            ),
            refl,
          ))
