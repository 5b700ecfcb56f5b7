-- ===== src/Lib.antt =====
-- A model of the crate mach_ports: wrappers of Mach port names, and messages that are built in a
-- buffer, sent, received and parsed.
--
-- The parts of the crate and the files that model them:
--   Abi, Kernel  what the crate takes from mach2 and from the kernel behind it, as parameters:
--     the constants (`Platform`, with the values of Darwin's headers as the hypothesis
--     `IsDarwin`), the calls (`Kernel`, on any state) and what is documented of the counts of
--     references (`HasRefs`). A call of the kernel is a function on the state; code that makes
--     calls is in the monad `M`.
--   MsgBits      src/msg/mod.rs: `MachMsgBits`, on words of 32 bits, with the masks and shifts
--     of the source. MsgBits/Fields reads the words as four fields.
--   Buffer       src/msg/buffer.rs: the header as a record and the allocation behind it as a
--     list of cells, of which a cell that was never written is `none`. Buffer/Holds is the
--     invariant, Buffer/Growth and Buffer/Insert are about the operations where the room suffices,
--     and Buffer/Overflow about those that write outside. Buffer/Drop hands the allocation back.
--   Rights       src/rights.rs and src/traits.rs: `SendRight`, `SendOnceRight` and `RecvRight`
--     are one record indexed by the kind. Rights/Counts and Rights/Ports are about the counts of
--     references, Rights/Ledger, Rights/Shifts and Rights/Covered about runs of a program that
--     holds several wrappers, while ports die.
--   Desc         src/msg/parser.rs, `next_desc_impl`: the next descriptor of a body. The layout
--     of the two structures in bytes is a parameter (`Layout`, with `IsLayout` as its hypothesis).
--     Desc/Read is about descriptors of a builder, Desc/Safe about bytes that nobody vouches for.
--     Desc/References lists the references that are formed to descriptors, with their alignments;
--     the one that mach2 gives an OOL descriptor is a parameter.
--   Vm           src/msg/ool.rs: `VmBuf`, the pages of out-of-line data. Vm/Shrink is about what
--     `shrink_to` gives back.
--   Ool          src/msg/ool.rs: `OolVec`, whose pages are a list of cells: `mach_vm_allocate` gives as
--     many as it is asked for, and `mach_vm_deallocate` unmaps its range of them. Ool/Holds is what a
--     vector holds, Ool/Extend and Ool/Resize are about its operations. Ool/Owned has those that
--     call the kernel through Vm, the macro `ool_vec!` and the conversions to and from `OolBuf`;
--     Ool/Convert and Ool/Bulk are about them. Ool/Slices has the mutable slices, `PartialEq` and
--     `Hash`.
--   Builder      src/msg/builder.rs: the calls that add to a message, on the Buffer below them.
--     Builder/Message is the message that a builder holds: descriptors and inline data.
--     Builder/Append and Builder/Calls are about single calls, Builder/Draft and Builder/Session
--     about each of them against a message on lists (`Draft`) that the calls describe.
--   Reply        src/msg/builder.rs: the calls that set the reply port, which may drop a right.
--     Reply/Replaced, Reply/Effect and Reply/Asked are about each, Reply/Requests about any
--     sequence of calls of a builder, those that set a reply port among them.
--   Release      src/msg/builder.rs: `drop_header` and the `Drop` of a builder, which reads the
--     descriptors back by Desc and drops what they own by Rights and Vm. Release/Unsent and
--     Release/Refs are about a builder that is dropped after any of these calls, Release/Again
--     about a buffer that is used again.
--   Parser       src/msg/parser.rs: `MsgParser`, `DescParser` and `BodyParser`; Parser/Discard
--     has their `Drop`. Parser/Incoming is what a received message is, Parser/Opened,
--     Parser/Roundtrip and Parser/Received are about messages that are read, Parser/Unread about
--     those that are not, Parser/Safe and Parser/SafeDrop about messages of any bytes, and
--     Parser/Rounds about the loop of a client.
--   Error        src/msg/error.rs: the macros `def_error_kind` and `def_error` as functions of
--     their tables. Error/Words and Error/Kinds are about the flags and kinds, Error/Display about
--     the texts.
--   Transfer     src/rights.rs: `send_impl`, `send` and `recv`, which join the parts above.
--     Transfer/Sent, Transfer/Arrived and Transfer/Refused are about each, Transfer/Conveyed is
--     what becomes of descriptors and of a reply port on the way, and Transfer/Exchange is about a
--     message from its builder to the parsers.
--   Prelude      lists, tests, words, and `Outcome`: a value, a panic or undefined behaviour (an
--     access outside the allocation, a read of a cell that was never written).
--   Tests        a platform, a layout, a kernel and messages that meet the hypotheses.
--
-- Words keep their widths: sizes of messages have 32 bits and `usize` has 64, a sum that overflows
-- panics in a debug build and wraps in a release build (`Profile`), a `checked_add` or `try_into` that
-- fails gives `none`. The loops over descriptors recurse on the count that the source counts down,
-- so no fuel is chosen; a client's loop over `next` (Parser/Rounds) is bounded by the descriptors
-- left. `to_ne_bytes` is little-endian. Sizes are bounded in the hypotheses (2 ^ 28 for
-- a capacity to which a descriptor is added) so that the doubling of a buffer stays below 2 ^ 32.
--
-- Not modelled: the allocator (it serves a request or panics), the bytes of the header inside
-- `as_slice` (they stay a record), what unwinding drops after a panic, and src/msg/tests.rs, which
-- needs the kernel. An outcome is undefined for an access outside of an allocation and for a read
-- of memory that was never written, not for a reference of the wrong alignment: those to
-- descriptors are listed apart (Desc/References). Where the type of an OOL descriptor needs eight
-- bytes, as the comment at parser.rs:134 takes it to, the reference at parser.rs:137 is misaligned
-- for the first descriptor.
pub mod Prelude
pub mod Abi
pub mod MsgBits
pub mod Buffer
pub mod Kernel
pub mod Rights
pub mod Desc
pub mod Vm
pub mod Builder
pub mod Reply
pub mod Release
pub mod Parser
pub mod Transfer
pub mod Error
pub mod Ool
pub mod Tests
