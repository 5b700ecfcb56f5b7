-- ===== src/Parser/Rounds.antt =====
-- How many calls of `next` it takes to read the descriptors of a message.
use mach_ports_rs.Prelude.{
  ap, assert, true, ◌-◌, returns, Returns-ok, ltb, ltb_iff, Bool-cases, inl, inr, length, ℕ, zero,
  suc, ◌<◌, ◌≡◌, refl, Option, none, some, List, [], ◌∷◌, Outcome, ok, panic, undefined, ◌>>=◌,
  arith,
}
use mathlib.Core.Option
use mach_ports_rs.Abi.{Platform}
use mach_ports_rs.Buffer.{Buffer}
use mach_ports_rs.Desc.{Layout, next_desc_impl}
use mach_ports_rs.Parser.Roundtrip.{read_all}
use mach_ports_rs.Parser.{
  parser_at, parsed_desc, next, ParsedMsgDesc, DescOrBodyParser, descriptor, body_left, DescParser,
  BodyParser,
}

-- The descriptors that a parser has left.
abbrev pub left : DescOrBodyParser → ℕ
left (descriptor x) = x.count
left (body_left r) = 0

abbrev pub Reading : Type 0
Reading = Outcome (List ParsedMsgDesc × BodyParser)

-- The descriptor before the others.
abbrev pub with_desc : ParsedMsgDesc → Reading → Reading
with_desc parsed (ok (others, body)) = ok (parsed ∷ others, body)
with_desc parsed panic = panic
with_desc parsed undefined = undefined

-- What a client that calls `next` until the body is left comes to; `none` if it has not come to an
-- end after so many calls.
abbrev pub read_after :
    Outcome (ParsedMsgDesc × DescOrBodyParser)
    → (DescOrBodyParser → Option Reading)
    → Option Reading
read_after (ok (parsed, parser)) others = Option.map (with_desc parsed) (others parser)
read_after panic others = some panic
read_after undefined others = some undefined

abbrev pub read_within : Platform → Layout → ℕ → DescOrBodyParser → Option Reading
read_within p l n (body_left r) = some (ok ([], r))
read_within p l zero (descriptor x) = none
read_within p l (suc n) (descriptor x) = read_after (next p l x) (read_within p l n)

-- The parser has descriptors left, or it is the body.
abbrev pub IsCounting : DescOrBodyParser → Type 0
IsCounting (descriptor x) = 0 < x.count
IsCounting (body_left r) = Unit

next-left :
    (p : Platform) (l : Layout) (x : DescParser) (r : ParsedMsgDesc × DescOrBodyParser)
    → next p l x ≡ ok r
    → suc (left (r.1)) ≡ x.count
unfolding next
next-left p l x r e = ground arith

parser_at-IsCounting :
    (p : Platform) (b : Buffer) (count offset : ℕ) → IsCounting (parser_at p b count offset)
parser_at-IsCounting p b count offset = elim (Bool-cases (ltb 0 count)) [
  | inl some_left ↦ rw some_left ((ltb_iff 0 count).0 some_left)
  | inr none_left ↦ rw none_left tt
]

-- What holds of every value that the rest of a call returns holds of every value of the call.
every-bind :
    {A B : Type 0} {P : B → Type 0} (m : Outcome A) (f : A → Outcome B)
    → ((a : A) (r : B) → f a ≡ ok r → P r)
    → (r : B) → (m >>= f) ≡ ok r
    → P r
every-bind (ok a) f h r e = h a r e
every-bind panic f h r e = absurd (ground (arith, e))
every-bind undefined f h r e = absurd (ground (arith, e))

next-IsCounting :
    (p : Platform) (l : Layout) (x : DescParser) (r : ParsedMsgDesc × DescOrBodyParser)
    → next p l x ≡ ok r
    → IsCounting (r.1)
unfolding next
next-IsCounting p l x = every-bind {P = λ r. IsCounting (r.1)} (assert (ltb 0 x.count)) _ (λ u.
    every-bind (next_desc_impl p l x.buffer x.offset true) _ (λ (desc, offset).
      every-bind (parsed_desc p desc) _ (λ parsed r e.
        Returns-ok {P = λ q. IsCounting (q.1)}
          (returns (parser_at-IsCounting p x.buffer (x.count - 1) offset)) e)))

-- Reading has come to an end: it panicked, or gave as many descriptors.
abbrev pub Ends : ℕ → Option Reading → Type 0
Ends n o =
    (r : Reading) × (o ≡ some r)
    × ((descs : List ParsedMsgDesc) (body : BodyParser) → r ≡ ok (descs, body) → length descs ≡ n)

-- One descriptor more.
one_more :
    {n : ℕ} (parsed : ParsedMsgDesc) (r : Reading)
    → ((descs : List ParsedMsgDesc) (body : BodyParser) → r ≡ ok (descs, body) → length descs ≡ n)
    → (descs : List ParsedMsgDesc) (body : BodyParser) → with_desc parsed r ≡ ok (descs, body)
    → length descs ≡ suc n
one_more {n} parsed (ok (others, last)) counted descs body e =
    Returns-ok {P = λ q. length (q.0) ≡ suc n} (returns (ap suc (counted others last refl))) e
one_more parsed panic counted descs body e = absurd (ground (arith, e))
one_more parsed undefined counted descs body e = absurd (ground (arith, e))

read_after-Ends :
    (n : ℕ) (o : Outcome (ParsedMsgDesc × DescOrBodyParser))
    (others : DescOrBodyParser → Option Reading)
    → ((parsed : ParsedMsgDesc) (parser : DescOrBodyParser)
        → o ≡ ok (parsed, parser)
        → Ends n (others parser))
    → Ends (suc n) (read_after o others)
read_after-Ends n (ok (parsed, parser)) others h =
    let (r, e, counted) = h parsed parser refl in
    (with_desc parsed r, rw e, one_more parsed r counted)
read_after-Ends n panic others h = (panic, refl, λ descs body e. absurd (ground (arith, e)))
read_after-Ends n undefined others h = (undefined, refl, λ descs body e. absurd (ground (arith, e)))

with_desc-bind :
    (parsed : ParsedMsgDesc) (r : Reading)
    → with_desc parsed r
      ≡ ◌>>=◌ {B = List ParsedMsgDesc × BodyParser} r (λ (others, b). ok (parsed ∷ others, b))
with_desc-bind parsed (ok (others, b)) = refl
with_desc-bind parsed panic = refl
with_desc-bind parsed undefined = refl

read_after-bind :
    (o : Outcome (ParsedMsgDesc × DescOrBodyParser)) (others : DescOrBodyParser → Option Reading)
    (all : DescOrBodyParser → Reading)
    → ((parsed : ParsedMsgDesc) (parser : DescOrBodyParser)
        → o ≡ ok (parsed, parser)
        → others parser ≡ some (all parser))
    → read_after o others
      ≡ some (
          ◌>>=◌ {B = List ParsedMsgDesc × BodyParser} o (λ (parsed, parser).
            ◌>>=◌ {B = List ParsedMsgDesc × BodyParser}
              (all parser)
              (λ (descs, b). ok (parsed ∷ descs, b))))
read_after-bind (ok (parsed, parser)) others all h =
    rw (h parsed parser refl) (ap some (with_desc-bind parsed (all parser)))
read_after-bind panic others all h = refl
read_after-bind undefined others all h = refl

-- Reading.
module _ (p : Platform) (l : Layout) where
  read_within-Ends :
      (n : ℕ) (parser : DescOrBodyParser)
      → left parser ≡ n
      → IsCounting parser
      → Ends n (read_within p l n parser)
  read_within-Ends zero (body_left r) e counting = (
    ok ([], r),
    refl,
    λ descs body same. Returns-ok {P = λ q. length (q.0) ≡ 0} (returns refl) same,
  )
  read_within-Ends (suc n) (body_left r) e counting = absurd (omega (arith, e))
  read_within-Ends zero (descriptor x) e counting = absurd (omega (arith, e, counting))
  read_within-Ends (suc n) (descriptor x) e counting =
      read_after-Ends n (next p l x) (read_within p l n) (λ parsed parser ne.
        read_within-Ends n parser (omega (arith, next-left p l x (parsed, parser) ne, e))
          (next-IsCounting p l x (parsed, parser) ne))

  -- The bound of `read_all` is never met.
  read_within-read_all :
      (n : ℕ) (parser : DescOrBodyParser)
      → left parser ≡ n
      → IsCounting parser
      → read_within p l n parser ≡ some (read_all p l n parser)
  read_within-read_all zero (body_left r) e counting = refl
  read_within-read_all (suc n) (body_left r) e counting = refl
  read_within-read_all zero (descriptor x) e counting = absurd (omega (arith, e, counting))
  read_within-read_all (suc n) (descriptor x) e counting =
      read_after-bind (next p l x) (read_within p l n) (read_all p l n) (λ parsed parser ne.
        read_within-read_all n parser (omega (arith, next-left p l x (parsed, parser) ne, e))
          (next-IsCounting p l x (parsed, parser) ne))

  -- A client that calls next on a parser until the body is left, from a parser that has descriptors
  -- left or is the body, comes to an end within as many calls as descriptors are counted, whatever
  -- the message is: a call panics (or is undefined) or the body is left, and then exactly as many
  -- descriptors as were counted have been read. So read_all, which parse_message uses, with a bound
  -- of that count is this client: it never panics for its bound.
  pub reading-Ends :
      (parser : DescOrBodyParser)
      → IsCounting parser
      → Ends (left parser) (read_within p l (left parser) parser)
        × (read_within p l (left parser) parser ≡ some (read_all p l (left parser) parser))
  reading-Ends parser counting = (
    read_within-Ends (left parser) parser refl counting,
    read_within-read_all (left parser) parser refl counting,
  )
