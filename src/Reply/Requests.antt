-- ===== src/Reply/Requests.antt =====
-- Any sequence of calls of a builder, those that set a reply port among them.
use mach_ports_rs.Prelude.{
  ℕ, ◌+◌, ◌*◌, ◌^◌, ◌<◌, ◌≤◌, ◌≡◌, refl, List, [], ◌∷◌, ok, Returns, returns, Returns-mono, arith,
}
use mach_ports_rs.Abi.{Platform, IsDarwin}
use mach_ports_rs.Kernel.{Kernel, M, ◌>>=◌, ◌>>◌, pure, lift, Returns-after, Returns-lift}
use mach_ports_rs.Buffer
use mach_ports_rs.Buffer.{Header, zero_header}
use mach_ports_rs.Buffer.Growth.{Served}
use mach_ports_rs.Desc.{Layout, IsLayout}
use mach_ports_rs.Builder
use mach_ports_rs.Builder.{Builder}
use mach_ports_rs.Builder.Draft.{
  Call, Draft, perform, amend, amend_all, CallsFit, draft_size, draft_size-amend_all, Realizes,
}
use mach_ports_rs.Builder.Session.{empty_draft, perform-Realizes, new-Realizes}
use mach_ports_rs.Reply.Asked.{
  Asked, no_answer, ask, asked_header, asked_fields, AskedFits, then_asked, replaced, ask-Sets,
}

pub data Request : Type 0 where
  plain : Call → Request
  reply : Asked → Request

unfoldable pub serve : {S : Type 0} → Platform → Kernel S → Layout → Builder → Request → M S Builder
serve p k l b (plain c) = lift (perform p l b c)
serve p k l b (reply asked) = ask p k b asked

unfoldable pub serve_all :
    {S : Type 0} → Platform → Kernel S → Layout → Builder → List Request → M S Builder
serve_all p k l b [] = pure b
serve_all p k l b (r ∷ rs) = do b' ← serve p k l b r; serve_all p k l b' rs

-- What the requests describe: a draft, the reply port that is set last, and the reply ports that are
-- replaced, each of which is given back.
abbrev pub calls_of : List Request → List Call
calls_of [] = []
calls_of (plain c ∷ rs) = c ∷ calls_of rs
calls_of (reply asked ∷ rs) = calls_of rs

abbrev pub asked_of : Asked → List Request → Asked
asked_of old [] = old
asked_of old (plain c ∷ rs) = asked_of old rs
asked_of old (reply new ∷ rs) = asked_of (then_asked old new) rs

abbrev pub all_replaced : {S : Type 0} → Platform → Kernel S → Asked → List Request → M S (Unit {0})
all_replaced p k old [] = pure tt
all_replaced p k old (plain c ∷ rs) = all_replaced p k old rs
all_replaced p k old (reply new ∷ rs) =
    replaced p k old new >> all_replaced p k (then_asked old new) rs

abbrev pub RepliesFit : Platform → List Request → Type 0
RepliesFit p [] = Unit
RepliesFit p (plain c ∷ rs) = RepliesFit p rs
RepliesFit p (reply asked ∷ rs) = AskedFits p asked × RepliesFit p rs

abbrev pub draft_of : Platform → List Request → Draft
draft_of p rs = amend_all p empty_draft (calls_of rs)

then_asked-AskedFits :
    (p : Platform) (old new : Asked)
    → AskedFits p old
    → AskedFits p new
    → AskedFits p (then_asked old new)
then_asked-AskedFits p old no_answer h h' = h
then_asked-AskedFits p old (Asked.answer_made right once) h h' = h'
then_asked-AskedFits p old (Asked.answer_copied right) h h' = h'
then_asked-AskedFits p old (Asked.answer_moved kind base right) h h' = h'

pub asked_of-AskedFits :
    (p : Platform) (old : Asked) (rs : List Request)
    → AskedFits p old
    → RepliesFit p rs
    → AskedFits p (asked_of old rs)
asked_of-AskedFits p old [] h fits = h
asked_of-AskedFits p old (plain c ∷ rs) h fits = asked_of-AskedFits p old rs h fits
asked_of-AskedFits p old (reply new ∷ rs) h fits =
    asked_of-AskedFits p (then_asked old new) rs (then_asked-AskedFits p old new h fits.0) fits.1

-- The builder holds what the requests describe, and the replaced reply ports were given back.
abbrev pub Serves :
    {S : Type 0}
    → Platform
    → Layout
    → Kernel S
    → (cap : ℕ) → Draft
    → Asked
    → List Request
    → S
    → Builder × S
    → Type 0
Serves p l k cap m old rs s q =
    Realizes p l (asked_header (asked_of old rs)) (asked_fields p (asked_of old rs)) cap
      (amend_all p m (calls_of rs)) q.0
    × (all_replaced p k old rs s ≡ ok (tt, q.1))

module _ {p : Platform} (d : IsDarwin p) (served : Served p) {l : Layout} (lay : IsLayout p l)
    {S : Type 0} (k : Kernel S) (cap : ℕ) (small : cap < 2 ^ 28) where
  serve_all-Serves :
      (m : Draft) (old : Asked) (b : Builder) (rs : List Request) (s : S)
      → Realizes p l (asked_header old) (asked_fields p old) cap m b
      → AskedFits p old
      → RepliesFit p rs
      → CallsFit p m (calls_of rs)
      → 3 * draft_size (amend_all p m (calls_of rs)) ≤ cap + cap
      → Returns (Serves p l k cap m old rs s) (serve_all p k l b rs s)
  unfolding serve_all serve
  serve_all-Serves m old b [] s r named fit fits le = returns (r, refl)
  serve_all-Serves m old b (plain c ∷ rs) s r named fit fits le =
      Returns-after
        (Returns-lift s (
          perform-Realizes d served lay (asked_header old) (asked_fields p old) cap small m b c r
            fits.0 (omega (arith, le, draft_size-amend_all p (amend p m c) (calls_of rs)))))
        (λ b'. serve_all p k l b' rs)
        (λ q h. rw h.1 (serve_all-Serves (amend p m c) old q.0 rs s h.0 named fit fits.1 le))
  serve_all-Serves m old b (reply new ∷ rs) s r named fit fits le =
      Returns-after (ask-Sets d k old r named s new) (λ b'. serve_all p k l b' rs)
        (λ q h.
          Returns-mono
            (serve_all-Serves m (then_asked old new) q.0 rs q.1 h.0
              (then_asked-AskedFits p old new named fit.0) fit.1 fits le)
            (λ q' h'. (h'.0, rw h.1 h'.1)))

-- A message that is built in a new buffer.
abbrev pub build_requests :
    {S : Type 0} → Platform → Kernel S → Layout → (capacity : ℕ) → List Request → M S Builder
build_requests p k l capacity rs = do
  b ← lift (Buffer.with_capacity p capacity)
  serve_all p k l (Builder.new b) rs

-- Any sequence of requests of a builder over a new buffer (appending descriptors of each kind,
-- appending and inserting inline data, setting the identifier and setting reply ports, in any
-- order) returns and leaves exactly the message that the same requests describe on lists
-- (descriptors in order, inline data, identifier, the last reply port), in the capacity that the
-- buffer began with, and the only kernel calls are those that give back each moved reply port that
-- is replaced, in order; when regions are below 2 ^ 32 bytes, data is inserted within the inline
-- data, moved reply rights have a name, three times the size of the whole message is at most twice
-- the capacity, the capacity is below 2 ^ 28 and the allocator serves every request.
pub build_requests-Serves :
    {p : Platform} (d : IsDarwin p) (served : Served p) {l : Layout} (lay : IsLayout p l)
    {S : Type 0} (k : Kernel S) (capacity : ℕ) (rs : List Request) (s : S)
    → capacity < 2 ^ 28
    → CallsFit p empty_draft (calls_of rs)
    → RepliesFit p rs
    → 3 * draft_size (draft_of p rs) ≤ capacity + capacity
    → Returns
        (Serves p l k capacity empty_draft no_answer rs s)
        (build_requests p k l capacity rs s)
build_requests-Serves {p} d served {l} lay k capacity rs s small fits replies le =
    Returns-after (Returns-lift s (new-Realizes d served l capacity small))
      (λ b. serve_all p k l (Builder.new b) rs)
      (λ q h. rw h.1 (
        serve_all-Serves d served lay k capacity small empty_draft no_answer (Builder.new q.0) rs s
          h.0 tt replies fits le))
