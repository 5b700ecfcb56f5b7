-- ===== src/Release/Refs.antt =====
-- The reference counts when a builder is dropped unsent.
use mach_ports_rs.Prelude.{
  ap, ◌∙◌, ℕ, ◌+◌, ◌*◌, ◌^◌, ◌<◌, ◌≤◌, ◌≡◌, refl, sym, append_assoc, ok, ◌∙◌, List, [], ◌∷◌, ◌++◌,
  ◌&&◌, ◌==◌, if◌then◌else◌, Returns, Returns-mono, returns, arith,
}
use mathlib.Core.Path.{subst}
use mach_ports_rs.Abi.{Platform, IsDarwin}
use mach_ports_rs.Kernel.{Kernel, HasRefs, M, ◌>>=◌, ◌>>◌, pure, Returns-after, seq_assoc, after}
use mach_ports_rs.Rights.{BaseSendRight, from_raw_name, port_right}
use mach_ports_rs.Rights.Counts.{drop-Counted}
use mach_ports_rs.Buffer.Growth.{Served}
use mach_ports_rs.Desc.{Layout, IsLayout}
use mach_ports_rs.Builder.Draft.{CallsFit, draft_size}
use mach_ports_rs.Builder.Session.{empty_draft}
use mach_ports_rs.Reply.Asked.{
  Asked, no_answer, answer_made, answer_copied, answer_moved, answer_back, then_asked, replaced,
}
use mach_ports_rs.Reply.Requests.{
  Request, plain, reply, calls_of, asked_of, all_replaced, RepliesFit, draft_of, build_requests,
}
use mach_ports_rs.Release
use mach_ports_rs.Release.Contents
use mach_ports_rs.Release.Contents.{Content, AllFit, give_all_back, moved, copied, lent, consumed}
use mach_ports_rs.Release.Unsent.{contents_of, unsent-answer_back}

-- The references that a message owns.
abbrev pub moved_ref : Platform → Content → (name right : ℕ) → ℕ
moved_ref p (moved kind name) m r = if m == name && r == port_right p kind then 1 else 0
moved_ref p _ m r = 0

abbrev pub moved_refs : Platform → List Content → (name right : ℕ) → ℕ
moved_refs p [] m r = 0
moved_refs p (c ∷ cs) m r = moved_ref p c m r + moved_refs p cs m r

-- The rights that are moved are send and send once rights, and no memory is consumed.
abbrev pub OwnsSend : Content → Type 0
OwnsSend (moved kind name) = BaseSendRight kind
OwnsSend (consumed r kind) = ⊥
OwnsSend _ = Unit

abbrev pub OwnSends : List Content → Type 0
OwnSends [] = Unit
OwnSends (c ∷ cs) = OwnsSend c × OwnSends cs

-- A reply right that is moved in is a content too.
abbrev pub answer_content : Asked → List Content
answer_content (answer_moved kind base right) = moved kind right.name ∷ []
answer_content _ = []

module _ {S : Type 0} {p : Platform} (d : IsDarwin p) {k : Kernel S} (h : HasRefs p k) where
  -- A content that owns nothing.
  idle :
      (cs : List Content) (s : S)
      → Returns
          (λ q. (m r : ℕ) → h.refs q.1 m r + moved_refs p cs m r ≡ h.refs s m r)
          (give_all_back p k cs s)
      → Returns
          (λ q. (m r : ℕ) → h.refs q.1 m r + (0 + moved_refs p cs m r) ≡ h.refs s m r)
          (give_all_back p k cs s)
  idle cs s done = Returns-mono done (λ q e m r. omega (arith, e m r))

  give_all_back-refs :
      (cs : List Content) (s : S)
      → OwnSends cs
      → ((m r : ℕ) → moved_refs p cs m r ≤ h.refs s m r)
      → Returns
          (λ q. (m r : ℕ) → h.refs q.1 m r + moved_refs p cs m r ≡ h.refs s m r)
          (give_all_back p k cs s)
  give_all_back-refs [] s owns covered = returns (λ m r. omega arith)
  give_all_back-refs (moved kind name ∷ cs) s owns covered =
      Returns-after
        (drop-Counted d k h (from_raw_name {kind = kind} name) s owns.0
          (ground (arith, covered name (port_right p kind))))
        (λ u. give_all_back p k cs)
        (λ q c.
          Returns-mono
            (give_all_back-refs cs q.1 owns.1 (λ m r. ground (arith, c m r, covered m r)))
            (λ q' e m r. ground (arith, c m r, covered m r, e m r)))
  give_all_back-refs (copied name ∷ cs) s owns covered =
      idle cs s (give_all_back-refs cs s owns.1 (λ m r'. omega (arith, covered m r')))
  give_all_back-refs (Contents.made once name ∷ cs) s owns covered =
      idle cs s (give_all_back-refs cs s owns.1 (λ m r'. omega (arith, covered m r')))
  give_all_back-refs (lent r kind ∷ cs) s owns covered =
      idle cs s (give_all_back-refs cs s owns.1 (λ m r'. omega (arith, covered m r')))
  give_all_back-refs (consumed r kind ∷ cs) s owns covered = absurd owns.0

answer_back-content :
    {S : Type 0} (p : Platform) (k : Kernel S) (asked : Asked) (cs : List Content)
    → (answer_back p k asked >> give_all_back p k cs)
      ≡ give_all_back p k (answer_content asked ++ cs)
answer_back-content p k no_answer cs = refl
answer_back-content p k (answer_made right once) cs = refl
answer_back-content p k (answer_copied right) cs = refl
answer_back-content p k (answer_moved kind base right) cs = refl

-- The reply ports that are replaced.
abbrev pub replaced_content : Asked → Asked → List Content
replaced_content old no_answer = []
replaced_content old new = answer_content old

abbrev pub all_contents : Asked → List Request → List Content
all_contents old [] = answer_content old
all_contents old (plain c ∷ rs) = all_contents old rs
all_contents old (reply new ∷ rs) = replaced_content old new ++ all_contents (then_asked old new) rs

-- What the requests move in.
abbrev pub moved_in : List Request → List Content
moved_in rs = all_contents no_answer rs ++ contents_of (calls_of rs)

replaced-content :
    {S : Type 0} (p : Platform) (k : Kernel S) (old new : Asked) (cs : List Content)
    → (replaced p k old new >> give_all_back p k cs)
      ≡ give_all_back p k (replaced_content old new ++ cs)
replaced-content p k old no_answer cs = refl
replaced-content p k old (answer_made right once) cs = answer_back-content p k old cs
replaced-content p k old (answer_copied right) cs = answer_back-content p k old cs
replaced-content p k old (answer_moved kind base right) cs = answer_back-content p k old cs

-- First the replaced reply ports are given back, and then the last one and the descriptors.
all_replaced-contents :
    {S : Type 0} (p : Platform) (k : Kernel S) (old : Asked) (rs : List Request) (cs : List Content)
    → (all_replaced p k old rs >> (answer_back p k (asked_of old rs) >> give_all_back p k cs))
      ≡ give_all_back p k (all_contents old rs ++ cs)
all_replaced-contents p k old [] cs = answer_back-content p k old cs
all_replaced-contents p k old (plain c ∷ rs) cs = all_replaced-contents p k old rs cs
all_replaced-contents {S} p k old (reply new ∷ rs) cs =
    seq_assoc (replaced p k old new) (all_replaced p k (then_asked old new) rs)
      (answer_back p k (asked_of (then_asked old new) rs) >> give_all_back p k cs)
    ∙ (ap (λ (m : M S (Unit {0})). replaced p k old new >> m)
          (all_replaced-contents p k (then_asked old new) rs cs)
        ∙ (replaced-content p k old new (all_contents (then_asked old new) rs ++ cs)
            ∙ ap (give_all_back p k) (
                sym (
                  append_assoc (replaced_content old new) (all_contents (then_asked old new) rs)
                    cs))))

-- Building a message by any requests that fit, and dropping the builder unsent, returns, and leaves
-- every reference count lower by exactly the number of times that the right was moved in, whether
-- as a descriptor, as the last reply port or as one that was replaced, and no other count changed,
-- when the moved rights are send or send once rights of which at least as many references are held,
-- no memory is consumed, and mach_port_mod_refs behaves as documented.
pub unsent-refs :
    {p : Platform} (d : IsDarwin p) (served : Served p) {l : Layout} (lay : IsLayout p l)
    {S : Type 0} {k : Kernel S} (h : HasRefs p k) (capacity : ℕ) (rs : List Request) (s : S)
    → capacity < 2 ^ 28
    → CallsFit p empty_draft (calls_of rs)
    → RepliesFit p rs
    → 3 * draft_size (draft_of p rs) ≤ capacity + capacity
    → AllFit (contents_of (calls_of rs))
    → OwnSends (moved_in rs)
    → ((m r : ℕ) → moved_refs p (moved_in rs) m r ≤ h.refs s m r)
    → Returns
        (λ q. (m r : ℕ) → h.refs q.1 m r + moved_refs p (moved_in rs) m r ≡ h.refs s m r)
        ((do b ← build_requests p k l capacity rs; buffer ← Release.drop p k l b; pure tt) s)
unsent-refs {p} d served {l} lay {S = S} {k = k} h capacity rs s small fits replies le all owns
      covered =
    Returns-after (unsent-answer_back d served lay k capacity rs s small fits replies le all)
      (λ b. Release.drop p k l b >>= λ buffer. pure tt)
      (λ q e.
        subst (λ (m : M S (Unit {0})). Returns counted (m q.1)) (sym e.1)
          (subst (Returns counted) (same q.1 e.0)
            (give_all_back-refs d h (moved_in rs) s owns covered)))
  where
    counted : Unit {0} × S → Type 0
    counted q = (m r : ℕ) → h.refs q.1 m r + moved_refs p (moved_in rs) m r ≡ h.refs s m r

    given : M S (Unit {0})
    given = answer_back p k (asked_of no_answer rs) >> give_all_back p k (contents_of (calls_of rs))

    same :
        (s' : S)
        → all_replaced p k no_answer rs s ≡ ok (tt, s')
        → give_all_back p k (moved_in rs) s ≡ given s'
    same s' e =
        ap (λ (m : M S (Unit {0})). m s)
          (sym (all_replaced-contents p k no_answer rs (contents_of (calls_of rs))))
        ∙ ap (λ o. after o (λ u. given)) e
