-- ===== src/Prelude/Lists.antt =====
-- Lists measured by native numbers, and reads and writes of a range of an array.
use Prim.Native.Nat.{ℕ, zero, suc, ◌+◌, ◌-◌, ◌≤◌, ◌<◌, min}
use mathlib.Core.Path.{◌≡◌, refl, sym, ap, ◌∙◌}
use mathlib.Core.List.{List, [], ◌∷◌, ◌++◌, map, append_assoc}
use mathlib.Core.Option.{Option, none, some}
use mathlib.Core.Option
use native.Mathlib.Omega.{arith}

module _ {ℓ} {A : Type ℓ} where
  abbrev pub length : List A → ℕ
  length [] = 0
  length (x ∷ xs) = suc (length xs)

  abbrev pub take : ℕ → List A → List A
  take zero xs = []
  take (suc n) [] = []
  take (suc n) (x ∷ xs) = x ∷ take n xs

  abbrev pub drop : ℕ → List A → List A
  drop zero xs = xs
  drop (suc n) [] = []
  drop (suc n) (x ∷ xs) = drop n xs

  abbrev pub replicate : ℕ → A → List A
  replicate zero a = []
  replicate (suc n) a = a ∷ replicate n a

  pub length-append : (xs ys : List A) → length (xs ++ ys) ≡ length xs + length ys
  length-append [] ys = omega arith
  length-append (x ∷ xs) ys = omega (arith, length-append xs ys)

  pub take-append-drop : (n : ℕ) (xs : List A) → take n xs ++ drop n xs ≡ xs
  take-append-drop zero xs = refl
  take-append-drop (suc n) [] = refl
  take-append-drop (suc n) (x ∷ xs) = ap (λ r. x ∷ r) (take-append-drop n xs)

  pub length-take : (n : ℕ) (xs : List A) → length (take n xs) ≡ min n (length xs)
  length-take zero xs = omega arith
  length-take (suc n) [] = omega arith
  length-take (suc n) (x ∷ xs) = omega (arith, length-take n xs)

  pub length-drop : (n : ℕ) (xs : List A) → length (drop n xs) ≡ length xs - n
  length-drop zero xs = omega arith
  length-drop (suc n) [] = omega arith
  length-drop (suc n) (x ∷ xs) = omega (arith, length-drop n xs)

  pub length-replicate : (n : ℕ) (a : A) → length (replicate n a) ≡ n
  length-replicate zero a = refl
  length-replicate (suc n) a = ap suc (length-replicate n a)

  pub take-append : (xs ys : List A) (n : ℕ) → n ≡ length xs → take n (xs ++ ys) ≡ xs
  take-append [] ys zero e = refl
  take-append [] ys (suc n) e = absurd (omega arith)
  take-append (x ∷ xs) ys zero e = absurd (omega arith)
  take-append (x ∷ xs) ys (suc n) e = ap (λ r. x ∷ r) (take-append xs ys n (omega arith))

  pub drop-append : (xs ys : List A) (n : ℕ) → n ≡ length xs → drop n (xs ++ ys) ≡ ys
  drop-append [] ys zero e = refl
  drop-append [] ys (suc n) e = absurd (omega arith)
  drop-append (x ∷ xs) ys zero e = absurd (omega arith)
  drop-append (x ∷ xs) ys (suc n) e = drop-append xs ys n (omega arith)

  pub drop-append_left :
      (n : ℕ) (xs ys : List A) → n ≤ length xs → drop n (xs ++ ys) ≡ drop n xs ++ ys
  drop-append_left zero xs ys h = refl
  drop-append_left (suc n) [] ys h = absurd (omega arith)
  drop-append_left (suc n) (x ∷ xs) ys h = drop-append_left n xs ys (omega arith)

  pub take_all : (xs : List A) (n : ℕ) → n ≡ length xs → take n xs ≡ xs
  take_all [] zero e = refl
  take_all [] (suc n) e = absurd (omega arith)
  take_all (x ∷ xs) zero e = absurd (omega arith)
  take_all (x ∷ xs) (suc n) e = ap (λ r. x ∷ r) (take_all xs n (omega arith))

  -- The `n` elements from index `i`; `none` where they do not all exist.
  abbrev pub read_at : List A → ℕ → ℕ → Option (List A)
  read_at xs i zero = some []
  read_at [] i (suc n) = none
  read_at (x ∷ xs) zero (suc n) = Option.map (λ r. x ∷ r) (read_at xs zero n)
  read_at (x ∷ xs) (suc i) (suc n) = read_at xs i (suc n)

  -- The array with `ys` written from index `i`; `none` where a write is out of range.
  abbrev pub write_at : List A → ℕ → List A → Option (List A)
  write_at xs i [] = some xs
  write_at [] i (y ∷ ys) = none
  write_at (x ∷ xs) zero (y ∷ ys) = Option.map (λ r. y ∷ r) (write_at xs zero ys)
  write_at (x ∷ xs) (suc i) (y ∷ ys) = Option.map (λ r. x ∷ r) (write_at xs i (y ∷ ys))

module _ {ℓ} {A : Type ℓ} where
  read_front : (m r : List A) → read_at (m ++ r) 0 (length m) ≡ some m
  read_front [] r = refl
  read_front (x ∷ m) r = ap (Option.map (λ t. x ∷ t)) (read_front m r)

  pub read_at-append :
      (p m r : List A) (i n : ℕ)
      → i ≡ length p
      → n ≡ length m
      → read_at (p ++ (m ++ r)) i n ≡ some m
  read_at-append [] m r zero n e f = ap (read_at (m ++ r) 0) f ∙ read_front m r
  read_at-append [] m r (suc i) n e f = absurd (omega arith)
  read_at-append (x ∷ p) m r zero n e f = absurd (omega arith)
  read_at-append (x ∷ p) [] r (suc i) zero e f = refl
  read_at-append (x ∷ p) (y ∷ m) r (suc i) zero e f = absurd (omega arith)
  read_at-append (x ∷ p) m r (suc i) (suc n) e f = read_at-append p m r i (suc n) (omega arith) f

  write_front : (m ys r : List A) → length m ≡ length ys → write_at (m ++ r) 0 ys ≡ some (ys ++ r)
  write_front [] [] r e = refl
  write_front [] (y ∷ ys) r e = absurd (omega arith)
  write_front (x ∷ m) [] r e = absurd (omega arith)
  write_front (x ∷ m) (y ∷ ys) r e = ap (Option.map (λ t. y ∷ t)) (write_front m ys r (omega arith))

  pub write_at-append :
      (p m ys r : List A) (i : ℕ)
      → i ≡ length p
      → length m ≡ length ys
      → write_at (p ++ (m ++ r)) i ys ≡ some (p ++ (ys ++ r))
  write_at-append [] m ys r zero e f = write_front m ys r f
  write_at-append [] m ys r (suc i) e f = absurd (omega arith)
  write_at-append (x ∷ p) m ys r zero e f = absurd (omega arith)
  write_at-append (x ∷ p) [] [] r (suc i) e f = refl
  write_at-append (x ∷ p) (z ∷ m) [] r (suc i) e f = absurd (omega arith)
  write_at-append (x ∷ p) m (y ∷ ys) r (suc i) e f =
      ap (Option.map (λ t. x ∷ t)) (write_at-append p m (y ∷ ys) r i (omega arith) f)

  -- A write that does not fit is refused.
  pub write_at_outside :
      (xs : List A) (i : ℕ) (y : A) (ys : List A)
      → length xs < i + length (y ∷ ys)
      → write_at xs i (y ∷ ys) ≡ none
  write_at_outside [] i y ys h = refl
  write_at_outside (x ∷ xs) zero y [] h = absurd (omega arith)
  write_at_outside (x ∷ xs) zero y (z ∷ ys) h =
      ap (Option.map (λ t. y ∷ t)) (write_at_outside xs zero z ys (omega arith))
  write_at_outside (x ∷ xs) (suc i) y ys h =
      ap (Option.map (λ t. x ∷ t)) (write_at_outside xs i y ys (omega arith))

pub length-map {ℓ κ} :
    {A : Type ℓ} {B : Type κ} (f : A → B) (xs : List A) → length (map f xs) ≡ length xs
length-map f [] = refl
length-map f (x ∷ xs) = ap suc (length-map f xs)

module _ {ℓ} {A : Type ℓ} where
  -- Moving a tail up by the length of `ys`, and writing `ys` into the gap, inserts `ys`.
  pub insert_cells :
      (pre suf rest ys : List A)
      → length ys ≤ length rest
      → (mid : List A) × (write_at (pre ++ (suf ++ rest)) (length pre + length ys) suf ≡ some mid)
        × (write_at mid (length pre) ys ≡ some (pre ++ (ys ++ (suf ++ drop (length ys) rest))))
  insert_cells pre suf rest ys h = (
    pre ++ (gap ++ (suf ++ left)),
    ap (λ m. write_at m (length pre + n) suf) regroup
        ∙ (write_at-append (pre ++ gap) tail suf left (length pre + n)
              (omega (arith, length-append pre gap, length-gap)) length-tail
            ∙ ap some (append_assoc pre gap (suf ++ left))),
    write_at-append pre gap ys (suf ++ left) (length pre) refl length-gap,
  )
    where
      n : ℕ
      n = length ys

      left : List A
      left = drop n rest

      moved : List A
      moved = suf ++ take n rest

      gap : List A
      gap = take n moved

      tail : List A
      tail = drop n moved

      length-moved : length moved ≡ length suf + n
      length-moved = omega (arith, length-append suf (take n rest), length-take n rest)

      length-gap : length gap ≡ n
      length-gap = omega (arith, length-take n moved, length-moved)

      length-tail : length tail ≡ length suf
      length-tail = omega (arith, length-drop n moved, length-moved)

      regroup : pre ++ (suf ++ rest) ≡ (pre ++ gap) ++ (tail ++ left)
      regroup =
          ap (λ r. pre ++ (suf ++ r)) (sym (take-append-drop n rest))
          ∙ (ap (λ r. pre ++ r) (sym (append_assoc suf (take n rest) left))
              ∙ (ap (λ r. pre ++ (r ++ left)) (sym (take-append-drop n moved))
                  ∙ (ap (λ r. pre ++ r) (append_assoc gap tail left)
                      ∙ sym (append_assoc pre gap (tail ++ left)))))

module _ {ℓ} {A : Type ℓ} where
  pub length-read_at :
      (xs : List A) (i n : ℕ) {ys : List A} → read_at xs i n ≡ some ys → length ys ≡ n
  length-read_at xs i zero e = ground arith
  length-read_at [] i (suc n) e = ground arith
  length-read_at (x ∷ xs) zero (suc n) {ys} e =
      step (read_at xs zero n) (λ r. length-read_at xs zero n {ys = r}) e
    where
      step :
          (o : Option (List A))
          → ((r : List A) → o ≡ some r → length r ≡ n)
          → Option.map (λ r. x ∷ r) o ≡ some ys
          → length ys ≡ suc n
      step none ih e = cc
      step (some r) ih e = ground (arith, ih r refl)
  length-read_at (x ∷ xs) (suc i) (suc n) e = length-read_at xs i (suc n) e

  pub take-append_left : (n : ℕ) (xs ys : List A) → n ≤ length xs → take n (xs ++ ys) ≡ take n xs
  take-append_left zero xs ys h = refl
  take-append_left (suc n) [] ys h = absurd (omega arith)
  take-append_left (suc n) (x ∷ xs) ys h = ap (λ r. x ∷ r) (take-append_left n xs ys (omega arith))

module _ {ℓ κ} {A : Type ℓ} {B : Type κ} (f : A → B) where
  pub take-map : (n : ℕ) (xs : List A) → take n (map f xs) ≡ map f (take n xs)
  take-map zero xs = refl
  take-map (suc n) [] = refl
  take-map (suc n) (x ∷ xs) = ap (λ r. f x ∷ r) (take-map n xs)

  pub drop-map : (n : ℕ) (xs : List A) → drop n (map f xs) ≡ map f (drop n xs)
  drop-map zero xs = refl
  drop-map (suc n) [] = refl
  drop-map (suc n) (x ∷ xs) = drop-map n xs
