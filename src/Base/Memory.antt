-- ===== src/Base/Memory.antt =====
-- A byte buffer as a list: reads and writes of whole ranges, with the bounds checked.
use Prim.Native.Nat.{ℕ, zero, suc, ◌≤◌}
use mathlib.Core.Path.{◌≡◌, refl, ap}
use mathlib.Core.List.{List, [], ◌∷◌, ◌++◌}
use mathlib.Core.Option.{Option, none, some}
use native.Mathlib.Omega.{arith}
use caliper.Base.Lists.{length, drop, get_elem?}
use caliper.Base.Maybe.{◌>>=◌}

module _ {ℓ} {A : Type ℓ} where
  -- `memcpy(p, bs, n)`, where `p` is the start of the buffer.
  unfoldable pub overlay : List A → List A → Option (List A)
  overlay xs [] = some xs
  overlay [] (b ∷ bs) = none
  overlay (x ∷ xs) (b ∷ bs) = overlay xs bs >>= λ r. some (b ∷ r)

  -- `memcpy(buf + p, bs, n)`.
  unfoldable pub write : List A → ℕ → List A → Option (List A)
  unfolding overlay
  write xs zero bs = overlay xs bs
  write [] (suc p) bs = none
  write (x ∷ xs) (suc p) bs = write xs p bs >>= λ r. some (x ∷ r)

  -- `memcpy(tmp, buf, n)`.
  unfoldable pub front : List A → ℕ → Option (List A)
  front xs zero = some []
  front [] (suc n) = none
  front (x ∷ xs) (suc n) = front xs n >>= λ r. some (x ∷ r)

  -- `memcpy(tmp, buf + p, n)`.
  unfoldable pub read : List A → ℕ → ℕ → Option (List A)
  unfolding front
  read xs zero n = front xs n
  read [] (suc p) n = none
  read (x ∷ xs) (suc p) n = read xs p n

  pub overlay-append :
      (old bs post : List A) → length old ≡ length bs → overlay (old ++ post) bs ≡ some (bs ++ post)
  unfolding overlay
  overlay-append [] [] post h = refl
  overlay-append [] (b ∷ bs) post h = absurd (omega arith)
  overlay-append (x ∷ old) [] post h = absurd (omega arith)
  overlay-append (x ∷ old) (b ∷ bs) post h = rw (overlay-append old bs post (omega arith))

  pub write-append :
      (pre old bs post : List A) (p : ℕ)
      → p ≡ length pre
      → length old ≡ length bs
      → write (pre ++ (old ++ post)) p bs ≡ some (pre ++ (bs ++ post))
  unfolding write
  write-append [] old bs post zero hp h = overlay-append old bs post h
  write-append [] old bs post (suc p) hp h = absurd (omega arith)
  write-append (x ∷ pre) old bs post zero hp h = absurd (omega arith)
  write-append (x ∷ pre) old bs post (suc p) hp h =
      rw (write-append pre old bs post p (omega arith) h)

  pub front-append : (xs post : List A) (n : ℕ) → n ≡ length xs → front (xs ++ post) n ≡ some xs
  unfolding front
  front-append [] post zero h = refl
  front-append [] post (suc n) h = absurd (omega arith)
  front-append (x ∷ xs) post zero h = absurd (omega arith)
  front-append (x ∷ xs) post (suc n) h = rw (front-append xs post n (omega arith))

  pub read-append :
      (pre xs post : List A) (p n : ℕ)
      → p ≡ length pre
      → n ≡ length xs
      → read (pre ++ (xs ++ post)) p n ≡ some xs
  unfolding read
  read-append [] xs post zero n hp h = front-append xs post n h
  read-append [] xs post (suc p) n hp h = absurd (omega arith)
  read-append (x ∷ pre) xs post zero n hp h = absurd (omega arith)
  read-append (x ∷ pre) xs post (suc p) n hp h = read-append pre xs post p n (omega arith) h

  pub drop-append : (pre xs : List A) (p : ℕ) → p ≡ length pre → drop p (pre ++ xs) ≡ xs
  drop-append [] xs zero h = refl
  drop-append [] xs (suc p) h = absurd (omega arith)
  drop-append (x ∷ pre) xs zero h = absurd (omega arith)
  drop-append (x ∷ pre) xs (suc p) h = drop-append pre xs p (omega arith)

  -- Every list that is long enough splits at a position.
  pub split_at :
      (n : ℕ) (xs : List A)
      → n ≤ length xs
      → (front back : List A) × (xs ≡ front ++ back) × (length front ≡ n)
  split_at zero xs h = ([], xs, refl, refl)
  split_at (suc n) [] h = absurd (omega arith)
  split_at (suc n) (x ∷ xs) h =
      let (a, b, e, l) = split_at n xs (omega arith) in
      (x ∷ a, b, ap (λ (t : List A). x ∷ t) e, ap suc l)

  pub get_elem?-append :
      (pre : List A) (x : A) (rest : List A) (p : ℕ)
      → p ≡ length pre
      → get_elem? (pre ++ (x ∷ rest)) p ≡ some x
  get_elem?-append [] x rest zero h = refl
  get_elem?-append [] x rest (suc p) h = absurd (omega arith)
  get_elem?-append (y ∷ pre) x rest zero h = absurd (omega arith)
  get_elem?-append (y ∷ pre) x rest (suc p) h = get_elem?-append pre x rest p (omega arith)
