-- ===== src/ContextBuffer/Removal.antt =====
-- `get` after `unset`.
use caliper.Base.{ℕ, zero, suc, ◌-◌, ◌<◌, ◌≡◌, inl, inr, refl, sym, ap, ◌∙◌, subst, arith, ltb}
use caliper.Base.{if◌then◌else◌, Option-cases, Bool-cases, true, false}
use caliper.Base.{List, [], ◌∷◌, ◌++◌, some, length}
use caliper.Variant.{empty_variant}
use caliper.Attribute.{Attr}
use caliper.ContextBuffer.{Slot, ContextBuffer, find, erase, remove, unset}
use caliper.ContextBuffer.Slots.{matching, find-none}
use caliper.ContextBuffer.Moves.{erase-append}
use caliper.ContextBuffer.Regions.{Regions, Located, locate, IsContext}
use caliper.ContextBuffer.Matching.{replace_other, replace_own}
use caliper.ContextBuffer.Insert.{Updated, Stored, Stored-get, Stored-once, resize}

length-erase {ℓ} :
    {A : Type ℓ} (xs : List A) (i : ℕ) → i < length xs → length (erase xs i) ≡ length xs - 1
length-erase [] i h = absurd (omega arith)
length-erase (x ∷ xs) zero h = omega arith
length-erase (x ∷ xs) (suc i) h = omega (arith, length-erase xs i)

erase_counted {ℓ} :
    {A : Type ℓ} (xs : List A) (i n : ℕ)
    → length xs ≡ n
    → length (if ltb i (length xs) then erase xs i else xs) ≡ (if ltb i n then n - 1 else n)
erase_counted xs i n h = elim (Bool-cases (ltb i (length xs))) [
  | inl e ↦
      let t : ltb i n ≡ true = subst (λ (x : ℕ). ltb i x ≡ true) h e in
      rw (e, t) (length-erase xs i (ground arith) ∙ ap (λ (x : ℕ). x - 1) h)
  | inr e ↦ let t : ltb i n ≡ false = subst (λ (x : ℕ). ltb i x ≡ false) h e in rw (e, t) h
]

module _ (attrs : ℕ → Attr) where
  -- What `remove` leaves behind.
  abbrev Removed : ContextBuffer → ContextBuffer → ℕ → Type 0
  Removed b b' k = IsContext attrs b' × Stored b b' k []

  remove_at :
      (b : ContextBuffer) (k i : ℕ)
      → IsContext attrs b
      → Located attrs b.slots b.num_nodes b.num_hidden k i
      → Removed b (remove b (some i)) k
  remove_at b k i c l =
      let s = l.at in
      let whole : erase b.slots i ≡ s.before ++ s.behind =
        ap (λ (t : List Slot). erase t i) s.layout
        ∙ erase-append s.before s.slot s.behind i s.place in
      let stored : Stored b (remove b (some i)) k [] = record {
        own = ap (matching k) whole ∙ replace_own k i s [] (c.once k) tt;
        others = λ k' h. ap (matching k') whole ∙ replace_other k i k' s [] h tt;
      } in
      (
        record {
          regions =
              subst
                (λ (t : List Slot).
                  Regions attrs t (remove b (some i)).num_nodes (remove b (some i)).num_hidden)
                (sym whole) (resize attrs (l.replaced [] tt) (ground arith) (ground arith));
          once = Stored-once stored (omega arith) c.once;
          nodes_counted = erase_counted b.nodes i b.num_nodes c.nodes_counted;
        },
        stored,
      )

  removed :
      (b : ContextBuffer) (k : ℕ) → IsContext attrs b → Removed b (remove b (find k b.slots)) k
  removed b k c = elim (Option-cases (find k b.slots)) [
    | inl e ↦ rw e (c, record { own = find-none k b.slots e; others = λ k' h. refl })
    | inr (i, e) ↦ rw e (remove_at b k i c (locate attrs k i c.regions e))
  ]

  -- `unset` keeps a blackboard well formed; `get` then gives the empty value for the attribute and
  -- the old ones for all others.
  pub get-unset :
      (b : ContextBuffer) (a : Attr)
      → IsContext attrs b
      → IsContext attrs (unset b a) × Updated b (unset b a) a.id empty_variant
  unfolding unset
  get-unset b a c = let (good, stored) = removed b a.id c in (good, Stored-get stored)
