-- ===== src/Graph/Ring.antt =====
-- src/graph/snapshot.rs: what the ring keeps, and what a rollback finds.
use dex_arbitrage.Prelude.{
  ℕ, ◌≤◌, ◌≡◌, refl, arith, Bool, true, false, Option, none, some, List, [], ◌∷◌, ◌++◌, ltb,
  if◌then◌else◌, length, length-append, All, inl, inr, Bool-cases, ap, ◌∙◌, min, sym,
}
use dex_arbitrage.Graph.{GraphSnapshot}
use dex_arbitrage.Graph.Store.{
  GraphStore, drop_front, publish, not_after, find_last, rollback_to_block,
}

-- The newest entries of a list, at most `max` of them.
pub record Newest (max : ℕ) (before after : List GraphSnapshot) : Type 0 where
  pub dropped : List GraphSnapshot
  pub parts : dropped ++ after ≡ before
  pub size : length after ≡ min (length before) max

drop_front-Newest : (max : ℕ) (ring : List GraphSnapshot) → Newest max ring (drop_front max ring)
unfolding drop_front
drop_front-Newest max [] = record { dropped = []; parts = refl; size = omega arith }
drop_front-Newest max (oldest ∷ ring) =
    let ih = drop_front-Newest max ring in
    elim (Bool-cases (ltb max (length (oldest ∷ ring)))) [
      | inl e ↦ record {
        dropped = oldest ∷ ih.dropped;
        parts = rw (drop_front, e) (ap (λ xs. oldest ∷ xs) ih.parts);
        size = rw (drop_front, e) (ih.size ∙ ground arith);
      }
      | inr e ↦ record {
        dropped = [];
        parts = rw (drop_front, e) refl;
        size = rw (drop_front, e) (ground arith);
      }
    ]

-- The snapshots of a series of publications.
unfoldable pub publish_all : GraphStore → List GraphSnapshot → GraphStore
publish_all s [] = s
publish_all s (g ∷ gs) = publish_all (publish s g) gs

publish-max : (s : GraphStore) (g : GraphSnapshot) → (publish s g).max_snapshots ≡ s.max_snapshots
unfolding publish
publish-max s g = refl

publish-Newest :
    (s : GraphStore) (g : GraphSnapshot)
    → Newest s.max_snapshots (s.ring ++ g ∷ []) (publish s g).ring
unfolding publish
publish-Newest s g = drop_front-Newest s.max_snapshots (s.ring ++ g ∷ [])

publish-bound :
    (s : GraphStore) (g : GraphSnapshot) → length (publish s g).ring ≤ (publish s g).max_snapshots
publish-bound s g = omega (arith, (publish-Newest s g).size, publish-max s g)

append_assoc : (xs ys zs : List GraphSnapshot) → (xs ++ ys) ++ zs ≡ xs ++ (ys ++ zs)
append_assoc [] ys zs = refl
append_assoc (x ∷ xs) ys zs = ap (λ ws. x ∷ ws) (append_assoc xs ys zs)

append_none : (xs : List GraphSnapshot) → xs ++ [] ≡ xs
append_none [] = refl
append_none (x ∷ xs) = ap (λ ws. x ∷ ws) (append_none xs)

-- However many snapshots are published, the ring of a store within its bound holds the newest of
-- those that it had and those published, in their order, as many as the bound allows.
pub publish_all-Newest :
    (s : GraphStore) (gs : List GraphSnapshot)
    → length s.ring ≤ s.max_snapshots
    → Newest s.max_snapshots (s.ring ++ gs) (publish_all s gs).ring
unfolding publish_all
publish_all-Newest s [] h = record {
  dropped = [];
  parts = sym (append_none s.ring);
  size = omega (arith, h, length-append s.ring []);
}
publish_all-Newest s (g ∷ gs) h =
    let first = publish-Newest s g in
    let rest = publish_all-Newest (publish s g) gs (publish-bound s g) in
    record {
      dropped = first.dropped ++ rest.dropped;
      parts =
          append_assoc first.dropped rest.dropped (publish_all (publish s g) gs).ring
          ∙ ap (λ ws. first.dropped ++ ws) rest.parts
          ∙ sym (append_assoc first.dropped (publish s g).ring gs)
          ∙ ap (λ ws. ws ++ gs) first.parts
          ∙ append_assoc s.ring (g ∷ []) gs;
      size = omega (
        arith,
        rest.size,
        first.size,
        publish-max s g,
        length-append (publish s g).ring gs,
        length-append s.ring (g ∷ []),
        length-append s.ring (g ∷ gs),
      );
    }

-- What a rollback to a block gives: the newest snapshot of the ring that is not after the block, or
-- nothing and no change where there is none.
pub data Restored (s : GraphStore) (block_number : ℕ)
    : GraphStore × Option GraphSnapshot → Type 0 where
  back :
      (older newer : List GraphSnapshot) (g : GraphSnapshot)
      → s.ring ≡ older ++ g ∷ newer
      → not_after block_number g ≡ true
      → All (λ x. not_after block_number x ≡ false) newer
      → Restored s block_number (record s { current = g }, some g)
  nothing : All (λ x. not_after block_number x ≡ false) s.ring → Restored s block_number (s, none)

-- Where a test holds for the last time.
pub data Last (test : GraphSnapshot → Bool) (xs : List GraphSnapshot)
    : Option GraphSnapshot → Type 0 where
  at :
      (older newer : List GraphSnapshot) (g : GraphSnapshot)
      → xs ≡ older ++ g ∷ newer
      → test g ≡ true
      → All (λ x. test x ≡ false) newer
      → Last test xs (some g)
  nowhere : All (λ x. test x ≡ false) xs → Last test xs none

find_last-Last :
    (test : GraphSnapshot → Bool) (xs : List GraphSnapshot) → Last test xs (find_last test xs)
unfolding find_last
find_last-Last test [] = nowhere tt
find_last-Last test (x ∷ xs) = step (find_last test xs) (find_last-Last test xs)
  where
    step :
        (r : Option GraphSnapshot)
        → Last test xs r
        → Last test (x ∷ xs) (elim r [ some y ↦ some y | none ↦ if test x then some x else none ])
    step _ (at older newer g e t all) = at (x ∷ older) newer g (ap (λ ys. x ∷ ys) e) t all
    step _ (nowhere all) = elim (Bool-cases (test x)) [
      | inl e ↦ rw e (at [] xs x refl e all)
      | inr e ↦ rw e (nowhere (e, all))
    ]

-- A rollback to a block makes current, and returns, the newest snapshot of the ring whose block is
-- known and not after that block: those behind it in the ring are all after it or of no known block.
-- Where there is none, the store is as before.
pub rollback_to_block-Restored :
    (s : GraphStore) (block_number : ℕ) → Restored s block_number (rollback_to_block s block_number)
unfolding rollback_to_block
rollback_to_block-Restored s n =
    from_last (find_last (not_after n) s.ring) refl (find_last-Last (not_after n) s.ring)
  where
    from_last :
        (r : Option GraphSnapshot)
        → find_last (not_after n) s.ring ≡ r
        → Last (not_after n) s.ring r
        → Restored s n (rollback_to_block s n)
    from_last _ q (at older newer g e t all) =
        rw (rollback_to_block, q) (back older newer g e t all)
    from_last _ q (nowhere all) = rw (rollback_to_block, q) (nothing all)
