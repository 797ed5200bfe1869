-- ===== src/Reorg/Rollback.antt =====
-- src/reorg/mod.rs, `rollback_to_block`, `get_by_hash` and `get_by_number`.
use dex_arbitrage.Prelude.{
  ℕ, ◌≡◌, true, false, Bool, none, some, List, [], ◌∷◌, leb, if◌then◌else◌, arith, inl, inr,
  Bool-cases, Option-cases, ◌∙◌, sym, ap, subst,
}
use dex_arbitrage.Prelude.Map.{Map, lookup, remove}
use dex_arbitrage.Reorg.{
  BlockHistoryEntry, ReorgDetector, pop_until, rollback_to_block, get_by_hash, get_by_number,
}
use dex_arbitrage.Reorg.Chain.{at, at_above, Falling, Falling-mono}
use dex_arbitrage.Reorg.Agrees.{pop-Agrees}
use dex_arbitrage.Reorg.Invariant.{IsValid}

-- What popping down to the block `n` leaves of the chain `es`.
pub record RolledBack (n : ℕ) (es : List BlockHistoryEntry) (d : ReorgDetector) : Type 0 where
  pub valid : IsValid d
  pub kept : (m : ℕ) → at m d.chain ≡ (if leb m n then at m es else none)

abbrev reaches : ℕ → BlockHistoryEntry → Bool
reaches n = λ tip. leb tip.number n

module _ (n : ℕ) where
  stay-kept :
      (tip : BlockHistoryEntry) (rest : List BlockHistoryEntry)
      → Falling tip.number rest
      → leb tip.number n ≡ true
      → (m : ℕ) → at m (tip ∷ rest) ≡ (if leb m n then at m (tip ∷ rest) else none)
  unfolding at
  stay-kept tip rest f h m = ground (arith, at_above m tip.number rest f)

  pop-kept :
      (tip : BlockHistoryEntry) (rest left : List BlockHistoryEntry)
      → leb tip.number n ≡ false
      → ((m : ℕ) → at m left ≡ (if leb m n then at m rest else none))
      → (m : ℕ) → at m left ≡ (if leb m n then at m (tip ∷ rest) else none)
  unfolding at
  pop-kept tip rest left h k m = ground (arith, k m)

  pop_until-RolledBack :
      (es : List BlockHistoryEntry) (by_hash : Map ℕ) (by_number : Map BlockHistoryEntry)
      → IsValid (record { chain = es; block_by_hash = by_hash; block_by_number = by_number })
      → RolledBack n es (pop_until (reaches n) es by_hash by_number)
  unfolding pop_until
  pop_until-RolledBack [] by_hash by_number v = record {
    valid = v;
    kept = unfold at in λ m. ground arith;
  }
  pop_until-RolledBack (tip ∷ rest) by_hash by_number v = elim (Bool-cases (leb tip.number n)) [
    | inl h ↦
        rw (h, pop_until) (record { valid = v; kept = stay-kept tip rest v.indexed.falling.1 h })
    | inr h ↦
        let (under, f) = v.indexed.falling in
        let r =
          pop_until-RolledBack rest (remove tip.hash by_hash) (remove tip.number by_number)
            (record {
              indexed = record {
                falling = Falling-mono rest (omega arith) f;
                agrees = pop-Agrees tip rest f v.indexed.agrees;
              };
              short = omega (arith, v.short);
            }) in
        rw (h, pop_until) (record { valid = r.valid; kept = pop-kept tip rest _ h r.kept })
  ]

-- Rolling a valid detector back to a block leaves a valid detector whose chain has the same entry as
-- before at each number up to that block's, and none above it.
pub rollback_to_block-RolledBack :
    (d : ReorgDetector) (n : ℕ) → IsValid d → RolledBack n d.chain (rollback_to_block d n)
unfolding rollback_to_block
rollback_to_block-RolledBack d n v =
    pop_until-RolledBack n d.chain d.block_by_hash d.block_by_number v

at-number :
    (m : ℕ) (es : List BlockHistoryEntry) (e : BlockHistoryEntry) → at m es ≡ some e → e.number ≡ m
unfolding at
at-number m [] e h = cc
at-number m (x ∷ es) e h = ground (arith, at-number m es e)

-- In a valid detector an entry that `get_by_hash` finds has that hash, and the chain and
-- `get_by_number` have that same entry at its number.
pub get_by_hash-get_by_number :
    (d : ReorgDetector) (h : ℕ) (e : BlockHistoryEntry)
    → IsValid d
    → get_by_hash d h ≡ some e
    → (e.hash ≡ h) × (at e.number d.chain ≡ some e) × (get_by_number d e.number ≡ some e)
unfolding get_by_number get_by_hash
get_by_hash-get_by_number d h e v q = elim (Option-cases (lookup h d.block_by_hash)) [
  | inl l ↦ absurd (ground arith)
  | inr (m, l) ↦
      let held = v.indexed.agrees.hashes h m l in
      let same : held.entry ≡ e = ground (arith, held.placed, v.indexed.agrees.indexed m) in
      let there : at m d.chain ≡ some e = held.placed ∙ ap some same in
      let here : at e.number d.chain ≡ some e =
        subst (λ z. at z d.chain ≡ some e) (sym (at-number m d.chain e there)) there in
      (
        ap (λ (x : BlockHistoryEntry). x.hash) (sym same) ∙ held.hashed,
        here,
        v.indexed.agrees.indexed e.number ∙ here,
      )
]
