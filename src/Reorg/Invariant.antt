-- ===== src/Reorg/Invariant.antt =====
-- src/reorg/mod.rs: the invariant of the detector, and that pruning and appending keep it.
use dex_arbitrage.Prelude.{
  ℕ, zero, suc, ◌+◌, ◌≤◌, ◌<◌, ◌≡◌, refl, some, List, ◌∷◌, ltb, length, take, take-all, arith, inl,
  inr, Bool-cases, u64_max, ◌∙◌, sym,
}
use dex_arbitrage.Prelude.Map.{lookup, remove}
use dex_arbitrage.Reorg.{
  BlockHistoryEntry, ReorgDetector, new, prune, append_block, pop_front, max_block_history,
}
use dex_arbitrage.Reorg.Chain.{
  at, at_above, Falling, Popped, pop_front-Popped, pop_front-total, take-pop_front,
}
use dex_arbitrage.Reorg.Agrees.{Agrees, drop-Agrees, push-Agrees}

-- Newest first the numbers fall, below 2 ^ 64 - 1, and the maps agree with the chain.
pub record IsIndexed (d : ReorgDetector) : Type 0 where
  pub falling : Falling u64_max d.chain
  pub agrees : Agrees d.chain d.block_by_hash d.block_by_number

-- Between calls the chain is also no longer than its limit.
pub record IsValid (d : ReorgDetector) : Type 0 where
  pub indexed : IsIndexed d
  pub short : length d.chain ≤ max_block_history

pub new-IsValid : IsValid new
unfolding new at lookup
new-IsValid = record {
  indexed = record {
    falling = tt;
    agrees = record { indexed = λ n. refl; hashes = λ h n l. absurd (ground arith) };
  };
  short = omega arith;
}

abbrev pub popped : ReorgDetector → List BlockHistoryEntry → BlockHistoryEntry → ReorgDetector
popped d rest old = record {
  chain = rest;
  block_by_hash = remove old.hash d.block_by_hash;
  block_by_number = remove old.number d.block_by_number;
}

popped-IsIndexed :
    (d : ReorgDetector) (rest : List BlockHistoryEntry) (old : BlockHistoryEntry)
    → IsIndexed d
    → Popped u64_max d.chain rest old
    → IsIndexed (popped d rest old)
popped-IsIndexed d rest old v p = record {
  falling = p.falling;
  agrees = drop-Agrees old p.found p.others v.agrees;
}

-- What the pruning loop leaves: the newest entries, up to the limit.
pub record Pruned (d e : ReorgDetector) : Type 0 where
  pub indexed : IsIndexed e
  pub kept : e.chain ≡ take max_block_history d.chain
  pub short : length e.chain ≤ max_block_history

prune-stop :
    (rounds : ℕ) (d : ReorgDetector) → length d.chain ≤ max_block_history → prune rounds d ≡ d
unfolding prune
prune-stop zero d h = refl
prune-stop (suc rounds) d h = ground arith

prune-step :
    (rounds : ℕ) (d : ReorgDetector) (rest : List BlockHistoryEntry) (old : BlockHistoryEntry)
    → max_block_history < length d.chain
    → pop_front d.chain ≡ some (rest, old)
    → prune (suc rounds) d ≡ prune rounds (popped d rest old)
unfolding prune
prune-step rounds d rest old h q = ground arith

pub prune-Pruned :
    (rounds : ℕ) (d : ReorgDetector)
    → IsIndexed d
    → length d.chain ≤ max_block_history + rounds
    → Pruned d (prune rounds d)
prune-Pruned zero d v h = rw (prune-stop zero d (omega arith)) (record {
  indexed = v;
  kept = sym (take-all max_block_history d.chain (omega arith));
  short = omega arith;
})
prune-Pruned (suc rounds) d v h = elim (Bool-cases (ltb max_block_history (length d.chain))) [
  | inl e ↦
      let (r, o, q) = pop_front-total d.chain (ground arith) in
      let p = pop_front-Popped u64_max d.chain r o v.falling q in
      let ih =
        prune-Pruned rounds (popped d r o) (popped-IsIndexed d r o v p)
          (omega (arith, p.shorter)) in
      rw (prune-step rounds d r o (ground arith) q) (record {
        indexed = ih.indexed;
        kept = ih.kept ∙ take-pop_front max_block_history d.chain r o q (ground arith);
        short = ih.short;
      })
  | inr e ↦
      let small : length d.chain ≤ max_block_history = ground arith in
      rw (prune-stop (suc rounds) d small) (record {
        indexed = v;
        kept = sym (take-all max_block_history d.chain small);
        short = small;
      })
]

-- The new tip, on what is left of the chain.
pub record Appended (d : ReorgDetector) (entry : BlockHistoryEntry) (e : ReorgDetector)
    : Type 0 where
  pub valid : IsValid e
  pub kept : e.chain ≡ take max_block_history (entry ∷ d.chain)

pub append_block-Appended :
    (d : ReorgDetector) (entry : BlockHistoryEntry)
    → IsValid d
    → entry.number < u64_max
    → Falling entry.number d.chain
    → Appended d entry (append_block d entry)
unfolding append_block
append_block-Appended d entry v small above =
    let fresh = at_above entry.number entry.number d.chain above (omega arith) in
    let p =
      prune-Pruned (length d.chain + 1) _
        (record { falling = (small, above); agrees = push-Agrees entry fresh v.indexed.agrees })
        (omega (arith, v.short)) in
    record { valid = record { indexed = p.indexed; short = p.short }; kept = p.kept }
