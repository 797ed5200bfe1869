-- ===== src/Reorg/Agrees.antt =====
-- src/reorg/mod.rs: what the two maps say of the chain, and that pushing and popping an entry keeps
-- it so.
use dex_arbitrage.Prelude.{
  ℕ, ◌≡◌, false, none, some, List, ◌∷◌, ◌==◌, if◌then◌else◌, arith, inl, inr, Bool-cases,
}
use dex_arbitrage.Prelude.Map.{Map, lookup, insert, remove, lookup-insert, lookup-remove}
use dex_arbitrage.Reorg.{BlockHistoryEntry}
use dex_arbitrage.Reorg.Chain.{at, at_above, Falling}

-- The chain holds an entry with this number and this hash.
pub record Holds (chain : List BlockHistoryEntry) (hash number : ℕ) : Type 0 where
  pub entry : BlockHistoryEntry
  pub placed : at number chain ≡ some entry
  pub hashed : entry.hash ≡ hash

-- The map by number is the chain; the map by hash leads to entries of the chain with that hash.
pub record Agrees (chain : List BlockHistoryEntry) (by_hash : Map ℕ)
    (by_number : Map BlockHistoryEntry) : Type 0 where
  pub indexed : (n : ℕ) → lookup n by_number ≡ at n chain
  pub hashes : (h n : ℕ) → lookup h by_hash ≡ some n → Holds chain h n

-- The chain without the entry numbered `old.number`.
abbrev pub Drops : BlockHistoryEntry → List BlockHistoryEntry → List BlockHistoryEntry → Type 0
Drops old chain rest = (n : ℕ) → at n rest ≡ (if old.number == n then none else at n chain)

module _ {chain rest : List BlockHistoryEntry} (old : BlockHistoryEntry) where
  drop-Holds :
      (h n : ℕ)
      → at old.number chain ≡ some old
      → Drops old chain rest
      → (old.hash == h) ≡ false
      → Holds chain h n
      → Holds rest h n
  drop-Holds h n found others ne held = record {
    entry = held.entry;
    placed = elim (Bool-cases (old.number == n)) [
      | inl e ↦ absurd (ground (arith, found, held.placed, held.hashed))
      | inr e ↦ rw (others n, e) held.placed
    ];
    hashed = held.hashed;
  }

  pub drop-Agrees :
      {by_hash : Map ℕ} {by_number : Map BlockHistoryEntry}
      → at old.number chain ≡ some old
      → Drops old chain rest
      → Agrees chain by_hash by_number
      → Agrees rest (remove old.hash by_hash) (remove old.number by_number)
  drop-Agrees {by_hash} {by_number} found others a = record {
    indexed = λ n. ground (arith, lookup-remove old.number n by_number, others n, a.indexed n);
    hashes = λ h n l. elim (Bool-cases (old.hash == h)) [
      | inl e ↦ absurd (ground (arith, lookup-remove old.hash h by_hash))
      | inr e ↦
          drop-Holds h n found others e
            (a.hashes h n (ground (arith, lookup-remove old.hash h by_hash)))
    ];
  }

push-Holds :
    {chain : List BlockHistoryEntry} (e : BlockHistoryEntry) (h n : ℕ)
    → at e.number chain ≡ none
    → Holds chain h n
    → Holds (e ∷ chain) h n
unfolding at
push-Holds e h n fresh held = record {
  entry = held.entry;
  placed = ground (arith, held.placed);
  hashed = held.hashed;
}

-- A fresh number may be pushed; an older entry with the same hash is then found by number only.
pub push-Agrees :
    {chain : List BlockHistoryEntry} {by_hash : Map ℕ} {by_number : Map BlockHistoryEntry}
    (e : BlockHistoryEntry)
    → at e.number chain ≡ none
    → Agrees chain by_hash by_number
    → Agrees (e ∷ chain) (insert e.hash e.number by_hash) (insert e.number e by_number)
unfolding at
push-Agrees {chain} {by_hash} {by_number} e fresh a = record {
  indexed = λ n. ground (arith, lookup-insert e.number n e by_number, a.indexed n);
  hashes = λ h n l. elim (Bool-cases (e.hash == h)) [
    | inl q ↦ record {
      entry = e;
      placed = ground (arith, lookup-insert e.hash h e.number by_hash);
      hashed = ground arith;
    }
    | inr q ↦
        push-Holds e h n fresh
          (a.hashes h n (ground (arith, lookup-insert e.hash h e.number by_hash)))
  ];
}

-- Popping the tip.
pub at_tip :
    (tip : BlockHistoryEntry) (rest : List BlockHistoryEntry)
    → at tip.number (tip ∷ rest) ≡ some tip
unfolding at
at_tip tip rest = ground arith

pub tip-Drops :
    (tip : BlockHistoryEntry) (rest : List BlockHistoryEntry)
    → Falling tip.number rest
    → Drops tip (tip ∷ rest) rest
unfolding at
tip-Drops tip rest f n = ground (arith, at_above n tip.number rest f)

pub pop-Agrees :
    {by_hash : Map ℕ} {by_number : Map BlockHistoryEntry} (tip : BlockHistoryEntry)
    (rest : List BlockHistoryEntry)
    → Falling tip.number rest
    → Agrees (tip ∷ rest) by_hash by_number
    → Agrees rest (remove tip.hash by_hash) (remove tip.number by_number)
pop-Agrees tip rest f a = drop-Agrees tip (at_tip tip rest) (tip-Drops tip rest f) a
