-- ===== src/Reorg/Chain.antt =====
-- The chain of src/reorg/mod.rs by itself: lookup by number, and what popping at either end does.
use dex_arbitrage.Prelude.{
  ℕ, suc, ◌≤◌, ◌<◌, ◌≡◌, refl, Option, none, some, List, [], ◌∷◌, ◌==◌, if◌then◌else◌, length,
  arith, Option-cases, inl, inr, ◌≢◌, sym, ◌∙◌, take, zero, subst, ap,
}
use mathlib.Core.Path.{subst₂}
use dex_arbitrage.Reorg.{BlockHistoryEntry, pop_front}

-- What `pop_front` gives.
abbrev Front : Type 0
Front = Option (List BlockHistoryEntry × BlockHistoryEntry)

unfoldable pub at : ℕ → List BlockHistoryEntry → Option BlockHistoryEntry
at n [] = none
at n (e ∷ es) = if e.number == n then some e else at n es

-- Newest first, the numbers fall, and stay under the bound.
abbrev pub Falling : ℕ → List BlockHistoryEntry → Type 0
Falling bound [] = Unit
Falling bound (e ∷ es) = (e.number < bound) × Falling e.number es

pub Falling-mono : {m n : ℕ} (es : List BlockHistoryEntry) → m ≤ n → Falling m es → Falling n es
Falling-mono [] h f = tt
Falling-mono (e ∷ es) h f = (omega arith, f.1)

pub at_above :
    (n bound : ℕ) (es : List BlockHistoryEntry) → Falling bound es → bound ≤ n → at n es ≡ none
unfolding at
at_above n bound [] f h = refl
at_above n bound (e ∷ es) f h = ground (arith, at_above n e.number es f.1)

-- What is left and what was popped, at the front of the deque.
pub record Popped (bound : ℕ) (es rest : List BlockHistoryEntry) (old : BlockHistoryEntry)
    : Type 0 where
  pub falling : Falling bound rest
  pub found : at old.number es ≡ some old
  pub others : (n : ℕ) → at n rest ≡ (if old.number == n then none else at n es)
  pub shorter : length es ≡ suc (length rest)
  pub low : (n : ℕ) → n < old.number → at n es ≡ none
  pub under : old.number < bound

Popped-one : (bound : ℕ) (e : BlockHistoryEntry) → e.number < bound → Popped bound (e ∷ []) [] e
unfolding at
Popped-one bound e h = record {
  falling = tt;
  found = ground arith;
  others = λ n. ground arith;
  shorter = omega arith;
  low = λ n l. ground arith;
  under = h;
}

Popped-cons :
    (bound : ℕ) (e : BlockHistoryEntry) (es rest : List BlockHistoryEntry) (old : BlockHistoryEntry)
    → e.number < bound
    → Popped e.number es rest old
    → Popped bound (e ∷ es) (e ∷ rest) old
unfolding at
Popped-cons bound e es rest old h p = record {
  falling = (h, p.falling);
  found = ground (arith, p.found, p.under);
  others = λ n. ground (arith, p.others n, p.under);
  shorter = omega (arith, p.shorter);
  low = λ n l. ground (arith, p.low n l, p.under);
  under = omega (arith, p.under);
}

pop_front-cons-ne-none :
    (e : BlockHistoryEntry) (es : List BlockHistoryEntry) → pop_front (e ∷ es) ≢ none
unfolding pop_front
pop_front-cons-ne-none e es h = ground arith

pop_front-cons :
    (e : BlockHistoryEntry) (es r : List BlockHistoryEntry) (o : BlockHistoryEntry)
    → pop_front es ≡ some (r, o)
    → pop_front (e ∷ es) ≡ some (e ∷ r, o)
unfolding pop_front
pop_front-cons e es r o q = ground arith

pub pop_front-Popped :
    (bound : ℕ) (es rest : List BlockHistoryEntry) (old : BlockHistoryEntry)
    → Falling bound es
    → pop_front es ≡ some (rest, old)
    → Popped bound es rest old
pop_front-Popped bound [] rest old f h = unfold pop_front in cc
pop_front-Popped bound (e ∷ []) rest old f h = go (unfold pop_front in h)
  where
    go : ◌≡◌ {A = Front} (some ([], e)) (some (rest, old)) → Popped bound (e ∷ []) rest old
    go q = subst₂ (Popped bound (e ∷ [])) (cc) (cc) (Popped-one bound e f.0)
pop_front-Popped bound (e ∷ e' ∷ es) rest old f h = elim (Option-cases (pop_front (e' ∷ es))) [
  | inl q ↦ absurd (pop_front-cons-ne-none e' es q)
  | inr ((r, o), q) ↦
      let h' : ◌≡◌ {A = Front} (some (e ∷ r, o)) (some (rest, old)) =
        sym (pop_front-cons e (e' ∷ es) r o q) ∙ h in
      subst₂ (Popped bound (e ∷ e' ∷ es)) (cc) (cc)
        (Popped-cons bound e (e' ∷ es) r o f.0 (pop_front-Popped e.number (e' ∷ es) r o f.1 q))
]

pub pop_front-total :
    (es : List BlockHistoryEntry)
    → 0 < length es
    → (r : List BlockHistoryEntry) × (o : BlockHistoryEntry) × (pop_front es ≡ some (r, o))
pop_front-total [] h = absurd (omega arith)
pop_front-total (e ∷ es) h = elim (Option-cases (pop_front (e ∷ es))) [
  | inl q ↦ absurd (pop_front-cons-ne-none e es q)
  | inr ((r, o), q) ↦ (r, o, q)
]

-- What stays after `pop_front` begins as before.
pub take-pop_front :
    (k : ℕ) (es r : List BlockHistoryEntry) (o : BlockHistoryEntry)
    → pop_front es ≡ some (r, o)
    → k < length es
    → take k r ≡ take k es
take-pop_front zero es r o h l = refl
take-pop_front (suc k) [] r o h l = absurd (omega arith)
take-pop_front (suc k) (e ∷ []) r o h l = absurd (omega arith)
take-pop_front (suc k) (e ∷ e' ∷ es) r o h l = elim (Option-cases (pop_front (e' ∷ es))) [
  | inl q ↦ absurd (pop_front-cons-ne-none e' es q)
  | inr ((r', o'), q) ↦
      let h' : ◌≡◌ {A = Front} (some (e ∷ r', o')) (some (r, o)) =
        sym (pop_front-cons e (e' ∷ es) r' o' q) ∙ h in
      let ih : take k r' ≡ take k (e' ∷ es) = take-pop_front k (e' ∷ es) r' o' q (omega arith) in
      let eq : e ∷ r' ≡ r = cc in
      subst (λ z. take (suc k) z ≡ e ∷ take k (e' ∷ es)) eq (ap (◌∷◌ e) ih)
]
