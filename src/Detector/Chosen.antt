-- ===== src/Detector/Chosen.antt =====
-- src/detector/path_finder.rs: the keys of the chosen candidates and how often they occur.
use Prim.Native.String.{String}
use text.Mathlib.TextEquality.{eq_iff}
use dex_arbitrage.Prelude.{
  ℕ, suc, ◌+◌, ◌≤◌, ◌<◌, ◌≡◌, refl, subst, arith, true, false, some, List, [], ◌∷◌, ◌++◌,
  Bool-cases, inl, inr, if◌then◌else◌,
}
use dex_arbitrage.Detector.Candidate.{CandidatePath, same_text, has_text}
use dex_arbitrage.Detector.Select.{TextMap, lookup_text, insert_text, count_of}

-- How many of the candidates have the key.
abbrev pub occurrences : (CandidatePath → String) → String → List CandidatePath → ℕ
occurrences key k [] = 0
occurrences key k (c ∷ cs) = (if same_text (key c) k then 1 else 0) + occurrences key k cs

occurrences-snoc :
    (key : CandidatePath → String) (k : String) (cs : List CandidatePath) (c : CandidatePath)
    → occurrences key k (cs ++ c ∷ [])
      ≡ occurrences key k cs + (if same_text (key c) k then 1 else 0)
occurrences-snoc key k [] c = omega arith
occurrences-snoc key k (x ∷ cs) c = omega (arith, occurrences-snoc key k cs c)

lookup_text-insert_text :
    {V : Type 0} (key other : String) (value : V) (m : TextMap V)
    → lookup_text other (insert_text key value m)
      ≡ (if same_text key other then some value else lookup_text other m)
unfolding lookup_text insert_text
lookup_text-insert_text key other value [] = refl
lookup_text-insert_text key other value ((first, old) ∷ rest) = ground (
  arith,
  eq_iff key other,
  eq_iff first key,
  eq_iff first other,
  lookup_text-insert_text key other value rest,
)

count-insert :
    (key other : String) (n : ℕ) (m : TextMap ℕ)
    → count_of other (insert_text key n m) ≡ (if same_text key other then n else count_of other m)
count-insert key other n m = ground (arith, lookup_text-insert_text key other n m)

count_same :
    (key other : String) (m : TextMap ℕ)
    → same_text key other ≡ true
    → count_of key m ≡ count_of other m
count_same key other m h = let e : key ≡ other = ground (arith, eq_iff key other) in rw e refl

-- A count that is kept of a key, and its bound.
pub record Counted (key : CandidatePath → String) (bound : ℕ) (counts : TextMap ℕ)
    (selected : List CandidatePath) : Type 0 where
  pub exact : (k : String) → count_of k counts ≡ occurrences key k selected
  pub bounded : (k : String) → occurrences key k selected ≤ bound

pub Counted-snoc :
    (key : CandidatePath → String) (bound : ℕ) (counts : TextMap ℕ) (selected : List CandidatePath)
    (c : CandidatePath)
    → Counted key bound counts selected
    → count_of (key c) counts < bound
    → Counted key bound
        (insert_text (key c) (suc (count_of (key c) counts)) counts)
        (selected ++ c ∷ [])
Counted-snoc key bound counts selected c i h = record { exact = exact'; bounded = bounded' }
  where
    exact' :
        (k : String)
        → count_of k (insert_text (key c) (suc (count_of (key c) counts)) counts)
          ≡ occurrences key k (selected ++ c ∷ [])
    exact' k = elim (Bool-cases (same_text (key c) k)) [
      | inl e ↦
          rw
            (
              count-insert (key c) k (suc (count_of (key c) counts)) counts,
              occurrences-snoc key k selected c,
              e,
            )
            (omega (arith, count_same (key c) k counts e, i.exact k))
      | inr e ↦
          rw
            (
              count-insert (key c) k (suc (count_of (key c) counts)) counts,
              occurrences-snoc key k selected c,
              e,
            )
            (omega (arith, i.exact k))
    ]

    bounded' : (k : String) → occurrences key k (selected ++ c ∷ []) ≤ bound
    bounded' k = elim (Bool-cases (same_text (key c) k)) [
      | inl e ↦
          rw (occurrences-snoc key k selected c, e)
            (omega (arith, count_same (key c) k counts e, i.exact k))
      | inr e ↦ rw (occurrences-snoc key k selected c, e) (omega (arith, i.bounded k))
    ]

-- A set of keys with those of the candidates among it, each of them once.
pub record Once (key : CandidatePath → String) (keys : List String) (selected : List CandidatePath)
    : Type 0 where
  pub absent : (k : String) → has_text keys k ≡ false → occurrences key k selected ≡ 0
  pub single : (k : String) → occurrences key k selected ≤ 1

pub Once-cons :
    (key : CandidatePath → String) (keys : List String) (k : String) (selected : List CandidatePath)
    → Once key keys selected
    → Once key (k ∷ keys) selected
unfolding has_text
Once-cons key keys k selected o = record {
  absent = λ j h. o.absent j (ground arith);
  single = o.single;
}

pub Once-snoc :
    (key : CandidatePath → String) (keys : List String) (selected : List CandidatePath)
    (c : CandidatePath)
    → Once key keys selected
    → has_text keys (key c) ≡ false
    → Once key (key c ∷ keys) (selected ++ c ∷ [])
unfolding has_text
Once-snoc key keys selected c o h = record { absent = absent'; single = single' }
  where
    absent' :
        (k : String)
        → has_text (key c ∷ keys) k ≡ false
        → occurrences key k (selected ++ c ∷ []) ≡ 0
    absent' k n =
        let e : same_text (key c) k ≡ false = ground arith in
        rw (occurrences-snoc key k selected c, e) (omega (arith, o.absent k (ground arith)))

    single' : (k : String) → occurrences key k (selected ++ c ∷ []) ≤ 1
    single' k = elim (Bool-cases (same_text (key c) k)) [
      | inl e ↦
          let same : key c ≡ k = ground (arith, eq_iff (key c) k) in
          rw (occurrences-snoc key k selected c, e)
            (omega (arith, o.absent k (subst (λ x. has_text keys x ≡ false) same h)))
      | inr e ↦ rw (occurrences-snoc key k selected c, e) (omega (arith, o.single k))
    ]
