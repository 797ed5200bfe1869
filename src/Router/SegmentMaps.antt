-- ===== src/Router/SegmentMaps.antt =====
-- src/router/exact_quoter.rs: the map of the segments, and the eviction of the oldest ones.
use dex_arbitrage.Prelude.{
  ℕ, zero, suc, ◌≤◌, ◌<◌, ◌≡◌, refl, subst, arith, ap, ◌==◌, leb, none, some, [], ◌∷◌, length, min,
  All, Any, Bool-cases, Option-cases, inl, inr,
}
use dex_arbitrage.Prelude.Map.{Map, lookup, insert, remove, lookup-remove}
use dex_arbitrage.Router.QuoteCache.{oldest_of, evict_old_segments}

module _ {V : Type 0} where
  -- The oldest segment is there, so that a round drops one.
  oldest_of-Any : (m : Map V) (id : ℕ) → oldest_of m ≡ some id → Any (λ e. e.0 ≡ id) m
  unfolding oldest_of
  oldest_of-Any [] id h = absurd (ground arith)
  oldest_of-Any ((first, v) ∷ rest) id h = elim (Option-cases (oldest_of rest)) [
    | inl e ↦ inl (ground arith)
    | inr (other, e) ↦
        let least : min first other ≡ id = ground arith in
        elim (Bool-cases (leb first other)) [
          | inl k ↦ inl (ground arith)
          | inr k ↦ inr (oldest_of-Any rest id (ground arith))
        ]
  ]

  oldest_of-none : (m : Map V) → oldest_of m ≡ none → 1 ≤ length m → ⊥
  unfolding oldest_of
  oldest_of-none [] o h = omega arith
  oldest_of-none ((first, v) ∷ rest) o h = elim (Option-cases (oldest_of rest)) [
    | inl e ↦ absurd (ground arith)
    | inr (other, e) ↦ absurd (ground arith)
  ]

  length-remove-le : (id : ℕ) (m : Map V) → length (remove id m) ≤ length m
  unfolding remove
  length-remove-le id [] = omega arith
  length-remove-le id ((first, v) ∷ rest) = ground (arith, length-remove-le id rest)

  length-remove : (id : ℕ) (m : Map V) → Any (λ e. e.0 ≡ id) m → length (remove id m) < length m
  unfolding remove
  length-remove id [] a = absurd a
  length-remove id ((first, v) ∷ rest) (inl e) = ground (arith, length-remove-le id rest)
  length-remove id ((first, v) ∷ rest) (inr a) = ground (arith, length-remove id rest a)

  pub evict_old_segments-room :
      (rounds max_segments : ℕ) (m : Map V)
      → 1 ≤ max_segments
      → length m ≤ rounds
      → length (evict_old_segments rounds max_segments m) < max_segments
  unfolding evict_old_segments
  evict_old_segments-room zero max_segments m h k = omega arith
  evict_old_segments-room (suc rounds) max_segments m h k =
      elim (Bool-cases (leb max_segments (length m))) [
        | inr e ↦ rw (evict_old_segments, e) (ground arith)
        | inl e ↦ elim (Option-cases (oldest_of m)) [
          | inl o ↦ absurd (oldest_of-none m o (ground arith))
          | inr (oldest, o) ↦
              rw (evict_old_segments, e, o)
                (evict_old_segments-room rounds max_segments (remove oldest m) h
                  (omega (arith, length-remove oldest m (oldest_of-Any m oldest o))))
        ]
      ]

  pub evict_old_segments-known :
      (rounds max_segments : ℕ) (m : Map V) (id : ℕ) (v : V)
      → lookup id (evict_old_segments rounds max_segments m) ≡ some v
      → lookup id m ≡ some v
  unfolding evict_old_segments
  evict_old_segments-known zero max_segments m id v h = h
  evict_old_segments-known (suc rounds) max_segments m id v h =
      elim (Bool-cases (leb max_segments (length m))) [
        | inr e ↦ ground arith
        | inl e ↦ elim (Option-cases (oldest_of m)) [
          | inl o ↦ ground arith
          | inr (oldest, o) ↦
              let before =
                evict_old_segments-known rounds max_segments (remove oldest m) id v
                  (ground arith) in
              ground (arith, lookup-remove oldest id m)
        ]
      ]

  -- Entries of a map that all have a property.
  pub insert-All :
      (P : V → Type 0) (id : ℕ) (v : V) (m : Map V)
      → P v
      → All (λ e. P e.1) m
      → All (λ e. P e.1) (insert id v m)
  unfolding insert
  insert-All P id v [] p a = (p, tt)
  insert-All P id v ((first, old) ∷ rest) p a = elim (Bool-cases (first == id)) [
    | inl e ↦ rw (insert, e) (p, a.1)
    | inr e ↦ rw (insert, e) (a.0, insert-All P id v rest p a.1)
  ]

  remove-All :
      (P : V → Type 0) (id : ℕ) (m : Map V) → All (λ e. P e.1) m → All (λ e. P e.1) (remove id m)
  unfolding remove
  remove-All P id [] a = tt
  remove-All P id ((first, old) ∷ rest) a = elim (Bool-cases (first == id)) [
    | inl e ↦ rw (remove, e) (remove-All P id rest a.1)
    | inr e ↦ rw (remove, e) (a.0, remove-All P id rest a.1)
  ]

  pub evict_old_segments-All :
      (P : V → Type 0) (rounds max_segments : ℕ) (m : Map V)
      → All (λ e. P e.1) m
      → All (λ e. P e.1) (evict_old_segments rounds max_segments m)
  unfolding evict_old_segments
  evict_old_segments-All P zero max_segments m a = a
  evict_old_segments-All P (suc rounds) max_segments m a =
      elim (Bool-cases (leb max_segments (length m))) [
        | inr e ↦ rw (evict_old_segments, e) a
        | inl e ↦ elim (Option-cases (oldest_of m)) [
          | inl o ↦ rw (evict_old_segments, e, o) a
          | inr (oldest, o) ↦
              rw (evict_old_segments, e, o)
                (evict_old_segments-All P rounds max_segments (remove oldest m)
                  (remove-All P oldest m a))
        ]
      ]

  pub lookup-All :
      (P : V → Type 0) (id : ℕ) (m : Map V) (v : V)
      → All (λ e. P e.1) m
      → lookup id m ≡ some v
      → P v
  unfolding lookup
  lookup-All P id [] v a h = absurd (ground arith)
  lookup-All P id ((first, old) ∷ rest) v a h = elim (Bool-cases (first == id)) [
    | inl e ↦ let same : old ≡ v = ground arith in subst P same a.0
    | inr e ↦ lookup-All P id rest v a.1 (ground arith)
  ]

  pub length-insert : (id : ℕ) (v : V) (m : Map V) → length (insert id v m) ≤ suc (length m)
  unfolding insert
  length-insert id v [] = omega arith
  length-insert id v ((first, old) ∷ rest) = ground (arith, length-insert id v rest)

  pub length-insert_again :
      (id : ℕ) (v old : V) (m : Map V) → lookup id m ≡ some old → length (insert id v m) ≡ length m
  unfolding insert lookup
  length-insert_again id v old [] h = absurd (ground arith)
  length-insert_again id v old ((first, w) ∷ rest) h = elim (Bool-cases (first == id)) [
    | inl e ↦ rw (insert, e) refl
    | inr e ↦ rw (insert, e) (ap suc (length-insert_again id v old rest (ground arith)))
  ]
