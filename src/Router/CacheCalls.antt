-- ===== src/Router/CacheCalls.antt =====
-- src/router/exact_quoter.rs: what one call of the cache of quotes does.
use dex_arbitrage.Prelude.{
  ℕ, ◌≤◌, ◌≡◌, refl, subst, arith, ◌==◌, false, Option, none, some, if◌then◌else◌, length, All,
  Bool-cases, Option-cases, ◌⊎◌, inl, inr,
}
use dex_arbitrage.Prelude.Map.{lookup, lookup-insert}
use dex_arbitrage.Router.QuoteCache.{
  QuoteKey, same_key, lookup_key, QuoteSegment, QuoteCache, empty_segment, touch, get,
  evict_old_segments, segment_or_new, insert_in, with_room, insert_quote,
}
use dex_arbitrage.Router.Segments.{Kept, touch-Queued, insert_in-Kept, insert_in-known}
use dex_arbitrage.Router.SegmentMaps.{
  evict_old_segments-room, evict_old_segments-known, insert-All, evict_old_segments-All, lookup-All,
  length-insert, length-insert_again,
}

-- What the cache knows of a key.
abbrev pub knows : QuoteKey → QuoteCache → Option ℕ
knows k c = elim (lookup k.snapshot_id c.segments) [ none ↦ none | some s ↦ lookup_key k s.entries ]

pub get-knows : (k : QuoteKey) (c : QuoteCache) → (get k c).0 ≡ knows k c
unfolding get
get-knows k c = elim (Option-cases (lookup k.snapshot_id c.segments)) [
  | inl e ↦ rw (get, knows, e) refl
  | inr (s, e) ↦ elim (Option-cases (lookup_key k s.entries)) [
    | inl h ↦ rw (get, knows, e, h) refl
    | inr (v, h) ↦ rw (get, knows, e, h) refl
  ]
]

-- A cache within its bounds.
pub record Bounded (c : QuoteCache) : Type 0 where
  pub few : length c.segments ≤ c.max_segments
  pub small : All (λ e. Kept c.max_entries_per_segment e.1) c.segments

-- Nothing changes of what is known by a lookup.
pub get-still_knows : (key k : QuoteKey) (c : QuoteCache) → knows k (get key c).1 ≡ knows k c
unfolding get touch
get-still_knows key k c = elim (Option-cases (lookup key.snapshot_id c.segments)) [
  | inl e ↦ rw (get, e) refl
  | inr (s, e) ↦ elim (Option-cases (lookup_key key s.entries)) [
    | inl h ↦ rw (get, e, h) refl
    | inr (v, h) ↦
        let found = lookup-insert key.snapshot_id k.snapshot_id (touch key s) c.segments in
        elim (Bool-cases (key.snapshot_id == k.snapshot_id)) [
          | inl same ↦
              let at_k : lookup k.snapshot_id c.segments ≡ some s =
                subst (λ i. lookup i c.segments ≡ some s) (ground arith) e in
              rw (get, e, h, knows, found, same, at_k) refl
          | inr other ↦ rw (get, e, h, knows, found, other) refl
        ]
  ]
]

pub get-Bounded : (key : QuoteKey) (c : QuoteCache) → Bounded c → Bounded (get key c).1
unfolding get touch
get-Bounded key c b = elim (Option-cases (lookup key.snapshot_id c.segments)) [
  | inl e ↦ rw (get, e) b
  | inr (s, e) ↦ elim (Option-cases (lookup_key key s.entries)) [
    | inl h ↦ rw (get, e, h) b
    | inr (v, h) ↦
        let kept =
          lookup-All (Kept c.max_entries_per_segment) key.snapshot_id c.segments s b.small e in
        rw (get, e, h)
          (record {
            few =
                omega
                  (arith, length-insert_again key.snapshot_id (touch key s) s c.segments e, b.few);
            small =
                insert-All (Kept c.max_entries_per_segment) key.snapshot_id (touch key s) c.segments
                  (record { small = kept.small; queued = touch-Queued key s kept.queued }) b.small;
          })
  ]
]

with_room-known :
    (key : QuoteKey) (c : QuoteCache) (id : ℕ) (s : QuoteSegment)
    → lookup id (with_room key c) ≡ some s
    → lookup id c.segments ≡ some s
unfolding with_room
with_room-known key c id s h = elim (Option-cases (lookup key.snapshot_id c.segments)) [
  | inl e ↦
      evict_old_segments-known (length c.segments) c.max_segments c.segments id s (ground arith)
  | inr (t, e) ↦ ground arith
]

-- What is known after a value was put in: that value, or what was known before.
pub insert_quote-knows :
    (key k : QuoteKey) (value v : ℕ) (c : QuoteCache)
    → knows k (insert_quote key value c) ≡ some v
    → (if same_key key k then some value else knows k c) ≡ some v
unfolding insert_quote lookup_key
insert_quote-knows key k value v c h =
    let room = with_room key c in
    let new = insert_in c.max_entries_per_segment key value (segment_or_new key.snapshot_id room) in
    let found = lookup-insert key.snapshot_id k.snapshot_id new room in
    elim (Bool-cases (key.snapshot_id == k.snapshot_id)) [
      | inr other ↦
          let apart : same_key key k ≡ false = ground arith in
          elim (Option-cases (lookup k.snapshot_id room)) [
            | inl e ↦ absurd (ground (arith, found))
            | inr (s, e) ↦
                let was = with_room-known key c k.snapshot_id s e in ground (arith, found, was)
          ]
      | inl same ↦
          let id : key.snapshot_id ≡ k.snapshot_id = ground arith in
          let inside =
            insert_in-known c.max_entries_per_segment key k value v
              (segment_or_new key.snapshot_id room) (ground (arith, found)) in
          elim (Bool-cases (same_key key k)) [
            | inl e ↦ ground arith
            | inr e ↦ elim (Option-cases (lookup key.snapshot_id room)) [
              | inl r ↦ absurd (ground (arith, r, inside))
              | inr (s, r) ↦
                  let was = with_room-known key c key.snapshot_id s r in
                  let at_k : lookup k.snapshot_id c.segments ≡ some s =
                    subst (λ i. lookup i c.segments ≡ some s) id was in
                  ground (arith, r, inside, at_k)
            ]
          ]
    ]

pub insert_quote-Bounded :
    (key : QuoteKey) (value : ℕ) (c : QuoteCache)
    → 1 ≤ c.max_segments
    → Bounded c
    → Bounded (insert_quote key value c)
unfolding insert_quote with_room lookup_key
insert_quote-Bounded key value c h b = elim (Option-cases (lookup key.snapshot_id c.segments)) [
  | inr (s, e) ↦
      let kept =
        lookup-All (Kept c.max_entries_per_segment) key.snapshot_id c.segments s b.small e in
      rw (insert_quote, with_room, e, segment_or_new, e)
        (record {
          few = omega (
            arith,
            length-insert_again key.snapshot_id (insert_in c.max_entries_per_segment key value s) s
                c.segments e,
            b.few,
          );
          small =
              insert-All (Kept c.max_entries_per_segment) key.snapshot_id _ c.segments
                (insert_in-Kept c.max_entries_per_segment key value s kept.queued) b.small;
        })
  | inl e ↦
      let room = evict_old_segments (length c.segments) c.max_segments c.segments in
      let gone : lookup key.snapshot_id room ≡ none =
        absent (Option-cases (lookup key.snapshot_id room)) e in
      let less =
        evict_old_segments-room (length c.segments) c.max_segments c.segments h (omega arith) in
      rw (insert_quote, with_room, e, segment_or_new, gone)
        (record {
          few = omega (
            arith,
            length-insert key.snapshot_id
                (insert_in c.max_entries_per_segment key value empty_segment) room,
            less,
          );
          small =
              insert-All (Kept c.max_entries_per_segment) key.snapshot_id _ room
                (insert_in-Kept c.max_entries_per_segment key value empty_segment
                  (λ k v n. absurd (ground arith)))
                (evict_old_segments-All (Kept c.max_entries_per_segment) (length c.segments)
                  c.max_segments c.segments b.small);
        })
]
  where
    absent :
        (lookup key.snapshot_id (evict_old_segments (length c.segments) c.max_segments c.segments)
            ≡ none)
          ⊎ ((s : QuoteSegment) × (lookup key.snapshot_id
                  (evict_old_segments (length c.segments) c.max_segments c.segments)
                ≡ some s))
        → lookup key.snapshot_id c.segments ≡ none
        → lookup key.snapshot_id (evict_old_segments (length c.segments) c.max_segments c.segments)
          ≡ none
    absent (inl n) e = n
    absent (inr (s, n)) e =
        let was =
          evict_old_segments-known (length c.segments) c.max_segments c.segments key.snapshot_id s
            n in
        absurd (ground (arith, e, was))

pub get-limit : (key : QuoteKey) (c : QuoteCache) → (get key c).1.max_segments ≡ c.max_segments
unfolding get
get-limit key c = elim (Option-cases (lookup key.snapshot_id c.segments)) [
  | inl e ↦ rw (get, e) refl
  | inr (s, e) ↦ elim (Option-cases (lookup_key key s.entries)) [
    | inl h ↦ rw (get, e, h) refl
    | inr (v, h) ↦ rw (get, e, h) refl
  ]
]

pub insert_quote-limit :
    (key : QuoteKey) (value : ℕ) (c : QuoteCache)
    → (insert_quote key value c).max_segments ≡ c.max_segments
unfolding insert_quote
insert_quote-limit key value c = refl
