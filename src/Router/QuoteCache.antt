-- ===== src/Router/QuoteCache.antt =====
-- src/router/exact_quoter.rs: the cache of quotes, with a segment for each snapshot.
use dex_arbitrage.Prelude.{
  ℕ, zero, suc, ◌==◌, leb, Bool, true, false, ◌&&◌, not, Option, none, some, List, [], ◌∷◌, ◌++◌,
  if◌then◌else◌, length, keep, min,
}
use dex_arbitrage.Prelude.Map.{Map, lookup, insert, remove}

pub record QuoteKey : Type 0 where
  pub snapshot_id : ℕ
  pub pool_id : ℕ
  pub token_in : ℕ
  pub token_out : ℕ
  pub amount_in : ℕ

abbrev pub same_key : QuoteKey → QuoteKey → Bool
same_key a b =
    a.snapshot_id == b.snapshot_id
    && (a.pool_id == b.pool_id
        && (a.token_in == b.token_in && (a.token_out == b.token_out && a.amount_in == b.amount_in)))

abbrev pub Entries : Type 0
Entries = List (QuoteKey × ℕ)

unfoldable pub lookup_key : QuoteKey → Entries → Option ℕ
lookup_key key [] = none
lookup_key key ((first, value) ∷ rest) =
    if same_key first key then some value else lookup_key key rest

unfoldable pub insert_key : QuoteKey → ℕ → Entries → Entries
insert_key key value [] = (key, value) ∷ []
insert_key key value ((first, old) ∷ rest) =
    if same_key first key then (first, value) ∷ rest else (first, old) ∷ insert_key key value rest

unfoldable pub remove_key : QuoteKey → Entries → Entries
remove_key key [] = []
remove_key key ((first, old) ∷ rest) =
    if same_key first key then remove_key key rest else (first, old) ∷ remove_key key rest

-- The oldest key comes first in `lru`.
pub record QuoteSegment : Type 0 where
  pub entries : Entries
  pub lru : List QuoteKey

pub record QuoteCache : Type 0 where
  pub max_segments : ℕ
  pub max_entries_per_segment : ℕ
  pub segments : Map QuoteSegment

abbrev pub empty_segment : QuoteSegment
empty_segment = record { entries = []; lru = [] }

unfoldable pub touch : QuoteKey → QuoteSegment → QuoteSegment
touch key s = record s { lru = keep (λ existing. not (same_key existing key)) s.lru ++ key ∷ [] }

-- The value and the cache with the key as the newest of its segment.
unfoldable pub get : QuoteKey → QuoteCache → Option ℕ × QuoteCache
get key c = elim (lookup key.snapshot_id c.segments) [
  | none ↦ (none, c)
  | some segment ↦ elim (lookup_key key segment.entries) [
    | none ↦ (none, c)
    | some value ↦
        (some value, record c { segments = insert key.snapshot_id (touch key segment) c.segments })
  ]
]

-- `while segment.entries.len() > self.max_entries_per_segment`
unfoldable pub evict : (max_entries : ℕ) → Entries → (lru : List QuoteKey) → QuoteSegment
evict max_entries entries [] = record { entries = entries; lru = [] }
evict max_entries entries (oldest ∷ lru) =
    let rest = evict max_entries (remove_key oldest entries) lru in
    if leb (length entries) max_entries
    then record { entries = entries; lru = oldest ∷ lru }
    else rest

-- `keys().min()`
unfoldable pub oldest_of : {V : Type 0} → Map V → Option ℕ
oldest_of [] = none
oldest_of ((id, segment) ∷ rest) = elim (oldest_of rest) [
  | none ↦ some id
  | some other ↦ some (min id other)
]

-- A round drops a segment, so that there are no more rounds than segments.
unfoldable pub evict_old_segments : {V : Type 0} → (rounds max_segments : ℕ) → Map V → Map V
evict_old_segments zero max_segments segments = segments
evict_old_segments (suc rounds) max_segments segments = elim (leb max_segments (length segments)) [
  | false ↦ segments
  | true ↦ elim (oldest_of segments) [
    | none ↦ segments
    | some oldest ↦ evict_old_segments rounds max_segments (remove oldest segments)
  ]
]

abbrev pub segment_or_new : ℕ → Map QuoteSegment → QuoteSegment
segment_or_new id segments = elim (lookup id segments) [
  | none ↦ empty_segment
  | some segment ↦ segment
]

abbrev pub known_key : QuoteKey → Entries → Bool
known_key key entries = elim (lookup_key key entries) [ none ↦ false | some value ↦ true ]

unfoldable pub insert_in : (max_entries : ℕ) → QuoteKey → (value : ℕ) → QuoteSegment → QuoteSegment
insert_in max_entries key value s =
    let touched : QuoteSegment =
      if known_key key s.entries then touch key s else record s { lru = s.lru ++ key ∷ [] } in
    evict max_entries (insert_key key value touched.entries) touched.lru

-- The segments, with room for a new one if the key needs it.
unfoldable pub with_room : QuoteKey → QuoteCache → Map QuoteSegment
with_room key c = elim (lookup key.snapshot_id c.segments) [
  | none ↦ evict_old_segments (length c.segments) c.max_segments c.segments
  | some segment ↦ c.segments
]

unfoldable pub insert_quote : QuoteKey → (value : ℕ) → QuoteCache → QuoteCache
insert_quote key value c =
    let segments = with_room key c in
    record c {
      segments =
          insert key.snapshot_id
            (insert_in c.max_entries_per_segment key value
              (segment_or_new key.snapshot_id segments))
            segments;
    }
