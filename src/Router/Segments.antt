-- ===== src/Router/Segments.antt =====
-- src/router/exact_quoter.rs: what one segment of the cache of quotes knows, and its bound.
use dex_arbitrage.Prelude.{
  ℕ, ◌≤◌, ◌≡◌, refl, sym, arith, ◌∙◌, leb, Bool, true, false, not, none, some, List, [], ◌∷◌, ◌++◌,
  if◌then◌else◌, length, keep, Any, Bool-cases, ◌⊎◌, inl, inr,
}
use dex_arbitrage.Router.QuoteCache.{
  QuoteKey, same_key, Entries, lookup_key, insert_key, remove_key, QuoteSegment, touch, evict,
  known_key, insert_in,
}

lookup_key-insert_key :
    (key other : QuoteKey) (value : ℕ) (m : Entries)
    → lookup_key other (insert_key key value m)
      ≡ (if same_key key other then some value else lookup_key other m)
unfolding lookup_key insert_key
lookup_key-insert_key key other value [] = refl
lookup_key-insert_key key other value ((first, old) ∷ rest) =
    ground (arith, lookup_key-insert_key key other value rest)

lookup_key-remove_key :
    (key other : QuoteKey) (m : Entries)
    → lookup_key other (remove_key key m)
      ≡ (if same_key key other then none else lookup_key other m)
unfolding lookup_key remove_key
lookup_key-remove_key key other [] = ground arith
lookup_key-remove_key key other ((first, old) ∷ rest) =
    ground (arith, lookup_key-remove_key key other rest)

-- What a segment still knows after evictions, it knew before.
evict-known :
    (max_entries : ℕ) (entries : Entries) (lru : List QuoteKey) (k : QuoteKey) (v : ℕ)
    → lookup_key k (evict max_entries entries lru).entries ≡ some v
    → lookup_key k entries ≡ some v
unfolding evict
evict-known max_entries entries [] k v h = h
evict-known max_entries entries (oldest ∷ lru) k v h =
    elim (Bool-cases (leb (length entries) max_entries)) [
      | inl e ↦ ground arith
      | inr e ↦
          let before = evict-known max_entries (remove_key oldest entries) lru k v (ground arith) in
          ground (arith, lookup_key-remove_key oldest k entries)
    ]

-- Every key of the entries is in the queue.
abbrev pub Queued : Entries → List QuoteKey → Type 0
Queued entries lru =
    (k : QuoteKey) (v : ℕ) → lookup_key k entries ≡ some v → Any (λ j. same_key j k ≡ true) lru

Any-snoc :
    {A : Type 0} (P : A → Type 0) (xs : List A) (x : A) → (Any P xs ⊎ P x) → Any P (xs ++ x ∷ [])
Any-snoc P [] x (inl a) = absurd a
Any-snoc P [] x (inr p) = inl p
Any-snoc P (y ∷ xs) x (inl (inl p)) = inl p
Any-snoc P (y ∷ xs) x (inl (inr a)) = inr (Any-snoc P xs x (inl a))
Any-snoc P (y ∷ xs) x (inr p) = inr (Any-snoc P xs x (inr p))

keep-Any :
    (key k : QuoteKey) (lru : List QuoteKey)
    → same_key key k ≡ false
    → Any (λ j. same_key j k ≡ true) lru
    → Any (λ j. same_key j k ≡ true) (keep (λ existing. not (same_key existing key)) lru)
unfolding keep
keep-Any key k [] h a = a
keep-Any key k (j ∷ lru) h (inl p) =
    let stays : same_key j key ≡ false = ground arith in rw (keep, stays) (inl p)
keep-Any key k (j ∷ lru) h (inr a) = elim (Bool-cases (same_key j key)) [
  | inl e ↦ rw (keep, e) (keep-Any key k lru h a)
  | inr e ↦ rw (keep, e) (inr (keep-Any key k lru h a))
]

-- A segment within its bound, with its keys in the queue.
pub record Kept (max_entries : ℕ) (s : QuoteSegment) : Type 0 where
  pub small : length s.entries ≤ max_entries
  pub queued : Queued s.entries s.lru

evict-Kept :
    (max_entries : ℕ) (entries : Entries) (lru : List QuoteKey)
    → Queued entries lru
    → Kept max_entries (evict max_entries entries lru)
unfolding evict lookup_key
evict-Kept max_entries [] [] q = record { small = omega arith; queued = q }
evict-Kept max_entries ((k, v) ∷ rest) [] q = absurd (q k v (ground arith))
evict-Kept max_entries entries (oldest ∷ lru) q =
    elim (Bool-cases (leb (length entries) max_entries)) [
      | inl e ↦ rw (evict, e) (record { small = ground arith; queued = q })
      | inr e ↦ rw (evict, e) (evict-Kept max_entries (remove_key oldest entries) lru left)
    ]
  where
    left : Queued (remove_key oldest entries) lru
    left k v h = elim (Bool-cases (same_key oldest k)) [
      | inl e ↦ absurd (ground (arith, lookup_key-remove_key oldest k entries))
      | inr e ↦
          let known : lookup_key k entries ≡ some v =
            ground (arith, lookup_key-remove_key oldest k entries) in
          elim (q k v known) [ inl s ↦ absurd (ground arith) | inr a ↦ a ]
    ]

pub touch-Queued :
    (key : QuoteKey) (s : QuoteSegment)
    → Queued s.entries s.lru
    → Queued s.entries (touch key s).lru
unfolding touch
touch-Queued key s q k v h = elim (Bool-cases (same_key key k)) [
  | inl e ↦ Any-snoc (λ j. same_key j k ≡ true) _ key (inr e)
  | inr e ↦ Any-snoc (λ j. same_key j k ≡ true) _ key (inl (keep-Any key k s.lru e (q k v h)))
]

Any-same :
    (key k : QuoteKey) (lru : List QuoteKey)
    → same_key key k ≡ true
    → Any (λ j. same_key j key ≡ true) lru
    → Any (λ j. same_key j k ≡ true) lru
Any-same key k [] e a = a
Any-same key k (j ∷ lru) e (inl p) = inl (ground arith)
Any-same key k (j ∷ lru) e (inr a) = inr (Any-same key k lru e a)

-- An entry more, with its key at the end of the queue.
put-Queued :
    (key : QuoteKey) (value : ℕ) (entries : Entries) (lru : List QuoteKey)
    → ((k : QuoteKey) (v : ℕ)
        → same_key key k ≡ false
        → lookup_key k entries ≡ some v
        → Any (λ j. same_key j k ≡ true) lru)
    → Any (λ j. same_key j key ≡ true) lru
    → Queued (insert_key key value entries) lru
put-Queued key value entries lru f a k v h = elim (Bool-cases (same_key key k)) [
  | inl e ↦ Any-same key k lru e a
  | inr e ↦ f k v e (ground (arith, lookup_key-insert_key key k value entries))
]

pub insert_in-Kept :
    (max_entries : ℕ) (key : QuoteKey) (value : ℕ) (s : QuoteSegment)
    → Queued s.entries s.lru
    → Kept max_entries (insert_in max_entries key value s)
unfolding insert_in touch
insert_in-Kept max_entries key value s q = elim (Bool-cases (known_key key s.entries)) [
  | inl e ↦
      rw (insert_in, e)
        (evict-Kept max_entries (insert_key key value s.entries) _ (
          put-Queued key value s.entries _ (λ k v n h. touch-Queued key s q k v h)
            (Any-snoc (λ j. same_key j key ≡ true) _ key (inr (ground arith)))))
  | inr e ↦
      rw (insert_in, e)
        (evict-Kept max_entries (insert_key key value s.entries) (s.lru ++ key ∷ []) (
          put-Queued key value s.entries (s.lru ++ key ∷ [])
            (λ k v n h. Any-snoc (λ j. same_key j k ≡ true) s.lru key (inl (q k v h)))
            (Any-snoc (λ j. same_key j key ≡ true) s.lru key (inr (ground arith)))))
]

pub insert_in-known :
    (max_entries : ℕ) (key k : QuoteKey) (value v : ℕ) (s : QuoteSegment)
    → lookup_key k (insert_in max_entries key value s).entries ≡ some v
    → (if same_key key k then some value else lookup_key k s.entries) ≡ some v
unfolding insert_in touch
insert_in-known max_entries key k value v s h =
    sym (lookup_key-insert_key key k value s.entries) ∙ before (known_key key s.entries) h
  where
    before :
        (b : Bool)
        → (let touched : QuoteSegment =
              if b then touch key s else record s { lru = s.lru ++ key ∷ [] } in
            lookup_key k
              (evict max_entries (insert_key key value touched.entries) touched.lru).entries
            ≡ some v)
        → lookup_key k (insert_key key value s.entries) ≡ some v
    before true h = evict-known max_entries (insert_key key value s.entries) (touch key s).lru k v h
    before false h =
        evict-known max_entries (insert_key key value s.entries) (s.lru ++ key ∷ []) k v h
