-- ===== src/Detector/SimpleCycle.antt =====
-- src/detector/path_finder.rs: what a candidate stands for in the graph.
use dex_arbitrage.Prelude.{
  ℕ, zero, suc, ◌<◌, ◌≡◌, refl, ap, sym, subst, arith, ◌∙◌, Bool, true, false, ◌&&◌, ◌==◌, Option,
  some, List, [], ◌∷◌, ◌++◌, Any, length, get_elem?, Bool-cases, Option-cases, inl, inr,
}
use dex_arbitrage.Types.{Edge, EdgeRef, TokenInfo}
use dex_arbitrage.Graph.{GraphSnapshot, edge}
use dex_arbitrage.Graph.Snapshot.{Sound}
use dex_arbitrage.Detector.{View}
use dex_arbitrage.Detector.Search.{contains, last}
use dex_arbitrage.Detector.Walk.{Hop, Follows, stop, hop, Distinct}
use dex_arbitrage.Detector.Candidate.{CandidateHop}
use dex_arbitrage.Detector.Cycle.{Attempt, done, dropped, panicked, path_of, all_new}

-- A hop with the addresses and the pool of the edge that a reference leads to.
pub record HopOf (g : GraphSnapshot) (r : EdgeRef) (h : CandidateHop) : Type 0 where
  pub target : Edge
  pub source : TokenInfo
  pub sink : TokenInfo
  pub found : edge g r ≡ some target
  pub source_at : get_elem? g.tokens target.from ≡ some source
  pub sink_at : get_elem? g.tokens target.to ≡ some sink
  pub from : h.from ≡ source.address
  pub to : h.to ≡ sink.address
  pub pool : h.pool_id ≡ target.pool_id

pub data Spells (g : GraphSnapshot) : List EdgeRef → List CandidateHop → Type 0 where
  nothing : Spells g [] []
  spell :
      {r : EdgeRef} {rs : List EdgeRef} {h : CandidateHop} {hs : List CandidateHop}
      → HopOf g r h
      → Spells g rs hs
      → Spells g (r ∷ rs) (h ∷ hs)

-- Each hop starts at the address where the last one ended.
abbrev pub Linked : ℕ → List CandidateHop → ℕ → Type 0
Linked a [] b = a ≡ b
Linked a (h ∷ hs) b = (h.from ≡ a) × Linked h.to hs b

-- A reference to an edge between two tokens.
pub record Joining (g : GraphSnapshot) (from to : ℕ) (r : EdgeRef) : Type 0 where
  pub target : Edge
  pub found : edge g r ≡ some target
  pub leaves : target.from ≡ from
  pub enters : target.to ≡ to

pub length-Spells :
    (g : GraphSnapshot) {rs : List EdgeRef} {hs : List CandidateHop}
    → Spells g rs hs
    → length hs ≡ length rs
length-Spells g nothing = refl
length-Spells g (spell h rest) = ap suc (length-Spells g rest)

some_eq {ℓ} : {A : Type ℓ} {o : Option A} {a b : A} → o ≡ some a → o ≡ some b → a ≡ b
some_eq h k = ground arith

-- The tokens of a walk at their addresses.
pub Follows-Linked :
    (v : View) (g : GraphSnapshot) {rs : List EdgeRef} {ts : List ℕ} {hs : List CandidateHop}
    (u w : ℕ) (rest : List ℕ) (a b : TokenInfo)
    → Follows v g rs ts
    → Spells g rs hs
    → ts ≡ u ∷ rest
    → last ts ≡ some w
    → get_elem? g.tokens u ≡ some a
    → get_elem? g.tokens w ≡ some b
    → Linked a.address hs b.address
Follows-Linked v g u w rest a b (stop x) nothing first end p q =
    let e : x ≡ w = ground arith in
    let f : x ≡ u = ground arith in
    ap (λ (t : TokenInfo). t.address)
      (some_eq (subst (λ y. get_elem? g.tokens y ≡ some a) (sym f ∙ e) p) q)
Follows-Linked v g u w rest a b (hop {r = r} {u = x} {w = y} {ts = ts} k walk)
      (spell {h = h} {hs = hs} s more) first end p q =
    let same : k.target ≡ s.target = some_eq k.found s.found in
    let at_source : s.target.from ≡ u =
      ap (λ (e : Edge). e.from) (sym same) ∙ k.leaves ∙ ground arith in
    let source : s.source ≡ a = some_eq s.source_at (rw at_source p) in
    let at_sink : s.target.to ≡ y = ap (λ (e : Edge). e.to) (sym same) ∙ k.enters in
    let sink : get_elem? g.tokens y ≡ some s.sink =
      subst (λ z. get_elem? g.tokens z ≡ some s.sink) at_sink s.sink_at in
    (
      s.from ∙ ap (λ (t : TokenInfo). t.address) source,
      subst (λ z. Linked z hs b.address) (sym s.to)
          (Follows-Linked v g y w ts s.sink b walk more refl end sink q),
    )

-- A property of what an attempt gives, which is not a panic.
abbrev pub OnDone {ℓ} : {A : Type ℓ} → (A → Type 0) → Attempt A → Type 0
OnDone P (done x) = P x
OnDone P dropped = Unit
OnDone P panicked = ⊥

pub record Spelled (g : GraphSnapshot) (from to : ℕ) (rs : List EdgeRef)
    (found : List CandidateHop × Bool) : Type 0 where
  pub spells : Spells g rs found.0
  pub joining : found.1 ≡ true → Any (Joining g from to) rs

pub within {ℓ} :
    {A : Type ℓ} (xs : List A) (i : ℕ) → i < length xs → (x : A) × (get_elem? xs i ≡ some x)
within [] i h = absurd (omega arith)
within (x ∷ xs) zero h = (x, refl)
within (x ∷ xs) (suc i) h = within xs i (omega arith)

module _ (g : GraphSnapshot) (sound : Sound g) (from to : ℕ) where
  longer :
      (r : EdgeRef) (rs : List EdgeRef) (e : Edge) (source sink : TokenInfo)
      (rest : Attempt (List CandidateHop × Bool))
      → edge g r ≡ some e
      → get_elem? g.tokens e.from ≡ some source
      → get_elem? g.tokens e.to ≡ some sink
      → path_of g from to rs ≡ rest
      → OnDone (Spelled g from to rs) rest
      → OnDone (Spelled g from to (r ∷ rs)) (path_of g from to (r ∷ rs))
  unfolding path_of
  longer r rs e source sink (done found) k p q h i =
      rw (path_of, k, p, q, h)
        (record {
          spells =
              spell
                (record {
                  target = e;
                  source = source;
                  sink = sink;
                  found = k;
                  source_at = p;
                  sink_at = q;
                  from = refl;
                  to = refl;
                  pool = refl;
                })
                i.spells;
          joining = λ b. elim (Bool-cases (e.from == from && e.to == to)) [
            | inl y ↦
                inl (record { target = e; found = k; leaves = ground arith; enters = ground arith })
            | inr n ↦ inr (i.joining (ground arith))
          ];
        })
  longer r rs e source sink dropped k p q h i = rw (path_of, k, p, q, h) tt
  longer r rs e source sink panicked k p q h i = absurd i

  pub path_of-Spelled : (rs : List EdgeRef) → OnDone (Spelled g from to rs) (path_of g from to rs)
  unfolding path_of
  path_of-Spelled [] = record { spells = nothing; joining = λ b. absurd (ground arith) }
  path_of-Spelled (r ∷ rs) = elim (Option-cases (edge g r)) [
    | inl k ↦ rw (path_of, k) tt
    | inr (e, k) ↦
        let (source, p) = within g.tokens e.from (sound.source r e k) in
        let (sink, q) = within g.tokens e.to (sound.target r e k) in
        longer r rs e source sink (path_of g from to rs) k p q refl (path_of-Spelled rs)
  ]

-- `all_new` finds no token twice.
all_new-apart :
    (seen ts : List ℕ) (x : ℕ)
    → contains seen x ≡ true
    → all_new seen ts ≡ true
    → contains ts x ≡ false
unfolding all_new contains
all_new-apart seen [] x h a = refl
all_new-apart seen (t ∷ ts) x h a = elim (Bool-cases (contains seen t)) [
  | inl e ↦ absurd (ground arith)
  | inr e ↦
      let rest : all_new (t ∷ seen) ts ≡ true = ground arith in
      let later = all_new-apart (t ∷ seen) ts x (ground arith) rest in
      elim (Bool-cases (t == x)) [
        | inl s ↦
            let same : t ≡ x = ground arith in
            absurd (ground (arith, subst (λ y. contains seen y ≡ false) same e))
        | inr s ↦ ground arith
      ]
]

pub all_new-Distinct : (seen ts : List ℕ) → all_new seen ts ≡ true → Distinct ts
unfolding all_new contains
all_new-Distinct seen [] h = tt
all_new-Distinct seen (t ∷ ts) h =
    let rest : all_new (t ∷ seen) ts ≡ true = ground arith in
    (all_new-apart (t ∷ seen) ts t (ground arith) rest, all_new-Distinct (t ∷ seen) ts rest)

-- Two walks with an edge between them.
pub Follows-append :
    (v : View) (g : GraphSnapshot) {rs rs' : List EdgeRef} {ts ts' : List ℕ} {u w : ℕ} (r : EdgeRef)
    → Follows v g rs ts
    → last ts ≡ some u
    → Hop v g r u w
    → Follows v g rs' (w ∷ ts')
    → Follows v g (rs ++ r ∷ rs') (ts ++ w ∷ ts')
Follows-append v g {u = u} {w = w} r (stop x) h k after =
    let e : x ≡ u = ground arith in hop (subst (λ y. Hop v g r y w) (sym e) k) after
Follows-append v g r (hop first rest) h k after = hop first (Follows-append v g r rest h k after)

pub last-append : (ts : List ℕ) (w : ℕ) (ts' : List ℕ) → last (ts ++ w ∷ ts') ≡ last (w ∷ ts')
last-append [] w ts' = refl
last-append (t ∷ []) w ts' = refl
last-append (t ∷ u ∷ ts) w ts' = last-append (u ∷ ts) w ts'
