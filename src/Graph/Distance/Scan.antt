-- ===== src/Graph/Distance/Scan.antt =====
-- src/graph/distance_cache.rs: what a push to the queue and a scan of a row do.
use mathlib.Core.List.{Memᴰ}
use mathlib.Core.List.Memᴰ
use mathlib.Core.Logic.{⊎_elim}
use dex_arbitrage.Prelude.{
  ℕ, zero, suc, ◌+◌, ◌≤◌, ◌<◌, ◌≡◌, refl, ap, arith, Bool, true, false, Option, some, List, [], ◌∷◌,
  ◌++◌, get_elem?, set, length, length-append, length-set, ◌⊎◌, inl, inr, ◌↔◌, All,
}
use dex_arbitrage.Graph.Distance.{Search, visit, scan}

abbrev pub Marked : List Bool → ℕ → Type 0
Marked seen v = get_elem? seen v ≡ some true

-- The flags that are still down.
abbrev pub unseen : List Bool → ℕ
unseen [] = 0
unseen (true ∷ flags) = unseen flags
unseen (false ∷ flags) = suc (unseen flags)

-- What an entry of a list is.
pub data Flag (seen : List Bool) (v : ℕ) : Type 0 where
  up : get_elem? seen v ≡ some true → Flag seen v
  down : get_elem? seen v ≡ some false → Flag seen v

pub flag : (seen : List Bool) (v : ℕ) → v < length seen → Flag seen v
flag [] v h = absurd (omega arith)
flag (true ∷ seen) zero h = up refl
flag (false ∷ seen) zero h = down refl
flag (b ∷ seen) (suc v) h = elim (flag seen v (omega arith)) [ up e ↦ up e | down e ↦ down e ]

pub Marked-set :
    (seen : List Bool) (i v : ℕ)
    → i < length seen
    → Marked (set seen i true) v ↔ (Marked seen v ⊎ (v ≡ i))
Marked-set [] i v h = absurd (omega arith)
Marked-set (b ∷ seen) zero zero h = (λ _. inr refl, λ _. refl)
Marked-set (b ∷ seen) zero (suc v) h = (inl, ⊎_elim (λ m. m) (λ e. absurd (omega arith)))
Marked-set (b ∷ seen) (suc i) zero h = (inl, ⊎_elim (λ m. m) (λ e. absurd (omega arith)))
Marked-set (b ∷ seen) (suc i) (suc v) h =
    let (there, back) = Marked-set seen i v (omega arith) in
    (
      λ m. ⊎_elim inl (λ e. inr (ap suc e)) (there m),
      ⊎_elim (λ m. back (inl m)) (λ e. back (inr (omega arith))),
    )

pub unseen-set :
    (seen : List Bool) (i : ℕ)
    → get_elem? seen i ≡ some false
    → suc (unseen (set seen i true)) ≡ unseen seen
unseen-set [] i e = absurd (ground arith)
unseen-set (true ∷ seen) zero e = absurd (ground arith)
unseen-set (false ∷ seen) zero e = refl
unseen-set (true ∷ seen) (suc i) e = unseen-set seen i e
unseen-set (false ∷ seen) (suc i) e = ap suc (unseen-set seen i e)

pub unseen-set-le : (seen : List Bool) (i : ℕ) → unseen (set seen i true) ≤ unseen seen
unseen-set-le [] i = omega arith
unseen-set-le (true ∷ seen) zero = omega arith
unseen-set-le (false ∷ seen) zero = omega arith
unseen-set-le (true ∷ seen) (suc i) = unseen-set-le seen i
unseen-set-le (false ∷ seen) (suc i) = omega (arith, unseen-set-le seen i)

pub Mem-cons : (a x : ℕ) (xs : List ℕ) → Memᴰ a (x ∷ xs) ↔ ((a ≡ x) ⊎ Memᴰ a xs)
Mem-cons a x xs = (Memᴰ.cases_cons, ⊎_elim Memᴰ.head Memᴰ.tail)

pub Mem-snoc : (a x : ℕ) (xs : List ℕ) → Memᴰ a (xs ++ x ∷ []) ↔ (Memᴰ a xs ⊎ (a ≡ x))
Mem-snoc a x xs = (
  λ m. ⊎_elim inl (λ last. inr (Memᴰ.eq_of_singleton last)) (Memᴰ.append_cases xs m),
  ⊎_elim (Memᴰ.append_left _) (λ e. Memᴰ.append_right xs (Memᴰ.head e)),
)

-- What a run of visits to the vertices of `vs` leaves: a flag is up that was up or is of one of
-- these, and what is new is in the queue.
pub record Visited (s : Search) (vs : List ℕ) (t : Search) : Type 0 where
  pub size : length t.seen ≡ length s.seen
  pub work : unseen t.seen + length t.queue ≤ unseen s.seen + length s.queue
  pub raised : (w : ℕ) → Marked t.seen w → Marked s.seen w ⊎ Memᴰ w vs
  pub kept : (w : ℕ) → Marked s.seen w → Marked t.seen w
  pub reached : (w : ℕ) → Memᴰ w vs → Marked t.seen w
  pub queued : (w : ℕ) → Memᴰ w t.queue → Memᴰ w s.queue ⊎ Memᴰ w vs
  pub waiting : (w : ℕ) → Memᴰ w s.queue → Memᴰ w t.queue
  pub fresh : (w : ℕ) → Marked t.seen w → Marked s.seen w ⊎ Memᴰ w t.queue

pub record Done (s : Search) (vs : List ℕ) (result : Option Search) : Type 0 where
  pub after : Search
  pub result_is : result ≡ some after
  pub visited : Visited s vs after

Visited-none : (s : Search) → Visited s [] s
Visited-none s = record {
  size = refl;
  work = omega arith;
  raised = λ w m. inl m;
  kept = λ w m. m;
  reached = λ w m. absurd (Memᴰ.not-nil m);
  queued = λ w m. inl m;
  waiting = λ w m. m;
  fresh = λ w m. inl m;
}

Visited-cons :
    (s t u : Search) (v : ℕ) (vs : List ℕ)
    → Visited s (v ∷ []) t
    → Visited t vs u
    → Visited s (v ∷ vs) u
Visited-cons s t u v vs p q = record {
  size = omega (arith, p.size, q.size);
  work = omega (arith, p.work, q.work);
  raised = λ w m.
      ⊎_elim (λ m'. ⊎_elim inl (λ one. inr (Memᴰ.head (Memᴰ.eq_of_singleton one))) (p.raised w m'))
        (λ m'. inr (Memᴰ.tail m')) (q.raised w m);
  kept = λ w m. q.kept w (p.kept w m);
  reached = λ w m.
      ⊎_elim (λ e. q.kept w (p.reached w (Memᴰ.head e))) (q.reached w) ((Mem-cons w v vs).0 m);
  queued = λ w m.
      ⊎_elim (λ m'. ⊎_elim inl (λ one. inr (Memᴰ.head (Memᴰ.eq_of_singleton one))) (p.queued w m'))
        (λ m'. inr (Memᴰ.tail m')) (q.queued w m);
  waiting = λ w m. q.waiting w (p.waiting w m);
  fresh = λ w m.
      ⊎_elim (λ m'. ⊎_elim inl (λ old. inr (q.waiting w old)) (p.fresh w m')) inr (q.fresh w m);
}

-- A raised flag and a push.
Visited-push :
    (s : Search) (v : ℕ)
    → get_elem? s.seen v ≡ some false
    → v < length s.seen
    → Visited s (v ∷ []) (record { seen = set s.seen v true; queue = s.queue ++ v ∷ [] })
Visited-push s v e h = record {
  size = length-set s.seen v true;
  work = omega (arith, unseen-set s.seen v e, length-append s.queue (v ∷ []));
  raised = λ w m. ⊎_elim inl (λ k. inr (Memᴰ.head k)) ((Marked-set s.seen v w h).0 m);
  kept = λ w m. (Marked-set s.seen v w h).1 (inl m);
  reached = λ w m. (Marked-set s.seen v w h).1 (inr (Memᴰ.eq_of_singleton m));
  queued = λ w m. ⊎_elim inl (λ k. inr (Memᴰ.head k)) ((Mem-snoc w v s.queue).0 m);
  waiting = λ w m. (Mem-snoc w v s.queue).1 (inl m);
  fresh = λ w m.
      ⊎_elim inl (λ k. inr ((Mem-snoc w v s.queue).1 (inr k))) ((Marked-set s.seen v w h).0 m);
}

-- A flag that is up already.
Visited-again : (s : Search) (v : ℕ) → Marked s.seen v → Visited s (v ∷ []) s
Visited-again s v e = record {
  size = refl;
  work = omega arith;
  raised = λ w m. inl m;
  kept = λ w m. m;
  reached = λ w m. let k : w ≡ v = Memᴰ.eq_of_singleton m in rw k e;
  queued = λ w m. inl m;
  waiting = λ w m. m;
  fresh = λ w m. inl m;
}

visit-Done : (s : Search) (v : ℕ) → v < length s.seen → Done s (v ∷ []) (visit s v)
unfolding visit
visit-Done s v h = elim (flag s.seen v h) [
  | up e ↦ record { after = s; result_is = rw (visit, e) refl; visited = Visited-again s v e }
  | down e ↦ record {
    after = record { seen = set s.seen v true; queue = s.queue ++ v ∷ [] };
    result_is = rw (visit, e) refl;
    visited = Visited-push s v e h;
  }
]

-- A row of vertices in range is scanned with no panic.
pub scan-Done :
    (n : ℕ) (s : Search) (vs : List ℕ)
    → length s.seen ≡ n
    → All (λ v. v < n) vs
    → Done s vs (scan s vs)
unfolding scan
scan-Done n s [] h a = record { after = s; result_is = refl; visited = Visited-none s }
scan-Done n s (v ∷ vs) h a =
    let first = visit-Done s v (rw h a.0) in
    let rest = scan-Done n first.after vs (omega (arith, first.visited.size)) a.1 in
    record {
      after = rest.after;
      result_is = rw (scan, first.result_is) rest.result_is;
      visited = Visited-cons s first.after rest.after v vs first.visited rest.visited;
    }
