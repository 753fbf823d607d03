-- ===== src/Client/Interleaving/Liveness.antt =====
-- No call hangs: whoever waits for an entry waits for a thread that fills it.
use waok8s.Prelude.{
  ℕ, ◌<◌, ◌≡◌, refl, ◌≢◌, inl, inr, true, false, Option, none, some, Text, lookup, ◌==◌, arith,
  Bool-cases, Option-cases, ltb,
}
use waok8s.Client.Interleaving.{Pc, State, Step, Reach, update, init}
use waok8s.Client.Interleaving.Step.{
  load_entry, load_nothing, wake_fresh, wake_stale, push, fill_ok, fill_err, drop, tick,
}
use waok8s.Client.Interleaving.Reach.{stay, then_step}
use waok8s.Client.Interleaving.Invariant.{Inv, Step-Inv, Reach-Inv, init-Inv}

-- A locked entry is being filled by some thread.
abbrev pub Locked : {V : Type 0} → State V → Type 0
Locked s = (r : ℕ) → r < s.next → (s.heap r).locked ≡ true → (t : ℕ) × (s.pc t ≡ Pc.filling r)

module _ {V : Type 0} (key_of : ℕ → Text) (ttl : ℕ) (Served : Text → V → Type 0) where
  -- A thread that fills nothing moves, and no entry changes.
  pc_moves :
      (s : State V) (t : ℕ) (p : Pc V)
      → ((r : ℕ) → s.pc t ≢ Pc.filling r)
      → Locked s
      → Locked (record s { pc = update s.pc t p })
  pc_moves s t p other h r b l = let (holder, e) = h r b l in (holder, ground (arith, e, other r))

  Step-Locked : {s u : State V} → Step key_of ttl Served s u → Locked s → Locked u
  Step-Locked {s} (load_entry t r e l) h =
      pc_moves s t (Pc.waiting r) (λ q f. absurd (ground (arith, e, f))) h
  Step-Locked {s} (load_nothing t e l) h =
      pc_moves s t Pc.missed (λ q f. absurd (ground (arith, e, f))) h
  Step-Locked {s} (wake_fresh t r e l f) h = pc_moves s t _ (λ q g. absurd (ground (arith, e, g))) h
  Step-Locked {s} (wake_stale t r e l f) h =
      pc_moves s t Pc.missed (λ q g. absurd (ground (arith, e, g))) h
  Step-Locked {s} (push t e) h = λ r b l. elim (Bool-cases (r == s.next)) [
    | inl q ↦ (t, ground arith)
    | inr q ↦ let (holder, f) = h r (ground arith) (ground arith) in (holder, ground (arith, e, f))
  ]
  Step-Locked {s} (fill_ok t r v e served) h = λ q b l. elim (Bool-cases (q == r)) [
    | inl same ↦ absurd (ground (arith, same, l))
    | inr other ↦
        let (holder, f) = h q b (ground (arith, l, other)) in (holder, ground (arith, e, f, other))
  ]
  Step-Locked {s} (fill_err t r e) h = λ q b l. elim (Bool-cases (q == r)) [
    | inl same ↦ absurd (ground (arith, same, l))
    | inr other ↦
        let (holder, f) = h q b (ground (arith, l, other)) in (holder, ground (arith, e, f, other))
  ]
  Step-Locked {s} (drop t e) h =
      pc_moves s t (Pc.returned none) (λ q f. absurd (ground (arith, e, f))) h
  Step-Locked {s} tick h = h

  Reach-Locked : {s u : State V} → Locked s → Reach key_of ttl Served s u → Locked u
  Reach-Locked h Reach.stay = h
  Reach-Locked h (Reach.then_step r st) = Step-Locked st (Reach-Locked h r)

  Reach-prepend :
      {s u v : State V}
      → Step key_of ttl Served s u
      → Reach key_of ttl Served u v
      → Reach key_of ttl Served s v
  Reach-prepend st Reach.stay = then_step stay st
  Reach-prepend st (Reach.then_step r last) = then_step (Reach-prepend st r) last

  -- The call of thread `t` can come to its end.
  abbrev pub CanReturn : State V → ℕ → Type 0
  CanReturn s t =
      (u : State V) × Reach key_of ttl Served s u
      × ((o : Option (Option V)) × (u.pc t ≡ Pc.returned o))

  after : {s u : State V} (t : ℕ) → Step key_of ttl Served s u → CanReturn u t → CanReturn s t
  after t st (v, r, ended) = (v, Reach-prepend st r, ended)

  from_unfilled : (s : State V) (t : ℕ) → s.pc t ≡ Pc.unfilled → CanReturn s t
  from_unfilled s t e = after t (drop t e) (_, stay, (none, ground arith))

  from_filling : (s : State V) (t r : ℕ) → s.pc t ≡ Pc.filling r → CanReturn s t
  from_filling s t r e = after t (fill_err t r e) (from_unfilled _ t (ground arith))

  from_missed : (s : State V) (t : ℕ) → s.pc t ≡ Pc.missed → CanReturn s t
  from_missed s t e = after t (push t e) (from_filling _ t s.next (ground arith))

  from_unlocked :
      (s : State V) (t r : ℕ) → s.pc t ≡ Pc.waiting r → (s.heap r).locked ≡ false → CanReturn s t
  from_unlocked s t r e l = elim (Bool-cases (ltb s.now (s.heap r).expired_at)) [
    | inl fresh ↦
        after t (wake_fresh t r e l (ground (arith, fresh)))
          (_, stay, (some (s.heap r).value, ground arith))
    | inr stale ↦
        after t (wake_stale t r e l (ground (arith, stale))) (from_missed _ t (ground arith))
  ]

  from_waiting :
      (s : State V) (t r : ℕ)
      → Inv key_of ttl Served s
      → Locked s
      → s.pc t ≡ Pc.waiting r
      → CanReturn s t
  from_waiting s t r inv h e = elim (Bool-cases (s.heap r).locked) [
    | inr l ↦ from_unlocked s t r e l
    | inl l ↦
        let (b, k) = rw e at (inv.threads t) in
        let (holder, f) = h r b l in
        after t (fill_err holder r f) (from_unlocked _ t r (ground (arith, e, f)) (ground arith))
  ]

  from_start :
      (s : State V) (t : ℕ) → Inv key_of ttl Served s → Locked s → s.pc t ≡ Pc.start → CanReturn s t
  from_start s t inv h e = elim (Option-cases (lookup (key_of t) s.cache)) [
    | inl miss ↦ after t (load_nothing t e miss) (from_missed _ t (ground arith))
    | inr (r, hit) ↦
        let st = load_entry t r e hit in
        after t st
          (from_waiting _ t r (Step-Inv key_of ttl Served st inv) (Step-Locked st h) (ground arith))
  ]

  from_any :
      (s : State V) (t : ℕ) (p : Pc V)
      → Inv key_of ttl Served s
      → Locked s
      → s.pc t ≡ p
      → CanReturn s t
  from_any s t Pc.start inv h e = from_start s t inv h e
  from_any s t (Pc.waiting r) inv h e = from_waiting s t r inv h e
  from_any s t Pc.missed inv h e = from_missed s t e
  from_any s t (Pc.filling r) inv h e = from_filling s t r e
  from_any s t Pc.unfilled inv h e = from_unfilled s t e
  from_any s t (Pc.returned o) inv h e = (s, stay, (o, e))

  init-Locked : (now : ℕ) → Locked {V = V} (init now)
  init-Locked now r b l = elim b [ ]

  -- No call hangs: from each state that overlapping calls reach from an empty cache, each call can come
  -- to its end, whatever entries it waits for.
  pub call_returns :
      (now : ℕ) (s : State V) (t : ℕ) → Reach key_of ttl Served (init now) s → CanReturn s t
  call_returns now s t r =
      from_any s t (s.pc t) (Reach-Inv key_of ttl Served (init-Inv key_of ttl Served now) r)
        (Reach-Locked (init-Locked now) r) refl
