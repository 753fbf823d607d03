-- ===== src/Client/Interleaving/Invariant.antt =====
-- What every reachable state of the overlapping calls satisfies.
use waok8s.Prelude.{
  ℕ, ◌+◌, ◌≤◌, ◌<◌, ◌≡◌, refl, ◌∙◌, ◌⊎◌, inl, inr, true, false, Option, none, some, Text, lookup,
  insert, delete, text_eq, text_eq_iff, lookup-insert, lookup-delete, ◌==◌, ==_iff, suc, arith,
  Bool-cases,
}
use waok8s.Client.Interleaving.{Entry, Pc, State, Step, Reach, update, pushed, init}
use waok8s.Client.Interleaving.Step.{
  load_entry, load_nothing, wake_fresh, wake_stale, push, fill_ok, fill_err, drop, tick,
}

module _ {V : Type 0} (key_of : ℕ → Text) (ttl : ℕ) (Served : Text → V → Type 0) where
  -- What a thread may hold: entries made for its key, and values served for its key. A nil result
  -- without an error comes from an entry of the key whose request failed.
  abbrev pub PcInv : State V → ℕ → Pc V → Type 0
  PcInv s t Pc.start = Unit
  PcInv s t Pc.missed = Unit
  PcInv s t Pc.unfilled = Unit
  PcInv s t (Pc.waiting r) = (r < s.next) × ((s.heap r).key ≡ key_of t)
  PcInv s t (Pc.filling r) = (r < s.next) × ((s.heap r).key ≡ key_of t)
  PcInv s t (Pc.returned none) = Unit
  PcInv s t (Pc.returned (some none)) =
      (r : ℕ) × (r < s.next) × ((s.heap r).key ≡ key_of t) × ((s.heap r).failed ≡ true)
  PcInv s t (Pc.returned (some (some v))) = Served (key_of t) v

  -- An entry holds a value served for its key, or its request is under way or has failed.
  abbrev pub ValueInv : Entry V → Option V → Type 0
  ValueInv e none = (e.locked ≡ true) ⊎ (e.failed ≡ true)
  ValueInv e (some v) = Served e.key v

  pub record Inv (s : State V) : Type 0 where
    pub threads : (t : ℕ) → PcInv s t (s.pc t)
    pub entries : (r : ℕ) → r < s.next → ValueInv (s.heap r) (s.heap r).value
    pub cached :
        (k : Text) (r : ℕ) → lookup k s.cache ≡ some r → (r < s.next) × ((s.heap r).key ≡ k)

  -- No entry is lost, renamed or repaired.
  record Grows (s u : State V) : Type 0 where
    more : s.next ≤ u.next
    same_key : (r : ℕ) → r < s.next → (u.heap r).key ≡ (s.heap r).key
    still_failed : (r : ℕ) → r < s.next → (s.heap r).failed ≡ true → (u.heap r).failed ≡ true

  PcInv-mono : (s u : State V) → Grows s u → (t : ℕ) (p : Pc V) → PcInv s t p → PcInv u t p
  PcInv-mono s u g t Pc.start i = tt
  PcInv-mono s u g t Pc.missed i = tt
  PcInv-mono s u g t Pc.unfilled i = tt
  PcInv-mono s u g t (Pc.waiting r) (b, k) = (omega (arith, g.more), g.same_key r b ∙ k)
  PcInv-mono s u g t (Pc.filling r) (b, k) = (omega (arith, g.more), g.same_key r b ∙ k)
  PcInv-mono s u g t (Pc.returned none) i = tt
  PcInv-mono s u g t (Pc.returned (some none)) (r, b, k, f) =
      (r, omega (arith, g.more), g.same_key r b ∙ k, g.still_failed r b f)
  PcInv-mono s u g t (Pc.returned (some (some v))) i = i

  -- One thread moves, the others stay.
  threads_after :
      (s u : State V) (t : ℕ) (p : Pc V)
      → Grows s u
      → Inv s
      → PcInv u t p
      → (t' : ℕ) → PcInv u t' (update s.pc t p t')
  threads_after s u t p g inv here t' = elim (Bool-cases (t' == t)) [
    | inl e ↦ rw (e, (==_iff t' t).0 e) here
    | inr e ↦ rw e (PcInv-mono s u g t' (s.pc t') (inv.threads t'))
  ]

  -- A step that moves only one thread.
  only_pc :
      (s : State V) (t : ℕ) (p : Pc V)
      → Inv s
      → PcInv s t p
      → Inv (record s { pc = update s.pc t p })
  only_pc s t p inv here = record {
    threads =
        threads_after s (record s { pc = update s.pc t p }) t p
          (record { more = omega arith; same_key = λ r b. refl; still_failed = λ r b f. f }) inv
          here;
    entries = inv.entries;
    cached = inv.cached;
  }

  -- What a thread reads from an unlocked entry of its key.
  handed :
      (s : State V) (t r : ℕ) (o : Option V)
      → r < s.next
      → (s.heap r).key ≡ key_of t
      → (s.heap r).locked ≡ false
      → ValueInv (s.heap r) o
      → PcInv s t (Pc.returned (some o))
  handed s t r none b k l (inl e) = cc
  handed s t r none b k l (inr e) = (r, b, k, e)
  handed s t r (some v) b k l i = rw (← k) i

  push-Inv :
      (s : State V) (t : ℕ)
      → Inv s
      → Inv (record s {
        heap = update s.heap s.next (pushed (key_of t) (s.now + ttl));
        next = suc s.next;
        cache = insert (key_of t) s.next s.cache;
        pc = update s.pc t (Pc.filling s.next);
      })
  push-Inv s t inv = record {
    threads = threads_after s _ t _ grows inv (omega arith, ground arith);
    entries = λ r b. elim (Bool-cases (r == s.next)) [
      | inl e ↦ rw e (inl refl)
      | inr e ↦ rw e (inv.entries r (ground arith))
    ];
    cached = λ k r e. elim (Bool-cases (text_eq (key_of t) k)) [
      | inl q ↦
          let same : s.next ≡ r = ground (arith, lookup-insert (key_of t) k s.next s.cache) in
          let is_key = (text_eq_iff (key_of t) k).0 q in (omega arith, ground arith)
      | inr q ↦
          let (b, old) =
            inv.cached k r (ground (arith, lookup-insert (key_of t) k s.next s.cache)) in
          (omega arith, ground arith)
    ];
  }
    where
      grows : Grows s (record s {
        heap = update s.heap s.next (pushed (key_of t) (s.now + ttl));
        next = suc s.next;
        cache = insert (key_of t) s.next s.cache;
        pc = update s.pc t (Pc.filling s.next);
      })
      grows = record {
        more = omega arith;
        same_key = λ r b. ground arith;
        still_failed = λ r b f. ground arith;
      }

  fill_ok-Inv :
      (s : State V) (t r : ℕ) (v : V)
      → r < s.next
      → (s.heap r).key ≡ key_of t
      → Served (key_of t) v
      → Inv s
      → Inv (record s {
        heap = update s.heap r (record (s.heap r) { value = some v; locked = false });
        cache = insert (key_of t) r s.cache;
        pc = update s.pc t (Pc.returned (some (some v)));
      })
  fill_ok-Inv s t r v b k served inv = record {
    threads = threads_after s _ t _ grows inv served;
    entries = λ q c. elim (Bool-cases (q == r)) [
      | inl e ↦ rw (e, k) served
      | inr e ↦ rw e (inv.entries q c)
    ];
    cached = λ j q e. elim (Bool-cases (text_eq (key_of t) j)) [
      | inl same ↦
          let at : r ≡ q = ground (arith, lookup-insert (key_of t) j r s.cache) in
          let is_key = (text_eq_iff (key_of t) j).0 same in (omega arith, ground arith)
      | inr other ↦
          let (c, old) = inv.cached j q (ground (arith, lookup-insert (key_of t) j r s.cache)) in
          (c, ground arith)
    ];
  }
    where
      grows : Grows s (record s {
        heap = update s.heap r (record (s.heap r) { value = some v; locked = false });
        cache = insert (key_of t) r s.cache;
        pc = update s.pc t (Pc.returned (some (some v)));
      })
      grows = record {
        more = omega arith;
        same_key = λ q c. ground arith;
        still_failed = λ q c f. ground arith;
      }

  fill_err-Inv :
      (s : State V) (t r : ℕ)
      → Inv s
      → Inv (record s {
        heap = update s.heap r (record (s.heap r) { locked = false; failed = true });
        pc = update s.pc t Pc.unfilled;
      })
  fill_err-Inv s t r inv = record {
    threads = threads_after s _ t _ grows inv tt;
    entries = λ q c. elim (Bool-cases (q == r)) [
      | inl e ↦
          rw e (failing (s.heap r) (s.heap r).value (rw ((==_iff q r).0 e) at (inv.entries q c)))
      | inr e ↦ rw e (inv.entries q c)
    ];
    cached = λ j q e. let (c, old) = inv.cached j q e in (c, ground arith);
  }
    where
      failing :
          (e : Entry V) (o : Option V)
          → ValueInv e o
          → ValueInv (record e { locked = false; failed = true }) o
      failing e none i = inr refl
      failing e (some v) i = i

      grows : Grows s (record s {
        heap = update s.heap r (record (s.heap r) { locked = false; failed = true });
        pc = update s.pc t Pc.unfilled;
      })
      grows = record {
        more = omega arith;
        same_key = λ q c. ground arith;
        still_failed = λ q c f. ground arith;
      }

  drop-Inv :
      (s : State V) (t : ℕ)
      → Inv s
      → Inv (record s { cache = delete (key_of t) s.cache; pc = update s.pc t (Pc.returned none) })
  drop-Inv s t inv = record {
    threads =
        threads_after s
          (record s { cache = delete (key_of t) s.cache; pc = update s.pc t (Pc.returned none) }) t
          _ (record { more = omega arith; same_key = λ r b. refl; still_failed = λ r b f. f }) inv
          tt;
    entries = inv.entries;
    cached = λ j q e. inv.cached j q (ground (arith, lookup-delete (key_of t) j s.cache));
  }

  pub Step-Inv : {s u : State V} → Step key_of ttl Served s u → Inv s → Inv u
  Step-Inv {s} (load_entry t r e l) inv = only_pc s t (Pc.waiting r) inv (inv.cached (key_of t) r l)
  Step-Inv {s} (load_nothing t e l) inv = only_pc s t Pc.missed inv tt
  Step-Inv {s} (wake_fresh t r e l f) inv =
      let (b, k) = rw e at (inv.threads t) in
      only_pc s t _ inv (handed s t r (s.heap r).value b k l (inv.entries r b))
  Step-Inv {s} (wake_stale t r e l f) inv = only_pc s t Pc.missed inv tt
  Step-Inv {s} (push t e) inv = push-Inv s t inv
  Step-Inv {s} (fill_ok t r v e served) inv =
      let (b, k) = rw e at (inv.threads t) in fill_ok-Inv s t r v b k served inv
  Step-Inv {s} (fill_err t r e) inv = fill_err-Inv s t r inv
  Step-Inv {s} (drop t e) inv = drop-Inv s t inv
  Step-Inv {s} tick inv = record {
    threads = λ t.
        PcInv-mono s (record s { now = suc s.now })
          (record { more = omega arith; same_key = λ r b. refl; still_failed = λ r b f. f }) t
          (s.pc t) (inv.threads t);
    entries = inv.entries;
    cached = inv.cached;
  }

  pub Reach-Inv : {s u : State V} → Inv s → Reach key_of ttl Served s u → Inv u
  Reach-Inv h Reach.stay = h
  Reach-Inv h (Reach.then_step r st) = Step-Inv st (Reach-Inv h r)

  pub init-Inv : (now : ℕ) → Inv (init now)
  unfolding lookup
  init-Inv now = record {
    threads = λ t. tt;
    entries = λ r b. elim b [ ];
    cached = λ k r e. absurd (ground arith);
  }
