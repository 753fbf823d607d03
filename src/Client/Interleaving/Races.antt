-- ===== src/Client/Interleaving/Races.antt =====
-- Two interleavings that the protocol does not rule out.
use waok8s.Prelude.{
  ℕ, ◌+◌, ◌<◌, ◌≡◌, ◌≢◌, true, false, none, some, Text, lookup, insert, lookup-insert_self, suc,
  arith,
}
use waok8s.Client.Interleaving.{Pc, State, Step, Reach, update, pushed}
use waok8s.Client.Interleaving.Reach.{stay, then_step}
use waok8s.Client.Interleaving.Step.{load_entry, load_nothing, wake_fresh, push, fill_err}

update_ne {ℓ} : {A : Type ℓ} (f : ℕ → A) (n m : ℕ) (a : A) → m ≢ n → update f n a m ≡ f m
update_ne f n m a h = ground arith

update_self {ℓ} : {A : Type ℓ} (f : ℕ → A) (n : ℕ) (a : A) → update f n a n ≡ a
update_self f n a = ground arith

module _ {V : Type 0} (key_of : ℕ → Text) (ttl : ℕ) (Served : Text → V → Type 0) where
  -- Whenever two calls for a key that is not cached are about to begin, and entries live for some time,
  -- they can overlap so that the first one's request fails and the second one returns nil without an
  -- error.
  pub nil_without_error :
      (s : State V) (a b : ℕ)
      → a ≢ b
      → key_of a ≡ key_of b
      → 0 < ttl
      → s.pc a ≡ Pc.start
      → s.pc b ≡ Pc.start
      → lookup (key_of a) s.cache ≡ none
      → (u : State V) × Reach key_of ttl Served s u × (u.pc b ≡ Pc.returned (some none))
  nil_without_error s a b ne same pos ea eb miss = (
    s5,
    then_step (then_step (then_step (then_step (then_step stay step1) step2) step3) step4) step5,
    ground arith,
  )
    where
      s1 : State V
      s1 = record s { pc = update s.pc a Pc.missed }

      step1 : Step key_of ttl Served s s1
      step1 = load_nothing a ea miss

      s2 : State V
      s2 = record s1 {
        heap = update s1.heap s1.next (pushed (key_of a) (s1.now + ttl));
        next = suc s1.next;
        cache = insert (key_of a) s1.next s1.cache;
        pc = update s1.pc a (Pc.filling s1.next);
      }

      step2 : Step key_of ttl Served s1 s2
      step2 = push a (update_self s.pc a Pc.missed)

      s3 : State V
      s3 = record s2 { pc = update s2.pc b (Pc.waiting s.next) }

      step3 : Step key_of ttl Served s2 s3
      step3 =
          load_entry b s.next (ground arith)
            (rw (← same) (lookup-insert_self (key_of a) s.next s.cache))

      s4 : State V
      s4 = record s3 {
        heap = update s3.heap s.next (record (s3.heap s.next) { locked = false; failed = true });
        pc = update s3.pc a Pc.unfilled;
      }

      step4 : Step key_of ttl Served s3 s4
      step4 = fill_err a s.next (ground arith)

      s5 : State V
      s5 = record s4 { pc = update s4.pc b (Pc.returned (some (s4.heap s.next).value)) }

      step5 : Step key_of ttl Served s4 s5
      step5 = wake_fresh b s.next (ground arith) (ground arith) (ground arith)

  -- Whenever two calls for a key that is not cached are about to begin, they can overlap so that both
  -- have requests under way.
  two_requests :
      (s : State V) (a b : ℕ)
      → a ≢ b
      → key_of a ≡ key_of b
      → s.pc a ≡ Pc.start
      → s.pc b ≡ Pc.start
      → lookup (key_of a) s.cache ≡ none
      → (u : State V) × Reach key_of ttl Served s u
        × (q r : ℕ) × (u.pc a ≡ Pc.filling q)
        × (u.pc b ≡ Pc.filling r)
  two_requests s a b ne same ea eb miss = (
    s4,
    then_step (then_step (then_step (then_step stay step1) step2) step3) step4,
    s.next,
    suc s.next,
    ground arith,
    ground arith,
  )
    where
      s1 : State V
      s1 = record s { pc = update s.pc a Pc.missed }

      step1 : Step key_of ttl Served s s1
      step1 = load_nothing a ea miss

      s2 : State V
      s2 = record s1 { pc = update s1.pc b Pc.missed }

      step2 : Step key_of ttl Served s1 s2
      step2 = load_nothing b (ground arith) (rw (← same) miss)

      s3 : State V
      s3 = record s2 {
        heap = update s2.heap s2.next (pushed (key_of a) (s2.now + ttl));
        next = suc s2.next;
        cache = insert (key_of a) s2.next s2.cache;
        pc = update s2.pc a (Pc.filling s2.next);
      }

      step3 : Step key_of ttl Served s2 s3
      step3 = push a (ground arith)

      s4 : State V
      s4 = record s3 {
        heap = update s3.heap s3.next (pushed (key_of b) (s3.now + ttl));
        next = suc s3.next;
        cache = insert (key_of b) s3.next s3.cache;
        pc = update s3.pc b (Pc.filling s3.next);
      }

      step4 : Step key_of ttl Served s3 s4
      step4 = push b (ground arith)
