-- ===== src/Client/Interleaving.antt =====
-- wao-metrics-adapter/pkg/client/metrics.go: calls of CachedMetricsClient.get that overlap, as steps
-- of threads on shared entries. (CachedPredictorClient.do of predictor.go has the same protocol.)
-- A step ends where another thread may see its effect: at a Load, Store or Delete of the map, and at
-- the release of an entry's mutex. Each thread makes one call.
pub mod Invariant
pub mod Provenance
pub mod Races
pub mod Liveness
use waok8s.Prelude.{
  ℕ, ◌+◌, ◌≤◌, ◌<◌, ◌≡◌, Bool, true, false, List, [], Option, none, some, Text, Dict, lookup,
  insert, delete, ◌==◌, if◌then◌else◌, suc,
}

-- `metricsCache`, with two fields that the program has not: the key that it was made for, and
-- whether the request that was to fill it has failed.
pub record Entry (V : Type 0) : Type 0 where
  pub value : Option V
  pub expired_at : ℕ
  pub locked : Bool
  pub key : Text
  pub failed : Bool

-- Where a thread stands in `get`. Entries are named by numbers, as pointers.
-- `returned none` is an error; `returned (some r)` is `r` without an error, nil if `r` is `none`.
pub data Pc (V : Type 0) : Type 0 where
  start : Pc V
  waiting : ℕ → Pc V
  missed : Pc V
  filling : ℕ → Pc V
  unfilled : Pc V
  returned : Option (Option V) → Pc V

pub record State (V : Type 0) : Type 0 where
  pub heap : ℕ → Entry V
  pub next : ℕ
  pub cache : Dict ℕ
  pub pc : ℕ → Pc V
  pub now : ℕ

abbrev pub update {ℓ} : {A : Type ℓ} → (ℕ → A) → ℕ → A → ℕ → A
update f n a m = if m == n then a else f m

abbrev pub pushed : {V : Type 0} → Text → ℕ → Entry V
pushed key expired_at = record {
  value = none;
  expired_at = expired_at;
  locked = true;
  key = key;
  failed = false;
}

-- `key_of t` is the key that thread `t` asks for; `Served k v` says that the origin has answered `v`
-- for the key `k`.
module _ {V : Type 0} (key_of : ℕ → Text) (ttl : ℕ) (Served : Text → V → Type 0) where
  pub data Step (s : State V) : State V → Type 0 where
    -- `c.cache.Load`
    load_entry :
        (t r : ℕ)
        → s.pc t ≡ Pc.start
        → lookup (key_of t) s.cache ≡ some r
        → Step s (record s { pc = update s.pc t (Pc.waiting r) })
    load_nothing :
        (t : ℕ)
        → s.pc t ≡ Pc.start
        → lookup (key_of t) s.cache ≡ none
        → Step s (record s { pc = update s.pc t Pc.missed })
    -- `cv.mu.Lock`, `cv.mu.Unlock` and the test of the expiry
    wake_fresh :
        (t r : ℕ)
        → s.pc t ≡ Pc.waiting r
        → (s.heap r).locked ≡ false
        → s.now < (s.heap r).expired_at
        → Step s (record s { pc = update s.pc t (Pc.returned (some (s.heap r).value)) })
    wake_stale :
        (t r : ℕ)
        → s.pc t ≡ Pc.waiting r
        → (s.heap r).locked ≡ false
        → (s.heap r).expired_at ≤ s.now
        → Step s (record s { pc = update s.pc t Pc.missed })
    -- the empty entry, locked, and `c.cache.Store`
    push :
        (t : ℕ)
        → s.pc t ≡ Pc.missed
        → Step s (record s {
          heap = update s.heap s.next (pushed (key_of t) (s.now + ttl));
          next = suc s.next;
          cache = insert (key_of t) s.next s.cache;
          pc = update s.pc t (Pc.filling s.next);
        })
    -- the request succeeds: the value, `c.cache.Store`, `cv.mu.Unlock`
    fill_ok :
        (t r : ℕ) (v : V)
        → s.pc t ≡ Pc.filling r
        → Served (key_of t) v
        → Step s (record s {
          heap = update s.heap r (record (s.heap r) { value = some v; locked = false });
          cache = insert (key_of t) r s.cache;
          pc = update s.pc t (Pc.returned (some (some v)));
        })
    -- the request fails: `cv.mu.Unlock`, and then `c.cache.Delete`
    fill_err :
        (t r : ℕ)
        → s.pc t ≡ Pc.filling r
        → Step s (record s {
          heap = update s.heap r (record (s.heap r) { locked = false; failed = true });
          pc = update s.pc t Pc.unfilled;
        })
    drop :
        (t : ℕ)
        → s.pc t ≡ Pc.unfilled
        → Step s
            (record s { cache = delete (key_of t) s.cache; pc = update s.pc t (Pc.returned none) })
    tick : Step s (record s { now = suc s.now })

  pub data Reach (s : State V) : State V → Type 0 where
    stay : Reach s s
    then_step : {u v : State V} → Reach s u → Step u v → Reach s v

-- Nothing is cached and no thread has begun.
abbrev pub init : {V : Type 0} → ℕ → State V
init now = record { heap = λ r. pushed [] 0; next = 0; cache = []; pc = λ t. Pc.start; now = now }
