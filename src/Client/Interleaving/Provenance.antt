-- ===== src/Client/Interleaving/Provenance.antt =====
-- What an overlapping call returns, and what that says of the requests that were made.
use waok8s.Prelude.{ℕ, ◌<◌, ◌≡◌, true, none, some, Text}
use waok8s.Client.Interleaving.{Pc, State, Reach, init}
use waok8s.Client.Interleaving.Invariant.{Reach-Inv, init-Inv}

module _ {V : Type 0} (key_of : ℕ → Text) (ttl : ℕ) (Served : Text → V → Type 0) where
  -- In every interleaving that starts with an empty cache, a value that a call returns is one that the
  -- origin has served for the key of that call.
  pub returned_served :
      (now : ℕ) (s : State V) (t : ℕ) (v : V)
      → Reach key_of ttl Served (init now) s
      → s.pc t ≡ Pc.returned (some (some v))
      → Served (key_of t) v
  returned_served now s t v r e =
      rw e at ((Reach-Inv key_of ttl Served (init-Inv key_of ttl Served now) r).threads t)

  -- In every such interleaving, a call that returns nil without an error has read an entry of its key
  -- whose request failed.
  pub returned_nil :
      (now : ℕ) (s : State V) (t : ℕ)
      → Reach key_of ttl Served (init now) s
      → s.pc t ≡ Pc.returned (some none)
      → (r : ℕ) × (r < s.next) × ((s.heap r).key ≡ key_of t) × ((s.heap r).failed ≡ true)
  returned_nil now s t r e =
      rw e at ((Reach-Inv key_of ttl Served (init-Inv key_of ttl Served now) r).threads t)
