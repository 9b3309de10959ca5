-- ===== src/Reach/Query/Laws.antt =====
-- The laws of a finished index that the query of Matrix/reach.cpp rests on, over the new ids 1 to `n`.
use mgtag.Prelude.{ℕ, ◌≤◌, ◌<◌, ◌≡◌, ◌⊎◌, Memᴰ, IsSorted}
use mgtag.Reach.Labels.{Labels, layer_of, tree_of, end_of, excp_of, cross_of}

abbrev pub IsId : ℕ → ℕ → Type 0
IsId n a = (1 ≤ a) × (a ≤ n)

-- `R a b`: the vertex of the new id `a` reaches that of `b`.
pub record IsIndex (lb : Labels) (n : ℕ) (R : ℕ → ℕ → Type 0) : Type 0 where
  pub trans : (a b c : ℕ) → R a b → R b c → R a c
  -- A path never leads to a smaller id or a lower layer, nor to another tree of the same layer.
  pub ascends : (a b : ℕ) → R a b → (a ≤ b) × (layer_of lb a ≤ layer_of lb b)
  pub stays : (a b : ℕ) → R a b → layer_of lb a ≡ layer_of lb b → tree_of lb a ≡ tree_of lb b
  -- Intervals of one tree nest only along a path.
  pub nested :
      (a b : ℕ)
      → IsId n a
      → IsId n b
      → tree_of lb a ≡ tree_of lb b
      → a ≤ b
      → end_of lb b ≤ end_of lb a
      → R a b
  -- The exceptions of `a` are reached in its tree, and account for all that its interval misses.
  pub excp_sound :
      (a e : ℕ)
      → IsId n a
      → Memᴰ e (excp_of lb a)
      → IsId n e × R a e × (tree_of lb e ≡ tree_of lb a)
  pub excp_complete :
      (a b : ℕ)
      → R a b
      → tree_of lb a ≡ tree_of lb b
      → (end_of lb b ≤ end_of lb a)
        ⊎ ((e : ℕ) × Memᴰ e (excp_of lb a) × (e ≤ b) × (end_of lb b ≤ end_of lb e))
  -- The entry points of `a` are reached in higher layers, and each path to one passes through one.
  pub cross_sound :
      (a c : ℕ)
      → IsId n a
      → Memᴰ c (cross_of lb a)
      → IsId n c × R a c × (layer_of lb a < layer_of lb c)
  pub cross_complete :
      (a b : ℕ) → R a b → layer_of lb a < layer_of lb b → (c : ℕ) × Memᴰ c (cross_of lb a) × R c b
  pub excp_sorted : (a : ℕ) → IsSorted (excp_of lb a)
  pub cross_sorted : (a : ℕ) → IsSorted (cross_of lb a)
