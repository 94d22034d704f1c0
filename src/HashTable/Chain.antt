-- ===== src/HashTable/Chain.antt =====
-- One bucket of the hash table: the list of nodes, and the loops over it.
use smartbackup_fs.Base.{
  ℕ, ◌+◌, ◌≤◌, ◌≡◌, refl, Option, none, some, List, [], ◌∷◌, arith, length, ◌==◌, if◌then◌else◌,
}
use mathlib.Core.Option

-- `hash_node_t`; `next` is the rest of the list
pub record Node {ℓ} (V : Type ℓ) : Type ℓ where
  pub key : ℕ
  pub value : V
  pub access_time : ℕ

module _ {ℓ} {V : Type ℓ} where
  -- the loop `while (node)` up to the node with the key
  unfoldable pub find_node : ℕ → List (Node V) → Option (Node V)
  find_node k [] = none
  find_node k (n ∷ c) = if n.key == k then some n else find_node k c

  unfoldable pub assign : ℕ → V → ℕ → List (Node V) → List (Node V)
  assign k v now [] = []
  assign k v now (n ∷ c) =
      if n.key == k then record n { value = v; access_time = now } ∷ c else n ∷ assign k v now c

  abbrev pub push : ℕ → V → ℕ → List (Node V) → List (Node V)
  push k v now c = record { key = k; value = v; access_time = now } ∷ c

  unfoldable pub touch : ℕ → ℕ → List (Node V) → List (Node V)
  touch k now [] = []
  touch k now (n ∷ c) = if n.key == k then record n { access_time = now } ∷ c else n ∷ touch k now c

  unfoldable pub erase : ℕ → List (Node V) → List (Node V)
  erase k [] = []
  erase k (n ∷ c) = if n.key == k then c else n ∷ erase k c

  -- what a bucket holds under a key, and how often
  unfoldable pub value_of : ℕ → List (Node V) → Option V
  value_of k [] = none
  value_of k (n ∷ c) = if n.key == k then some n.value else value_of k c

  unfoldable pub occurs : ℕ → List (Node V) → ℕ
  occurs k [] = 0
  occurs k (n ∷ c) = (if n.key == k then 1 else 0) + occurs k c

  pub value_of-find_node :
      (k : ℕ) (c : List (Node V)) → value_of k c ≡ Option.map (λ n. n.value) (find_node k c)
  unfolding value_of find_node
  value_of-find_node k [] = refl
  value_of-find_node k (n ∷ c) = ground (arith, value_of-find_node k c)

  pub find_node-key : (k : ℕ) (c : List (Node V)) (n : Node V) → find_node k c ≡ some n → n.key ≡ k
  unfolding find_node
  find_node-key k [] n h = ground arith
  find_node-key k (m ∷ c) n h = ground (arith, find_node-key k c n)

  pub occurs-none : (k : ℕ) (c : List (Node V)) → find_node k c ≡ none → occurs k c ≡ 0
  unfolding occurs find_node
  occurs-none k [] h = refl
  occurs-none k (n ∷ c) h = ground (arith, occurs-none k c)

  pub value_of-occurs : (k : ℕ) (c : List (Node V)) → occurs k c ≡ 0 → value_of k c ≡ none
  unfolding occurs value_of
  value_of-occurs k [] h = refl
  value_of-occurs k (n ∷ c) h = ground (arith, value_of-occurs k c)

  pub value_of-assign :
      (k q : ℕ) (v : V) (now : ℕ) (c : List (Node V)) (n : Node V)
      → find_node k c ≡ some n
      → value_of q (assign k v now c) ≡ (if q == k then some v else value_of q c)
  unfolding value_of assign find_node
  value_of-assign k q v now [] n h = ground arith
  value_of-assign k q v now (m ∷ c) n h = ground (arith, value_of-assign k q v now c n)

  pub occurs-assign :
      (k q : ℕ) (v : V) (now : ℕ) (c : List (Node V)) → occurs q (assign k v now c) ≡ occurs q c
  unfolding occurs assign
  occurs-assign k q v now [] = refl
  occurs-assign k q v now (m ∷ c) = ground (arith, occurs-assign k q v now c)

  pub length-assign :
      (k : ℕ) (v : V) (now : ℕ) (c : List (Node V)) → length (assign k v now c) ≡ length c
  unfolding assign
  length-assign k v now [] = refl
  length-assign k v now (m ∷ c) = ground (arith, length-assign k v now c)

  pub value_of-touch : (k q now : ℕ) (c : List (Node V)) → value_of q (touch k now c) ≡ value_of q c
  unfolding value_of touch
  value_of-touch k q now [] = refl
  value_of-touch k q now (m ∷ c) = ground (arith, value_of-touch k q now c)

  pub occurs-touch : (k q now : ℕ) (c : List (Node V)) → occurs q (touch k now c) ≡ occurs q c
  unfolding occurs touch
  occurs-touch k q now [] = refl
  occurs-touch k q now (m ∷ c) = ground (arith, occurs-touch k q now c)

  pub length-touch : (k now : ℕ) (c : List (Node V)) → length (touch k now c) ≡ length c
  unfolding touch
  length-touch k now [] = refl
  length-touch k now (m ∷ c) = ground (arith, length-touch k now c)

  pub value_of-erase :
      (k q : ℕ) (c : List (Node V))
      → occurs k c ≤ 1
      → value_of q (erase k c) ≡ (if q == k then none else value_of q c)
  unfolding value_of erase occurs
  value_of-erase k q [] h = ground arith
  value_of-erase k q (m ∷ c) h = ground (arith, value_of-erase k q c, value_of-occurs k c)

  pub occurs-erase-le : (k q : ℕ) (c : List (Node V)) → occurs q (erase k c) ≤ occurs q c
  unfolding occurs erase
  occurs-erase-le k q [] = omega arith
  occurs-erase-le k q (m ∷ c) = ground (arith, occurs-erase-le k q c)

  pub length-erase :
      (k : ℕ) (c : List (Node V)) (n : Node V)
      → find_node k c ≡ some n
      → length (erase k c) + 1 ≡ length c
  unfolding erase find_node
  length-erase k [] n h = ground arith
  length-erase k (m ∷ c) n h = ground (arith, length-erase k c n)

  pub occurs-push :
      (k q : ℕ) (v : V) (now : ℕ) (c : List (Node V))
      → find_node k c ≡ none
      → occurs q (push k v now c) ≤ (if q == k then 1 else occurs q c)
  unfolding occurs
  occurs-push k q v now c h = ground (arith, occurs-none k c)

  pub value_of-push :
      (k q : ℕ) (v : V) (now : ℕ) (c : List (Node V))
      → value_of q (push k v now c) ≡ (if q == k then some v else value_of q c)
  unfolding value_of
  value_of-push k q v now c = ground arith

  -- a bucket that changes no count keeps the bound on the count of one key
  pub occurs_kept :
      (k q : ℕ) (c d : List (Node V))
      → occurs q d ≤ occurs q c
      → occurs k c ≤ 1
      → occurs q d ≤ (if q == k then 1 else occurs q c)
  occurs_kept k q c d le one = ground arith
