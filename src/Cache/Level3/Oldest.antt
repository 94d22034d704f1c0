-- ===== src/Cache/Level3/Oldest.antt =====
-- The search for the oldest entry of the third level.
use smartbackup_fs.Base.{
  ℕ, suc, ◌≤◌, ◌<◌, ◌≡◌, ◌≢◌, refl, sym, ap, ◌∙◌, none, some, List, [], ◌∷◌, ◌++◌, length,
  length-append, get_or, ltb, ◌==◌, ◌⊎◌, inl, inr, Bool-cases, arith,
}
use smartbackup_fs.HashTable.{Table, hash_function}
use smartbackup_fs.HashTable.Chain.{Node, occurs, value_of}
use smartbackup_fs.HashTable.Buckets.{total, IsValid, view}
use smartbackup_fs.Cache.Level3.{L3Entry, all_nodes, older, find_oldest}

unfoldable In : Node L3Entry → List (Node L3Entry) → Type 0
In n [] = ⊥
In n (m ∷ c) = (m ≡ n) ⊎ In n c

In-append : (n : Node L3Entry) (xs ys : List (Node L3Entry)) → In n (xs ++ ys) → In n xs ⊎ In n ys
unfolding In
In-append n [] ys h = inr h
In-append n (x ∷ xs) ys (inl e) = inl (inl e)
In-append n (x ∷ xs) ys (inr h) = elim (In-append n xs ys h) [ inl l ↦ inl (inr l) | inr r ↦ inr r ]

-- a node of all stands in a bucket
In-all_nodes :
    (n : Node L3Entry) (bs : List (List (Node L3Entry)))
    → In n (all_nodes bs)
    → (i : ℕ) × In n (get_or bs i [])
unfolding all_nodes In
In-all_nodes n [] h = absurd h
In-all_nodes n (b ∷ bs) h = elim (In-append n b (all_nodes bs) h) [
  | inl here ↦ (0, here)
  | inr below ↦ (let (i, held) = In-all_nodes n bs below in (suc i, held))
]

In-occurs : (n : Node L3Entry) (c : List (Node L3Entry)) → In n c → 0 < occurs n.key c
unfolding In occurs
In-occurs n [] h = absurd h
In-occurs n (m ∷ c) (inl e) = let same : m.key ≡ n.key = ap (λ x. x.key) e in ground arith
In-occurs n (m ∷ c) (inr h) = omega (arith, In-occurs n c h)

In-value_of :
    (n : Node L3Entry) (c : List (Node L3Entry))
    → In n c
    → occurs n.key c ≤ 1
    → value_of n.key c ≡ some n.value
unfolding In occurs value_of
In-value_of n [] h one = absurd h
In-value_of n (m ∷ c) (inl e) one =
    let same : m.key ≡ n.key = ap (λ x. x.key) e in
    let held : some m.value ≡ some n.value = ap (λ x. some x.value) e in ground (arith, held)
In-value_of n (m ∷ c) (inr h) one = ground (arith, In-occurs n c h, In-value_of n c h)

-- the entry that the search ends with
find_oldest-In :
    (o e : L3Entry) (ns : List (Node L3Entry))
    → find_oldest (some o) ns ≡ some e
    → (o ≡ e) ⊎ ((n : Node L3Entry) × (In n ns × (n.value ≡ e)))
unfolding find_oldest In
find_oldest-In o e [] h = inl (cc)
find_oldest-In o e (n ∷ ns) h = elim (find_oldest-In (older (some o) n.value) e ns h) [
  | inr (m, (held, same)) ↦ inr (m, (inr held, same))
  | inl same ↦ elim (Bool-cases (ltb n.value.last_access o.last_access)) [
    | inl newer ↦ inr (n, (inl refl, rw (sym same, newer) refl))
    | inr kept ↦ inl (sym (rw kept refl) ∙ same)
  ]
]

find_oldest-some : (o : L3Entry) (ns : List (Node L3Entry)) → find_oldest (some o) ns ≢ none
unfolding find_oldest
find_oldest-some o [] h = absurd (cc)
find_oldest-some o (n ∷ ns) h = find_oldest-some (older (some o) n.value) ns h

oldest-In :
    (e : L3Entry) (ns : List (Node L3Entry))
    → find_oldest none ns ≡ some e
    → (n : Node L3Entry) × (In n ns × (n.value ≡ e))
unfolding find_oldest In
oldest-In e [] h = absurd (cc)
oldest-In e (n ∷ ns) h = elim (find_oldest-In n.value e ns h) [
  | inl same ↦ (n, (inl refl, same))
  | inr (m, (held, same)) ↦ (m, (inr held, same))
]

-- Nothing is oldest only if there is nothing.
pub find_oldest-none : (ns : List (Node L3Entry)) → find_oldest none ns ≡ none → length ns ≡ 0
unfolding find_oldest
find_oldest-none [] h = refl
find_oldest-none (n ∷ ns) h = absurd (find_oldest-some n.value ns h)

pub length-all_nodes : (bs : List (List (Node L3Entry))) → length (all_nodes bs) ≡ total bs
unfolding all_nodes total
length-all_nodes [] = refl
length-all_nodes (b ∷ bs) = omega (arith, length-append b (all_nodes bs), length-all_nodes bs)

-- Every entry is indexed under its own id.
abbrev pub IsKeyed : Table L3Entry → Type 0
IsKeyed t = (q : ℕ) (e : L3Entry) → view t q ≡ some e → e.block_id ≡ q

In-view :
    (t : Table L3Entry) (n : Node L3Entry)
    → IsValid t
    → In n (all_nodes t.buckets)
    → view t n.key ≡ some n.value
unfolding view
In-view t n v h =
    let (i, held) = In-all_nodes n t.buckets h in
    let (one, apart) = v.placed n.key i in
    elim (Bool-cases (hash_function n.key t.size == i)) [
      | inl here ↦
          (let same : i ≡ hash_function n.key t.size = ground arith in
            ap (λ j. value_of n.key (get_or t.buckets j [])) (sym same)
            ∙ In-value_of n (get_or t.buckets i []) held one)
      | inr away ↦
          (let ne : hash_function n.key t.size ≢ i = ground arith in
            absurd (omega (arith, In-occurs n _ held, apart ne)))
    ]

-- The oldest entry is found under its id.
pub find_oldest-view :
    (t : Table L3Entry) (e : L3Entry)
    → IsValid t
    → IsKeyed t
    → find_oldest none (all_nodes t.buckets) ≡ some e
    → view t e.block_id ≡ some e
find_oldest-view t e v k h =
    let (n, (held, same)) = oldest-In e (all_nodes t.buckets) h in
    let found : view t n.key ≡ some e = In-view t n v held ∙ ap some same in
    ap (view t) (k n.key e found) ∙ found
