-- ===== src/LoadBalancer/Choose.antt =====
-- `_choose` never fails, and picks an engine with the fewest outstanding requests.
use polyserve.Base.{
  ℕ, suc, ◌%◌, ◌≤◌, ◌<◌, min, ◌≡◌, refl, inl, inr, some, List, [], ◌∷◌, map, ◌==◌, length,
  get_elem?, All, All-imp, All-get_elem?, get_elem?_total, get_elem?-modify_self,
  get_elem?-modify_ne, ◌≢◌, Memᴰ, Bool-cases, arith, ==_iff,
}
use polyserve.LoadBalancer.{Balancer, min_of, tied, chosen, occupy, choose}

pub min_of-le : (xs : List ℕ) → All (λ x. min_of xs ≤ x) xs
unfolding min_of
min_of-le [] = tt
min_of-le (x ∷ []) = (omega arith, tt)
min_of-le (x ∷ y ∷ rest) = (
  omega arith,
  All-imp _ (λ z. min x (min_of (y ∷ rest)) ≤ z) (λ z h. omega arith) (y ∷ rest)
      (min_of-le (y ∷ rest)),
)

All-map-suc : (P : ℕ → Type 0) (is : List ℕ) → All (λ i. P (suc i)) is → All P (map suc is)
All-map-suc P [] h = tt
All-map-suc P (i ∷ is) h = (h.0, All-map-suc P is h.1)

-- Every tied index holds the low value.
tied-get_elem? : (low : ℕ) (ns : List ℕ) → All (λ i. get_elem? ns i ≡ some low) (tied low ns)
unfolding tied
tied-get_elem? low [] = tt
tied-get_elem? low (n ∷ ns) = elim (Bool-cases (n == low)) [
  | inl e ↦ rw e (
    ground arith,
    All-map-suc (λ i. get_elem? (n ∷ ns) i ≡ some low) (tied low ns) (tied-get_elem? low ns),
  )
  | inr e ↦
      rw e
        (All-map-suc (λ i. get_elem? (n ∷ ns) i ≡ some low) (tied low ns) (tied-get_elem? low ns))
]

length-map-suc : (is : List ℕ) → length (map suc is) ≡ length is
length-map-suc [] = refl
length-map-suc (i ∷ is) = omega (arith, length-map-suc is)

tied_pos : (low : ℕ) (ns : List ℕ) → Memᴰ low ns → 0 < length (tied low ns)
unfolding tied
tied_pos low [] m = elim m [ ]
tied_pos low (n ∷ ns) (Memᴰ.head p) = ground arith
tied_pos low (n ∷ ns) (Memᴰ.tail m) =
    ground (arith, tied_pos low ns m, length-map-suc (tied low ns))

min_of-mem : (x : ℕ) (xs : List ℕ) → Memᴰ (min_of (x ∷ xs)) (x ∷ xs)
unfolding min_of
min_of-mem x [] = Memᴰ.head refl
min_of-mem x (y ∷ rest) = elim (Bool-cases (min x (min_of (y ∷ rest)) == x)) [
  | inl e ↦ Memᴰ.head ((==_iff _ x).0 e)
  | inr e ↦
      let other : min x (min_of (y ∷ rest)) ≡ min_of (y ∷ rest) = ground arith in
      rw other (Memᴰ.tail (min_of-mem y rest))
]

-- The chosen engine has the fewest outstanding requests.
pub chosen-low :
    (b : Balancer) {i : ℕ} → chosen b ≡ some i → get_elem? b.inflight i ≡ some (min_of b.inflight)
unfolding chosen
chosen-low b e =
    All-get_elem? (λ i. get_elem? b.inflight i ≡ some (min_of b.inflight)) _ _
      (tied-get_elem? (min_of b.inflight) b.inflight) e

tied_some : (ns : List ℕ) → 0 < length ns → 0 < length (tied (min_of ns) ns)
tied_some [] h = absurd (omega arith)
tied_some (n ∷ ns) h = tied_pos _ (n ∷ ns) (min_of-mem n ns)

pub chosen_total : (b : Balancer) → 0 < length b.inflight → (i : ℕ) × (chosen b ≡ some i)
unfolding chosen
chosen_total b h =
    get_elem?_total (tied (min_of b.inflight) b.inflight)
      (b.rr % length (tied (min_of b.inflight) b.inflight)) (grind (arith, tied_some b.inflight h))

pub choose-eq : (b : Balancer) {i : ℕ} → chosen b ≡ some i → choose b ≡ some (i, occupy i b)
unfolding choose
choose-eq b e = rw (e, choose)

-- With an engine to choose from, a choice succeeds. It takes an engine with the fewest outstanding
-- requests, counts the request there, and leaves the counts of the others as they were.
pub choose_least :
    (b : Balancer)
    → 0 < length b.inflight
    → (i : ℕ) × (b' : Balancer) × (choose b ≡ some (i, b'))
      × (get_elem? b.inflight i ≡ some (min_of b.inflight))
      × All (λ n. min_of b.inflight ≤ n) b.inflight
      × (get_elem? b'.inflight i ≡ some (suc (min_of b.inflight)))
      × ((j : ℕ) → i ≢ j → get_elem? b'.inflight j ≡ get_elem? b.inflight j)
unfolding occupy
choose_least b h =
    let (i, e) = chosen_total b h in
    (
      i,
      occupy i b,
      choose-eq b e,
      chosen-low b e,
      min_of-le b.inflight,
      get_elem?-modify_self suc i b.inflight (chosen-low b e),
      (λ j ne. get_elem?-modify_ne suc i j b.inflight ne),
    )
