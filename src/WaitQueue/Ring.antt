-- ===== src/WaitQueue/Ring.antt =====
-- The ring behind `gth_wait_queue_t`: its representation invariant, and its entries by their
-- distance from the head.
use native.Mathlib.Nat.{mod-eq_of_lt, mod-eq-sub-mod}
use gthreads.Base.{
  ℕ, zero, suc, ◌+◌, ◌-◌, ◌%◌, ◌≤◌, ◌<◌, ◌≡◌, ◌≢◌, refl, ap, ap₂, ◌∙◌, List, [], ◌∷◌, ◌++◌, ◌⊎◌,
  inl, inr, arith, dec_lt, length, get_or,
}
use gthreads.WaitQueue.{WaitQueue, fixed_slots}

pub record IsValid (wq : WaitQueue) : Type 0 where
  pub storage : length wq.slots ≡ fixed_slots
  pub nonzero : 0 < wq.capacity
  pub small : wq.capacity ≤ fixed_slots
  pub head_in : wq.head < wq.capacity
  pub count_in : wq.count ≤ wq.capacity
  pub tail_at : wq.tail ≡ (wq.head + wq.count) % wq.capacity

-- The entry `k` places behind the head.
abbrev pub entry : WaitQueue → ℕ → ℕ
entry wq k = get_or wq.slots ((wq.head + k) % wq.capacity) 0

-- The values of `f` at the `n` numbers from `i` on.
abbrev pub collect : (ℕ → ℕ) → ℕ → ℕ → List ℕ
collect f i zero = []
collect f i (suc n) = f i ∷ collect f (i + 1) n

-- The waiting slots, the longest waiter first.
abbrev pub contents : WaitQueue → List ℕ
contents wq = collect (entry wq) 0 wq.count

pub length-collect : (f : ℕ → ℕ) (i n : ℕ) → length (collect f i n) ≡ n
length-collect f i zero = refl
length-collect f i (suc n) = ap suc (length-collect f (i + 1) n)

pub collect_ext :
    (f g : ℕ → ℕ) (i n : ℕ)
    → ((k : ℕ) → i ≤ k → k < i + n → f k ≡ g k)
    → collect f i n ≡ collect g i n
collect_ext f g i zero h = refl
collect_ext f g i (suc n) h =
    ap₂ ◌∷◌ (h i (omega arith) (omega arith))
      (collect_ext f g (i + 1) n (λ k p q. h k (omega arith) (omega arith)))

pub collect_shift :
    (f g : ℕ → ℕ) (i j n : ℕ)
    → ((k : ℕ) → k < n → f (i + k) ≡ g (j + k))
    → collect f i n ≡ collect g j n
collect_shift f g i j zero h = refl
collect_shift f g i j (suc n) h =
    ap₂ ◌∷◌ (ap f (omega arith) ∙ h 0 (omega arith) ∙ ap g (omega arith)) (
      collect_shift f g (i + 1) (j + 1) n
        (λ k p. ap f (omega arith) ∙ h (k + 1) (omega arith) ∙ ap g (omega arith)))

pub collect_snoc : (f : ℕ → ℕ) (i n : ℕ) → collect f i (suc n) ≡ collect f i n ++ (f (i + n) ∷ [])
collect_snoc f i zero = ap (λ k. f k ∷ []) (omega arith)
collect_snoc f i (suc n) =
    ap (λ r. f i ∷ r)
      (collect_snoc f (i + 1) n ∙ ap (λ k. collect f (i + 1) n ++ (f k ∷ [])) (omega arith))

pub collect_split :
    (f : ℕ → ℕ) (i m n : ℕ) → collect f i (m + n) ≡ collect f i m ++ collect f (i + m) n
collect_split f i zero n = ap₂ (collect f) (omega arith) (omega arith)
collect_split f i (suc m) n =
    ap (collect f i) {y = suc (m + n)} (omega arith)
    ∙ ap (λ r. f i ∷ r)
        (collect_split f (i + 1) m n ∙ ap (λ k. collect f (i + 1) m ++ collect f k n) (omega arith))

-- One turn round the ring at most.
pub mod_turn :
    (n x : ℕ) → x < n + n → ((x < n) × (x % n ≡ x)) ⊎ ((n ≤ x) × (x % n ≡ x - n) × (x - n < n))
mod_turn n x h = elim (dec_lt x n) [
  | yes p ↦ inl (p, mod-eq_of_lt p)
  | no p ↦ inr (
    omega arith,
    mod-eq-sub-mod {n = x} {m = n} (omega arith) ∙ mod-eq_of_lt {n = x - n} {m = n} (omega arith),
    omega arith,
  )
]

-- Two offsets below the capacity are two places.
pub place-ne : (n h j k : ℕ) → h < n → j < n → k < n → j ≢ k → (h + j) % n ≢ (h + k) % n
place-ne n h j k hh hj hk ne e =
    absurd (omega (arith, mod_turn n (h + j) (omega arith), mod_turn n (h + k) (omega arith)))

pub place-lt : (n x : ℕ) → 0 < n → x % n < n
place-lt n x p = omega arith
