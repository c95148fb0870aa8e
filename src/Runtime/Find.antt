-- ===== src/Runtime/Find.antt =====
-- src/runtime/runtime.c: what the searches of the thread table find.
use mathlib.Core.Option.{some-injective}
use gthreads.Base.{
  ℕ, zero, suc, ◌+◌, ◌<◌, ◌≡◌, List, [], ◌∷◌, Bool, true, false, not, ◌&&◌, inl, inr, none, some,
  ◌==◌, Bool-cases, subst, arith, length, get_or,
}
use gthreads.State.{Thread, RuntimeState}
use gthreads.Runtime.{
  zero_thread, is_empty, find_from, find_thread, alloc_from, alloc_thread_slot, thread_at,
}

-- The first slot from `k` on whose record passes a test.
record First (p : Thread → Bool) (ts : List Thread) (k i : ℕ) : Type 0 where
  place : ℕ
  at : i ≡ k + place
  inside : place < length ts
  passes : p (get_or ts place zero_thread) ≡ true
  earlier : (j : ℕ) → j < place → p (get_or ts j zero_thread) ≡ false

First-here :
    (p : Thread → Bool) (t : Thread) (ts : List Thread) (k : ℕ) → p t ≡ true → First p (t ∷ ts) k k
First-here p t ts k e = record {
  place = 0;
  at = omega arith;
  inside = omega arith;
  passes = e;
  earlier = λ j h. absurd (omega arith);
}

First-later :
    (p : Thread → Bool) (t : Thread) (ts : List Thread) (k i : ℕ)
    → p t ≡ false
    → First p ts (k + 1) i
    → First p (t ∷ ts) k i
First-later p t ts k i e f = record {
  place = suc f.place;
  at = omega (arith, f.at);
  inside = omega (arith, f.inside);
  passes = f.passes;
  earlier = elim [ zero ↦ λ h. e | suc j ↦ λ h. f.earlier j (omega arith) ];
}

abbrev pub has_tid : ℕ → Thread → Bool
has_tid tid t = not (is_empty t.state) && (t.tid == tid)

find_from-some :
    (ts : List Thread) (k tid i : ℕ) → find_from ts k tid ≡ some i → First (has_tid tid) ts k i
unfolding find_from
find_from-some [] k tid i e = cc
find_from-some (t ∷ ts) k tid i e = elim (Bool-cases (has_tid tid t)) [
  | inl hit ↦
      subst (λ x. First (has_tid tid) (t ∷ ts) k x) (some-injective k i (rw hit at e))
        (First-here _ t ts k hit)
  | inr miss ↦
      First-later (has_tid tid) t ts k i miss (find_from-some ts (k + 1) tid i (rw miss at e))
]

find_from-none :
    (ts : List Thread) (k tid : ℕ)
    → find_from ts k tid ≡ none
    → (j : ℕ) → j < length ts
    → has_tid tid (get_or ts j zero_thread) ≡ false
unfolding find_from
find_from-none [] k tid e j h = absurd (omega arith)
find_from-none (t ∷ ts) k tid e zero h = ground arith
find_from-none (t ∷ ts) k tid e (suc j) h =
    find_from-none ts (k + 1) tid (ground arith) j (omega arith)

-- `gth_runtime_find_thread` finds the first record in use that has the identifier, and NULL says
-- that there is none.
pub record Found (tid : ℕ) (ts : List Thread) (slot : ℕ) : Type 0 where
  pub inside : slot < length ts
  pub in_use : is_empty (get_or ts slot zero_thread).state ≡ false
  pub same_tid : (get_or ts slot zero_thread).tid ≡ tid
  pub earlier : (j : ℕ) → j < slot → has_tid tid (get_or ts j zero_thread) ≡ false

First-Found : (tid : ℕ) (ts : List Thread) (i : ℕ) → First (has_tid tid) ts 0 i → Found tid ts i
First-Found tid ts i f = subst (Found tid ts) (omega (arith, f.at)) (record {
  inside = f.inside;
  in_use = used f.passes;
  same_tid = same f.passes;
  earlier = f.earlier;
})
  where
    open f use {place}

    used :
        has_tid tid (get_or ts place zero_thread) ≡ true
        → is_empty (get_or ts place zero_thread).state ≡ false
    used h = ground arith

    same :
        has_tid tid (get_or ts place zero_thread) ≡ true → (get_or ts place zero_thread).tid ≡ tid
    same h = ground arith

pub find_thread-some :
    (s : RuntimeState) (tid slot : ℕ) → find_thread s tid ≡ some slot → Found tid s.threads slot
unfolding find_thread
find_thread-some s tid slot e =
    First-Found tid s.threads slot (find_from-some s.threads 0 tid slot e)

pub find_thread-none :
    (s : RuntimeState) (tid : ℕ)
    → find_thread s tid ≡ none
    → (j : ℕ) → j < length s.threads
    → has_tid tid (thread_at s j) ≡ false
unfolding find_thread
find_thread-none s tid e j h = find_from-none s.threads 0 tid e j h

abbrev unused : Thread → Bool
unused t = is_empty t.state

alloc_from-some : (ts : List Thread) (k i : ℕ) → alloc_from ts k ≡ some i → First unused ts k i
unfolding alloc_from
alloc_from-some [] k i e = cc
alloc_from-some (t ∷ ts) k i e = elim (Bool-cases (unused t)) [
  | inl hit ↦
      subst (First unused (t ∷ ts) k) (some-injective k i (rw hit at e))
        (First-here unused t ts k hit)
  | inr miss ↦ First-later unused t ts k i miss (alloc_from-some ts (k + 1) i (rw miss at e))
]

-- `gth_runtime_alloc_thread_slot` gives a slot of the table that is not in use.
pub alloc_thread_slot-some :
    (s : RuntimeState) (slot : ℕ)
    → alloc_thread_slot s ≡ some slot
    → (slot < length s.threads) × (is_empty (thread_at s slot).state ≡ true)
unfolding alloc_thread_slot
alloc_thread_slot-some s slot e =
    let f = alloc_from-some s.threads 0 slot e in
    let at : f.place ≡ slot = omega (arith, f.at) in
    subst (λ i. (i < length s.threads) × (is_empty (thread_at s i).state ≡ true)) at
      (f.inside, f.passes)
