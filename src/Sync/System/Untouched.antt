-- ===== src/Sync/System/Untouched.antt =====
-- src/sync/cond.c, src/sync/sem.c: the calls that leave every mutex alone.
use gthreads.Base.{ℕ, zero, suc, ◌≡◌, refl, ◌∙◌, arith, if-cases}
use gthreads.WaitQueue.{is_empty}
use gthreads.Sync.Objects.{Sys}
use gthreads.Sync.Sem.{sem_init, sem_wait, sem_block, sem_post, sem_hand_over, sem_destroy}
use gthreads.Sync.Cond.{
  cond_init, cond_undo, cond_signal, signal_one, broadcast_one, broadcast_loop, cond_broadcast,
  cond_destroy,
}
use gthreads.Sync.System.{settle}

pub mutexes-sem_init : (p n : ℕ) (s : Sys) → (sem_init p n s).0.mutexes ≡ s.mutexes
unfolding sem_init
mutexes-sem_init p n s = ground arith

pub mutexes-sem_wait : (p : ℕ) (s : Sys) → (settle (sem_wait p s)).mutexes ≡ s.mutexes
unfolding sem_wait sem_block
mutexes-sem_wait p s = ground arith

pub mutexes-sem_post : (p : ℕ) (s : Sys) → (sem_post p s).0.mutexes ≡ s.mutexes
unfolding sem_post sem_hand_over
mutexes-sem_post p s = ground arith

pub mutexes-sem_destroy : (p : ℕ) (s : Sys) → (sem_destroy p s).0.mutexes ≡ s.mutexes
unfolding sem_destroy
mutexes-sem_destroy p s = ground arith

pub mutexes-cond_init : (c : ℕ) (s : Sys) → (cond_init c s).0.mutexes ≡ s.mutexes
unfolding cond_init
mutexes-cond_init c s = ground arith

pub mutexes-cond_signal : (c : ℕ) (s : Sys) → (cond_signal c s).0.mutexes ≡ s.mutexes
unfolding cond_signal signal_one
mutexes-cond_signal c s = ground arith

pub mutexes-cond_destroy : (c : ℕ) (s : Sys) → (cond_destroy c s).0.mutexes ≡ s.mutexes
unfolding cond_destroy
mutexes-cond_destroy c s = ground arith

pub mutexes-cond_undo : (c slot : ℕ) (s : Sys) → (cond_undo c slot s).mutexes ≡ s.mutexes
unfolding cond_undo
mutexes-cond_undo c slot s = refl

mutexes-broadcast_one : (c n : ℕ) (s : Sys) → (broadcast_one c s n).0.mutexes ≡ s.mutexes
unfolding broadcast_one
mutexes-broadcast_one c n s = ground arith

mutexes-broadcast_loop :
    (fuel c n : ℕ) (s : Sys) → (broadcast_loop fuel c s n).0.mutexes ≡ s.mutexes
unfolding broadcast_loop
mutexes-broadcast_loop zero c n s = refl
mutexes-broadcast_loop (suc fuel) c n s =
    if-cases (λ (r : Sys × ℕ). r.0.mutexes ≡ s.mutexes) (is_empty (s.conds c).wq) (λ h. refl)
      (λ h.
        mutexes-broadcast_loop fuel c (broadcast_one c s n).1 (broadcast_one c s n).0
        ∙ mutexes-broadcast_one c n s)

pub mutexes-cond_broadcast : (c : ℕ) (s : Sys) → (cond_broadcast c s).0.mutexes ≡ s.mutexes
unfolding cond_broadcast
mutexes-cond_broadcast c s = ground (arith, mutexes-broadcast_loop (s.conds c).wq.count c 0 s)
