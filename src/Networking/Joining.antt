-- ===== src/Networking/Joining.antt =====
-- The threads of a server: how they are started and joined.
use open_x_database.Shared.{
  ℕ, zero, suc, ◌<◌, ◌≤◌, ◌-◌, ap, drop, ◌≡◌, refl, List, [], ◌∷◌, Bool, true, false, replicate,
  Option, none, some, arith,
}
use open_x_database.Shared.{ok, throws, invalid_argument, resource_unavailable}
use open_x_database.Networking.Server.{
  any_joinable, join_all, launch_all, assigned, resized, launched, new_server, with_threads,
}

pub any_joinable-replicate-false : (n : ℕ) → any_joinable (replicate n false) ≡ false
unfolding any_joinable replicate
any_joinable-replicate-false zero = refl
any_joinable-replicate-false (suc n) = any_joinable-replicate-false n

pub join_all-replicate-true : (n : ℕ) → join_all (replicate n true) ≡ (ok tt, replicate n false)
unfolding join_all replicate
join_all-replicate-true zero = refl
join_all-replicate-true (suc n) = rw (join_all-replicate-true n) refl

pub join_all-replicate-false :
    (n : ℕ)
    → join_all (replicate (suc n) false) ≡ (throws invalid_argument, replicate (suc n) false)
unfolding join_all replicate
join_all-replicate-false n = refl

-- All threads of a server without joinable ones are started, if the system can.
pub launch_all-replicate :
    (n : ℕ) → launch_all none (replicate n false) ≡ some (ok tt, replicate n true)
unfolding launch_all assigned replicate
launch_all-replicate zero = refl
launch_all-replicate (suc n) = rw (launch_all-replicate n) refl

-- The first thread that the system cannot start is behind them all.
pub launch_all-behind :
    (k n : ℕ) → n ≤ k → launch_all (some k) (replicate n false) ≡ some (ok tt, replicate n true)
unfolding launch_all assigned replicate
launch_all-behind zero zero l = refl
launch_all-behind zero (suc n) l = absurd (omega (arith, l))
launch_all-behind (suc k) zero l = refl
launch_all-behind (suc k) (suc n) l = rw (launch_all-behind k n (omega (arith, l))) refl

-- Where a thread cannot be started, an exception leaves threads of which joining throws another one.
pub launch_all-fails :
    (k n : ℕ)
    → k < n
    → (ts ts' : List Bool) × (launch_all (some k) (replicate n false)
        ≡ some (throws resource_unavailable, ts))
      × (join_all ts ≡ (throws invalid_argument, ts'))
unfolding launch_all assigned replicate join_all
launch_all-fails k zero l = absurd (omega (arith, l))
launch_all-fails zero (suc n) l = (false ∷ replicate n false, false ∷ replicate n false, refl, refl)
launch_all-fails (suc k) (suc n) l =
    let (ts, ts', launches, joins) = launch_all-fails k n (omega (arith, l)) in
    (true ∷ ts, false ∷ ts', rw launches refl, rw joins refl)

resized-nil : (n : ℕ) → resized n [] ≡ replicate n false
unfolding resized replicate
resized-nil zero = refl
resized-nil (suc n) =
    let whole : suc n - 0 ≡ suc n = omega arith in ap (λ m. replicate {A = Bool} m false) whole

drop-nil : (n : ℕ) → ◌≡◌ {A = List Bool} (drop n []) []
drop-nil zero = refl
drop-nil (suc n) = refl

-- `start` on a new server.
pub launched-new_server :
    {S : Type 0} (failing : Option ℕ) (n : ℕ) (d d' : S)
    → launched failing (new_server n d) (ok true, d')
      ≡ with_threads
          (record (new_server n d) { derived = d' })
          (launch_all failing (replicate n false))
unfolding launched new_server any_joinable
launched-new_server failing n d d' = rw (resized-nil n, drop-nil n) refl
