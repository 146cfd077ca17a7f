-- ===== src/ThreadPool/Sums.antt =====
-- How many workers stand where, and what a step of one of them changes.
use cpp_gram.Common.{ℕ, ◌+◌, ◌≤◌, ◌≡◌, refl, false, List, [], ◌∷◌, some, length, map, arith}
use cpp_gram.Common.Positions.{
  get_elem?, set, length-set, total, total-set, weight-le-total, total-le,
}
use cpp_gram.ThreadPool.{
  any_asleep, woken, Worker, looking, asleep, running, finishing, counted, exited,
}

module _ {T : Type 0} where
  abbrev pub runs : Worker T → ℕ
  runs (running t) = 1
  runs _ = 0

  abbrev pub ends : Worker T → ℕ
  ends finishing = 1
  ends _ = 0

  abbrev pub sleeps : Worker T → ℕ
  sleeps asleep = 1
  sleeps _ = 0

  abbrev pub leaves : Worker T → ℕ
  leaves exited = 1
  leaves _ = 0

  abbrev pub awake : Worker T → ℕ
  awake asleep = 0
  awake exited = 0
  awake _ = 1

  pub total-all :
      (ws : List (Worker T)) → total awake ws + total sleeps ws + total leaves ws ≡ length ws
  total-all [] = omega arith
  total-all (looking ∷ ws) = omega (arith, total-all ws)
  total-all (asleep ∷ ws) = omega (arith, total-all ws)
  total-all (running t ∷ ws) = omega (arith, total-all ws)
  total-all (finishing ∷ ws) = omega (arith, total-all ws)
  total-all (counted ∷ ws) = omega (arith, total-all ws)
  total-all (exited ∷ ws) = omega (arith, total-all ws)

  pub runs-le : (ws : List (Worker T)) → total runs ws ≤ length ws
  runs-le ws = omega (arith, total-le runs 1 ws (λ w. ground arith))

  -- What changes in the sums when worker `i` goes from `w` to `v`.
  pub record Move (ws : List (Worker T)) (i : ℕ) (w v : Worker T) : Type 0 where
    pub long : length (set ws i v) ≡ length ws
    pub run : total runs (set ws i v) + runs w ≡ total runs ws + runs v
    pub end : total ends (set ws i v) + ends w ≡ total ends ws + ends v
    pub sleep : total sleeps (set ws i v) + sleeps w ≡ total sleeps ws + sleeps v
    pub leave : total leaves (set ws i v) + leaves w ≡ total leaves ws + leaves v
    pub wake : total awake (set ws i v) + awake w ≡ total awake ws + awake v
    pub some_run : runs w ≤ total runs ws
    pub few : total runs (set ws i v) ≤ length ws

  pub move :
      (ws : List (Worker T)) (i : ℕ) (w v : Worker T) → get_elem? ws i ≡ some w → Move ws i w v
  move ws i w v h = record {
    long = length-set ws i v;
    run = total-set runs ws i w v h;
    end = total-set ends ws i w v h;
    sleep = total-set sleeps ws i w v h;
    leave = total-set leaves ws i w v h;
    wake = total-set awake ws i w v h;
    some_run = weight-le-total runs ws i w h;
    few = omega (arith, runs-le (set ws i v), length-set ws i v);
  }

  pub any_asleep-sleeps : (ws : List (Worker T)) → any_asleep ws ≡ false → total sleeps ws ≡ 0
  any_asleep-sleeps [] h = refl
  any_asleep-sleeps (asleep ∷ ws) h = absurd (cc)
  any_asleep-sleeps (looking ∷ ws) h = omega (arith, any_asleep-sleeps ws h)
  any_asleep-sleeps (running t ∷ ws) h = omega (arith, any_asleep-sleeps ws h)
  any_asleep-sleeps (finishing ∷ ws) h = omega (arith, any_asleep-sleeps ws h)
  any_asleep-sleeps (counted ∷ ws) h = omega (arith, any_asleep-sleeps ws h)
  any_asleep-sleeps (exited ∷ ws) h = omega (arith, any_asleep-sleeps ws h)

  -- What waking everybody does to the sums.
  pub record Counts (ws : List (Worker T)) : Type 0 where
    pub long : length (map woken ws) ≡ length ws
    pub run : total runs (map woken ws) ≡ total runs ws
    pub end : total ends (map woken ws) ≡ total ends ws
    pub sleep : total sleeps (map woken ws) ≡ 0
    pub leave : total leaves (map woken ws) ≡ total leaves ws
    pub wake : total awake (map woken ws) ≡ total awake ws + total sleeps ws

  pub woken-Counts : (ws : List (Worker T)) → Counts ws
  woken-Counts [] = omega arith
  woken-Counts (w ∷ ws) = let ih = woken-Counts ws in ground arith
