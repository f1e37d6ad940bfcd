-- ===== src/ThreadPool/Totals.antt =====
-- How many threads of a pool stand where (src/thread_pool.cpp).
use cs550_pa.Prelude.{ℕ, ◌+◌, ◌≡◌, refl, ap, arith, false, List, [], ◌∷◌, ◌++◌}
use cs550_pa.ThreadPool.{
  Thread, looking, deciding, asleep, picking, working, returned, wake_all, any_asleep,
}

-- The sum of a weight over the threads.
unfoldable pub total : (Thread → ℕ) → List Thread → ℕ
total w [] = 0
total w (t ∷ ts) = w t + total w ts

abbrev pub each : Thread → ℕ
each t = 1

abbrev pub decides : Thread → ℕ
decides deciding = 1
decides _ = 0

abbrev pub picks : Thread → ℕ
picks picking = 1
picks _ = 0

-- A thread that is on its way to a job: it takes one of the queue before it may sleep.
abbrev pub looks : Thread → ℕ
looks looking = 1
looks picking = 1
looks _ = 0

abbrev pub sleeps : Thread → ℕ
sleeps asleep = 1
sleeps _ = 0

abbrev pub is_back : Thread → ℕ
is_back returned = 1
is_back _ = 0

pub total-append :
    (w : Thread → ℕ) (xs ys : List Thread) → total w (xs ++ ys) ≡ total w xs + total w ys
unfolding total
total-append w [] ys = omega arith
total-append w (x ∷ xs) ys = omega (arith, total-append w xs ys)

-- A move takes the weight of the old place away and adds that of the new one.
pub total-moves :
    (w : Thread → ℕ) (ts before behind : List Thread) (old new : Thread)
    → ts ≡ before ++ old ∷ behind
    → total w (before ++ new ∷ behind) + w old ≡ total w ts + w new
unfolding total
total-moves w ts before behind old new e = omega (
  arith,
  ap (total w) e,
  total-append w before (new ∷ behind),
  total-append w before (old ∷ behind),
)

pub total-wake_all :
    (w : Thread → ℕ) (ts : List Thread) → w asleep ≡ w looking → total w (wake_all ts) ≡ total w ts
unfolding total wake_all
total-wake_all w [] e = refl
total-wake_all w (looking ∷ ts) e = omega (arith, total-wake_all w ts e)
total-wake_all w (deciding ∷ ts) e = omega (arith, total-wake_all w ts e)
total-wake_all w (asleep ∷ ts) e = omega (arith, total-wake_all w ts e)
total-wake_all w (picking ∷ ts) e = omega (arith, total-wake_all w ts e)
total-wake_all w (working j ∷ ts) e = omega (arith, total-wake_all w ts e)
total-wake_all w (returned ∷ ts) e = omega (arith, total-wake_all w ts e)

pub none_asleep : (ts : List Thread) → any_asleep ts ≡ false → total sleeps ts ≡ 0
unfolding total any_asleep
none_asleep [] e = refl
none_asleep (looking ∷ ts) e = omega (arith, none_asleep ts e)
none_asleep (deciding ∷ ts) e = omega (arith, none_asleep ts e)
none_asleep (asleep ∷ ts) e = cc
none_asleep (picking ∷ ts) e = omega (arith, none_asleep ts e)
none_asleep (working j ∷ ts) e = omega (arith, none_asleep ts e)
none_asleep (returned ∷ ts) e = omega (arith, none_asleep ts e)
