-- ===== src/Core/CrashTracker/History.antt =====
-- What the pruned timestamps say of the whole history of crashes.
use protoclaw.Base.{
  ℕ, ◌+◌, ◌-◌, ◌≤◌, ◌<◌, ◌≡◌, refl, false, ◌||◌, List, [], ◌∷◌, arith, leb, retain, count_where,
  count_where-append, count_where-le-length, length,
}
use protoclaw.Core.CrashTracker.{
  CrashTracker, within, new, with_long_horizon, record_crash, is_crash_loop,
}

-- The crashes at the instants of the list, the first one first.
unfoldable pub record_all : List ℕ → CrashTracker → CrashTracker
record_all [] c = c
record_all (t ∷ ts) c = record_all ts (record_crash t c)

-- No crash of the list lies after `now`.
abbrev pub AllUntil : ℕ → List ℕ → Type 0
AllUntil now [] = Unit {0}
AllUntil now (t ∷ ts) = (t ≤ now) × AllUntil now ts

count_where-retain :
    (w lw now t : ℕ) (xs : List ℕ)
    → w ≤ lw
    → t ≤ now
    → count_where (within w now) (retain (within lw t) xs) ≡ count_where (within w now) xs
count_where-retain w lw now t [] h g = refl
count_where-retain w lw now t (x ∷ xs) h g = ground (arith, count_where-retain w lw now t xs)

-- The settings do not change, and counting over a window that is no longer than the long one
-- sees all crashes that were recorded.
record_all-count :
    (w now : ℕ) (ts : List ℕ) (c : CrashTracker)
    → w ≤ c.long_window
    → AllUntil now ts
    → count_where (within w now) (record_all ts c).timestamps
      ≡ count_where (within w now) c.timestamps + count_where (within w now) ts
unfolding record_all record_crash
record_all-count w now [] c h a = omega arith
record_all-count w now (t ∷ ts) c h a = ground (
  arith,
  record_all-count w now ts (record_crash t c) h a.1,
  count_where-append (within w now) (retain (within c.long_window t) c.timestamps) (t ∷ []),
  count_where-retain w c.long_window now t c.timestamps h a.0,
)

pub record_all-settings :
    (ts : List ℕ) (c : CrashTracker)
    → let d = record_all ts c in
      (d.max_crashes ≡ c.max_crashes)
      × (d.window ≡ c.window)
      × (d.long_max_crashes ≡ c.long_max_crashes)
      × (d.long_window ≡ c.long_window)
unfolding record_all record_crash
record_all-settings [] c = (refl, refl, refl, refl)
record_all-settings (t ∷ ts) c = record_all-settings ts (record_crash t c)

-- A crash loop is reported exactly when the whole history, pruned or not, holds enough crashes
-- in the short window or in the long one: for a tracker that starts empty, whose short window is
-- at most its long window, and crashes recorded no later than `now`.
pub is_crash_loop-record_all :
    (max window long_max long_window now : ℕ) (ts : List ℕ)
    → window ≤ long_window
    → AllUntil now ts
    → is_crash_loop now (record_all ts (with_long_horizon long_max long_window (new max window)))
      ≡ leb max (count_where (within window now) ts)
        || leb long_max (count_where (within long_window now) ts)
unfolding is_crash_loop new with_long_horizon
is_crash_loop-record_all max window long_max long_window now ts h a =
    let c = with_long_horizon long_max long_window (new max window) in
    ground (
      arith,
      record_all-settings ts c,
      record_all-count window now ts c h a,
      record_all-count long_window now ts c (omega arith) a,
    )

-- With a short window longer than the long one the pruning hides crashes: two crashes that lie
-- within the short window, but apart by at least the long one, are no crash loop for a tracker
-- that is to trip at two crashes.
pub long_window_hides_crash :
    (window long_max long_window t t' : ℕ)
    → long_window ≤ t' - t
    → t' - t < window
    → 0 < window
    → 0 < long_window
    → 2 ≤ long_max
    → (count_where (within window t') (t ∷ t' ∷ []) ≡ 2)
      × (is_crash_loop t'
            (record_all (t ∷ t' ∷ []) (with_long_horizon long_max long_window (new 2 window)))
          ≡ false)
unfolding is_crash_loop new with_long_horizon record_all record_crash
long_window_hides_crash window long_max long_window t t' h g p q r = ground arith

-- Fewer crashes than both limits are never a loop.
pub few_crashes :
    (max window now : ℕ) (ts : List ℕ) (long_max long_window : ℕ)
    → window ≤ long_window
    → AllUntil now ts
    → length ts < max
    → length ts < long_max
    → is_crash_loop now (record_all ts (with_long_horizon long_max long_window (new max window)))
      ≡ false
few_crashes max window now ts long_max long_window h a p q = ground (
  arith,
  is_crash_loop-record_all max window long_max long_window now ts h a,
  count_where-le-length (within window now) ts,
  count_where-le-length (within long_window now) ts,
)
