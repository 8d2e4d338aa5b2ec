-- ===== src/Linux/Proc/Shares.antt =====
-- What the share of a CPU is a share of.
use homelab_inventory_agent.Prelude.{
  ℕ, ◌+◌, ◌-◌, ◌≤◌, ◌<◌, ◌&&◌, leb, ltb, ltb→lt, &&-true, u64_mod, Bool, true, some, FloatLibrary,
  ◌≡◌, refl, arith,
}
use homelab_inventory_agent.Linux.Proc.{
  CpuCounters, plus64, minus64, total, idle_time, valid_delta, total_delta, busy_delta, percent_of,
  percentage,
}

-- The time a CPU worked, and all of its time, as numbers that do not wrap.
abbrev pub work : CpuCounters → ℕ
work c = c.user + c.nice + c.system + c.irq + c.soft_irq + c.steal

abbrev pub whole : CpuCounters → ℕ
whole c = work c + (c.idle + c.io_wait)

plus64-sum : (a b : ℕ) → a + b < u64_mod → plus64 a b ≡ a + b
plus64-sum a b h = omega (arith, h)

minus64-difference : (a b : ℕ) → a < u64_mod → b ≤ a → minus64 a b ≡ a - b
minus64-difference a b h le = omega (arith, h, le)

total-whole : (c : CpuCounters) → whole c < u64_mod → total c ≡ whole c
unfolding total
total-whole c h = omega (arith, h)

idle_time-sum : (c : CpuCounters) → whole c < u64_mod → idle_time c ≡ c.idle + c.io_wait
unfolding idle_time
idle_time-sum c h = omega (arith, h)

-- No counter goes back.
record Grows (c previous : CpuCounters) : Type 0 where
  work_grows : work previous ≤ work c
  idle_grows : previous.idle + previous.io_wait ≤ c.idle + c.io_wait

leb-true : (a b : ℕ) → leb a b ≡ true → a ≤ b
leb-true a b h = ground (arith, h)

-- The counters of a valid delta, one by one.
all_grow :
    (a a' b b' c c' d d' e e' f f' g g' h h' : ℕ) (more : Bool)
    → (leb a a'
        && leb b b'
        && leb c c'
        && leb d d'
        && leb e e'
        && leb f f'
        && leb g g'
        && leb h h'
        && more)
      ≡ true
    → ((a + b + c + f + g + h) ≤ (a' + b' + c' + f' + g' + h'))
      × ((d + e) ≤ (d' + e'))
      × (more ≡ true)
all_grow a a' b b' c c' d d' e e' f f' g g' h h' more all =
    let (r7, last) = &&-true _ _ all in
    let (r6, h8) = &&-true _ _ r7 in
    let (r5, h7) = &&-true _ _ r6 in
    let (r4, h6) = &&-true _ _ r5 in
    let (r3, h5) = &&-true _ _ r4 in
    let (r2, h4) = &&-true _ _ r3 in
    let (r1, h3) = &&-true _ _ r2 in
    let (h1, h2) = &&-true _ _ r1 in
    (
      omega (
        arith,
        leb-true a a' h1,
        leb-true b b' h2,
        leb-true c c' h3,
        leb-true f f' h6,
        leb-true g g' h7,
        leb-true h h' h8,
      ),
      omega (arith, leb-true d d' h4, leb-true e e' h5),
      last,
    )

valid_delta-Grows :
    (c previous : CpuCounters)
    → valid_delta c previous ≡ true
    → Grows c previous × (total previous < total c)
unfolding valid_delta
valid_delta-Grows c previous h =
    let (worked, idled, more) =
      all_grow previous.user c.user previous.nice c.nice previous.system c.system previous.idle
        c.idle previous.io_wait c.io_wait previous.irq c.irq previous.soft_irq c.soft_irq
        previous.steal c.steal (ltb (total previous) (total c)) h in
    (record { work_grows = worked; idle_grows = idled }, ltb→lt (total previous) (total c) more)

whole-Grows : (c previous : CpuCounters) → Grows c previous → whole previous ≤ whole c
whole-Grows c previous h = omega (arith, h.work_grows, h.idle_grows)

total_delta-whole :
    (c previous : CpuCounters)
    → whole c < u64_mod
    → Grows c previous
    → total_delta c previous ≡ whole c - whole previous
unfolding total_delta
total_delta-whole c previous small h =
    let grows = whole-Grows c previous h in
    rw (total-whole c small, total-whole previous (omega (arith, small, grows)))
      (minus64-difference (whole c) (whole previous) small grows)

busy-difference :
    (w w' i i' : ℕ)
    → w ≤ w'
    → i ≤ i'
    → w' + i' < u64_mod
    → minus64 ((w' + i') - (w + i)) (minus64 i' i) ≡ w' - w
busy-difference w w' i i' le le' h = omega (arith, le, le', h)

busy_delta-work :
    (c previous : CpuCounters)
    → whole c < u64_mod
    → Grows c previous
    → busy_delta c previous ≡ work c - work previous
unfolding busy_delta
busy_delta-work c previous small h =
    let grows = whole-Grows c previous h in
    rw
      (
        total_delta-whole c previous small h,
        idle_time-sum c small,
        idle_time-sum previous (omega (arith, small, grows)),
      )
      (busy-difference (work previous) (work c) (previous.idle + previous.io_wait)
        (c.idle + c.io_wait) h.work_grows h.idle_grows small)

-- Where the counters of a reading add up to less than 2^64 and the test on the two readings passes (no
-- counter went back, and the total in uint64 grew), the CPU share is that of the time worked in the whole
-- time since the last reading, which is positive and at least the time worked.
pub percentage-share :
    (floats : FloatLibrary) (c previous : CpuCounters)
    → whole c < u64_mod
    → valid_delta c previous ≡ true
    → (percentage floats c previous
        ≡ some (percent_of floats (work c - work previous) (whole c - whole previous)))
      × (work c - work previous ≤ whole c - whole previous)
      × (0 < whole c - whole previous)
unfolding percentage
percentage-share floats c previous small valid =
    let (grows, more) = valid_delta-Grows c previous valid in
    (
      rw (valid, busy_delta-work c previous small grows, total_delta-whole c previous small grows)
          refl,
      omega (arith, grows.work_grows, grows.idle_grows),
      omega (
        arith,
        more,
        total-whole c small,
        total-whole previous (omega (arith, small, whole-Grows c previous grows)),
      ),
    )
