-- ===== src/Thread/Condition/Served.antt =====
-- No wakeup is lost: what could serve a sleeping thread is promised to a woken one.
use wethands.Prelude.{ℕ, ◌+◌, ◌-◌, ◌<◌, ◌≤◌, arith}
use wethands.Thread.Condition.{Condition, wait, notify, resume}

-- While a thread sleeps, every item (or free place) that could serve it is promised to a thread
-- that was woken.
abbrev pub Served : Condition → ℕ → Type 0
Served c n = 0 < c.asleep → n ≤ c.woken

pub notify-Served : (c : Condition) (n : ℕ) → Served c n → Served (notify c) (n + 1)
unfolding notify
notify-Served c n h = ground arith

pub notify-Served_same : (c : Condition) (n : ℕ) → Served c n → Served (notify c) n
unfolding notify
notify-Served_same c n h = ground arith

pub wait-Served : (c : Condition) → Served (wait c) 0
unfolding wait
wait-Served c h = omega arith

pub resume-Served : (c : Condition) (n : ℕ) → Served c n → 0 < c.woken → Served (resume c) (n - 1)
unfolding resume
resume-Served c n h woken asleep = omega (arith, h asleep)

pub Served-mono : (c : Condition) (m n : ℕ) → m ≤ n → Served c n → Served c m
Served-mono c m n le h asleep = omega (arith, h asleep)
